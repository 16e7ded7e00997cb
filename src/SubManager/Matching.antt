-- ===== src/SubManager/Matching.antt =====
-- `sub_manager_match`: who hears of an event.
use wisp_esp.Base.{
  ℕ, ◌≤◌, ◌≡◌, refl, Bool, ◌&&◌, Option, none, some, List, [], ◌∷◌, arith, length, bit, ◌==◌,
  bytes_eq, count_where, first_where,
}
use wisp_esp.Protocol.{Text, Filter, Event}
use wisp_esp.SubManager.{
  Subscription, SubManager, MatchEntry, max_total, is_sub, match_loop, matching,
}
use wisp_esp.SubManager.Invariant.{IsValid}
use wisp_esp.SubManager.View.{subscription}

abbrev pub is_entry : ℕ → Text → MatchEntry → Bool
is_entry fd id e = (e.match_fd == fd) && bytes_eq e.match_id id

module _ (filters_match : List Filter → Event → Bool) (ev : Event) where
  -- The entries that are due to a subscription.
  abbrev pub due : Option Subscription → ℕ
  due none = 0
  due (some s) = bit (filters_match s.filters ev)

  length-match_loop : (ss : List Subscription) → length (match_loop filters_match ss ev) ≤ length ss
  unfolding match_loop
  length-match_loop [] = omega arith
  length-match_loop (s ∷ ss) = ground (arith, length-match_loop ss)

  match_loop-none :
      (fd : ℕ) (id : Text) (ss : List Subscription)
      → count_where (is_sub fd id) ss ≡ 0
      → count_where (is_entry fd id) (match_loop filters_match ss ev) ≡ 0
  unfolding match_loop count_where
  match_loop-none fd id [] h = refl
  match_loop-none fd id (s ∷ ss) h = ground (arith, match_loop-none fd id ss)

  match_loop-due :
      (fd : ℕ) (id : Text) (ss : List Subscription)
      → count_where (is_sub fd id) ss ≤ 1
      → count_where (is_entry fd id) (match_loop filters_match ss ev)
        ≡ due (first_where (is_sub fd id) ss)
  unfolding match_loop count_where first_where
  match_loop-due fd id [] h = refl
  match_loop-due fd id (s ∷ ss) h =
      ground (arith, match_loop-due fd id ss, match_loop-none fd id ss)

  -- In a valid table an event is matched once to each subscription with a filter that fits it and
  -- to no other, and the result array of 64 entries has room for all.
  pub matching_once :
      (mgr : SubManager) (fd : ℕ) (id : Text)
      → IsValid mgr
      → (count_where (is_entry fd id) (matching filters_match mgr ev)
          ≡ due (subscription mgr fd id))
        × (length (matching filters_match mgr ev) ≤ max_total)
  matching_once mgr fd id v = (
    match_loop-due fd id mgr.subs (v.single fd id),
    omega (arith, length-match_loop mgr.subs, v.size),
  )
