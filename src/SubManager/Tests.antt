-- ===== src/SubManager/Tests.antt =====
-- Runs of main/sub_manager.c at concrete inputs, and its theorems there. The allocator of these
-- runs refuses its fifth call; the library's free gives back what a filter owns.
use mathlib.Core.Option
use wisp_esp.SubManager.Paths.{kept}
use wisp_esp.Base.{
  ℕ, ◌-◌, ◌≡◌, ◌≤◌, ◌⊎◌, ◌↔◌, inl, leb, length, refl, Bool, true, false, not, List, [], ◌∷◌, none,
  some, arith, ◌==◌, find_entry, count_where, first_where, bytes_eq,
}
use wisp_esp.Base.Int.{pos}
use wisp_esp.Protocol.{Text, Filter, Event, relay_ok, out_of_memory}
use wisp_esp.SubManager.{
  Subscription, SubManager, max_total, max_per_conn, on_conn, init, add, remove, destroy_loop,
  replace, insert, matching,
}
use wisp_esp.SubManager.Memory.{
  Mem, blocks, no_filter, filter_copy, copy_field, copy_string_array, copy_strings, copy_int_array,
  copy_generic_tags, copy_filters,
}
use wisp_esp.SubManager.Invariant.{Owns, init-Owns, is_active}
use wisp_esp.SubManager.Ownership.{add-Owns}
use wisp_esp.SubManager.Destroy.{destroy_loop_releases}
use wisp_esp.SubManager.View.{
  add_stores, add_keeps_others, add_result, remove_ends, subscription, filters_of, free_slot,
  status,
}
use wisp_esp.SubManager.Matching.{matching_once, is_entry, due}

abbrev grants : ℕ → Bool
grants n = not (n == 4)

abbrev filter_free : Filter → Mem → Mem
filter_free f m = record m { live = m.live - blocks f }

frees : (f : Filter) (m : Mem) → (filter_free f m).live ≡ m.live - blocks f
frees f m = refl

abbrev notes : Filter
notes = record no_filter { kinds = pos 1 ∷ []; authors = (b'a' ∷ b'b' ∷ []) ∷ [] }

abbrev empty : Mem
empty = record { calls = 0; live = 7 }

abbrev feed : Text
feed = b'f' ∷ []

-- The first subscription takes three blocks; replacing it fails, and it is left with no filter.
abbrev once : SubManager
once = (add grants filter_free (init true) 5 feed (notes ∷ []) empty).1

abbrev after_once : Mem
after_once = (add grants filter_free (init true) 5 feed (notes ∷ []) empty).2

once_live : after_once.live ≡ 10
unfolding add insert init find_entry count_where copy_filters filter_copy copy_field
    copy_string_array copy_strings copy_int_array copy_generic_tags bytes_eq
once_live = refl

replace_fails : (add grants filter_free once 5 feed (notes ∷ []) after_once).0 ≡ out_of_memory
unfolding add insert replace init find_entry count_where copy_filters filter_copy copy_field
    copy_string_array copy_strings copy_int_array copy_generic_tags bytes_eq
replace_fails = refl

replace_empties :
    filters_of (add grants filter_free once 5 feed (notes ∷ []) after_once).1 5 feed ≡ some []
unfolding add insert replace init find_entry count_where copy_filters filter_copy copy_field
    copy_string_array copy_strings copy_int_array copy_generic_tags bytes_eq first_where
replace_empties = refl

once-Owns : Owns 7 once after_once
once-Owns =
    add-Owns 7 (init true) empty (init-Owns true empty) grants filter_free frees 5 feed (notes ∷ [])
      (omega arith)

once_ok : (add grants filter_free (init true) 5 feed (notes ∷ []) empty).0 ≡ relay_ok
unfolding add insert init find_entry count_where copy_filters filter_copy copy_field
    copy_string_array copy_strings copy_int_array copy_generic_tags bytes_eq
once_ok = refl

add_stores_example : filters_of once 5 feed ≡ some (kept (notes ∷ []))
add_stores_example =
    add_stores grants filter_free frees 7 (init true) empty (init-Owns true empty) 5 feed
      (notes ∷ []) (omega arith) once_ok

add_keeps_others_example :
    subscription (add grants filter_free once 6 feed (notes ∷ []) after_once).1 5 feed
    ≡ subscription once 5 feed
add_keeps_others_example =
    add_keeps_others grants filter_free frees 7 once after_once once-Owns 6 feed (notes ∷ []) 5 feed
      (omega arith) (inl (λ e. omega (arith, e)))

add_result_example :
    let out = add grants filter_free once 5 feed (notes ∷ []) after_once in
    (out.0
      ≡ status
          (subscription once 5 feed)
          (leb max_per_conn (count_where (on_conn 5) once.subs))
          (free_slot once))
    ⊎ ((n : ℕ) × (grants n ≡ false)
        × (out.0 ≡ out_of_memory)
        × (filters_of out.1 5 feed ≡ Option.map (λ s. []) (subscription once 5 feed)))
add_result_example =
    add_result grants filter_free frees 7 once after_once once-Owns 5 feed (notes ∷ [])
      (omega arith)

remove_ends_example :
    let out = remove grants filter_free once 5 feed after_once in
    ((out.0 ≡ relay_ok) ↔ ((s : Subscription) × (subscription once 5 feed ≡ some s)))
    × (subscription out.1 5 feed ≡ none)
remove_ends_example = remove_ends grants filter_free frees 7 once after_once once-Owns 5 feed

abbrev note : Event
note = record {
  id = 1 ∷ [];
  pubkey = 2 ∷ [];
  created_at = pos 9;
  kind = 1;
  tags = [];
  content = [];
  sig = [];
}

-- A library in which every list of filters but the empty one matches.
abbrev any_filter : List Filter → Event → Bool
any_filter [] e = false
any_filter (f ∷ fs) e = true

matching_once_example :
    (count_where (is_entry 5 feed) (matching any_filter once note)
      ≡ due any_filter note (subscription once 5 feed))
    × (length (matching any_filter once note) ≤ max_total)
matching_once_example = matching_once any_filter note once 5 feed once-Owns.valid

destroy_loop_releases_example :
    ((destroy_loop grants filter_free once.subs after_once).1.live ≡ 7)
    × (count_where is_active (destroy_loop grants filter_free once.subs after_once).0 ≡ 0)
destroy_loop_releases_example =
    destroy_loop_releases grants filter_free frees 7 once after_once once-Owns
