-- ===== src/SubManager/View.antt =====
-- The manager as a map from connection and identifier to filters.
use mathlib.Core.Option
use wisp_esp.Base.{
  ℕ, ◌-◌, ◌≤◌, ◌≡◌, ◌≢◌, refl, ap, ◌∙◌, sym, ◌⊎◌, ◌↔◌, inl, inr, Bool, true, false, Option, none,
  some, List, [], arith, length, bit, leb, Bool-cases, Option-cases, bytes_eq, bytes_eq_refl,
  bytes_eq_sound, find_entry, count_where, first_where, find_entry-some, find_entry-none,
  first_where-set_found, first_where-set_other, first_where-set_new, count_where-set,
  count_where-zero, take, take_all, set,
}
use wisp_esp.Protocol.{Text, Filter, RelayError, relay_ok, out_of_memory, too_many_filters}
use wisp_esp.SubManager.{
  Subscription, SubManager, max_per_conn, max_id_len, zero_sub, on_conn, is_sub, is_free, new_sub,
  refiltered, add, remove,
}
use wisp_esp.SubManager.Memory.{Mem, blocks}
use wisp_esp.SubManager.Invariant.{Owns}
use wisp_esp.SubManager.Paths.{
  Added, replaced, emptied, refused, no_slot, inserted, unallocated, add-Added, kept, Out,
}

abbrev pub subscription : SubManager → ℕ → Text → Option Subscription
subscription mgr fd id = first_where (is_sub fd id) mgr.subs

-- The filters of a subscription, if there is one.
abbrev pub filters_of : SubManager → ℕ → Text → Option (List Filter)
filters_of mgr fd id = Option.map (λ s. s.filters) (subscription mgr fd id)

abbrev pub free_slot : SubManager → Option Subscription
free_slot mgr = first_where is_free mgr.subs

-- The status that `sub_manager_add` owes when the allocator refuses nothing.
abbrev pub status : Option Subscription → Bool → Option Subscription → RelayError
status (some s) full spare = relay_ok
status none true spare = too_many_filters
status none false none = out_of_memory
status none false (some old) = relay_ok

-- Another key than this one.
abbrev pub Other : ℕ → Text → ℕ → Text → Type 0
Other fd id fd' id' = (fd' ≢ fd) ⊎ (id' ≢ id)

is_sub-Other :
    (fd fd' : ℕ) (id id' : Text) (s : Subscription)
    → Other fd id fd' id'
    → is_sub fd id s ≡ true
    → is_sub fd' id' s ≡ false
is_sub-Other fd fd' id id' s (inl ne) e = ground arith
is_sub-Other fd fd' id id' s (inr ne) e = elim (Bool-cases (is_sub fd' id' s)) [
  | inr off ↦ off
  | inl on ↦ absurd (
      ne (
        sym (bytes_eq_sound s.sub_id id' (ground arith))
        ∙ bytes_eq_sound s.sub_id id (ground arith)))
]

is_sub-new_sub :
    (fd : ℕ) (id : Text) (fs : List Filter)
    → length id ≤ max_id_len
    → is_sub fd id (new_sub fd id fs) ≡ true
is_sub-new_sub fd id fs fits =
    let same : bytes_eq (take max_id_len id) id ≡ true =
      rw (take_all max_id_len id fits) (bytes_eq_refl id) in
    ground arith

is_free-is_sub : (fd : ℕ) (id : Text) (s : Subscription) → is_free s ≡ true → is_sub fd id s ≡ false
is_free-is_sub fd id s e = ground arith

-- What the map says after `add`.
pub record Updated (grants : ℕ → Bool) (mgr : SubManager) (fd : ℕ) (id : Text) (fs : List Filter)
    (out : Out) : Type 0 where
  pub stored : out.0 ≡ relay_ok → filters_of out.1 fd id ≡ some (kept fs)
  pub others :
      (fd' : ℕ) (id' : Text)
      → Other fd id fd' id'
      → subscription out.1 fd' id' ≡ subscription mgr fd' id'
  pub result :
      (out.0
        ≡ status
            (subscription mgr fd id)
            (leb max_per_conn (count_where (on_conn fd) mgr.subs))
            (free_slot mgr))
      ⊎ ((n : ℕ) × (grants n ≡ false)
          × (out.0 ≡ out_of_memory)
          × (filters_of out.1 fd id ≡ Option.map (λ s. []) (subscription mgr fd id)))

module _ {grants : ℕ → Bool} (mgr : SubManager) (fd : ℕ) (id : Text) (fs : List Filter)
    (m : Mem) where
  Added-Updated :
      (out : Out)
      → length id ≤ max_id_len
      → Added grants mgr fd id fs m out
      → Updated grants mgr fd id fs out
  Added-Updated out fits (replaced i s e r t l) =
      let (got, hit, first) = find_entry-some (is_sub fd id) mgr.subs i s e in
      rw t (record {
        stored = λ ok.
            ap (Option.map (λ s. s.filters))
              (first_where-set_found (is_sub fd id) mgr.subs i s (refiltered s (kept fs)) e hit);
        others = λ fd' id' ne.
            let off = is_sub-Other fd fd' id id' s ne hit in
            first_where-set_other (is_sub fd' id') mgr.subs i s (refiltered s (kept fs)) got off
              off;
        result = inl (rw (r, first));
      })
  Added-Updated out fits (emptied i s n e c r t l) =
      let (got, hit, first) = find_entry-some (is_sub fd id) mgr.subs i s e in
      rw t (record {
        stored = λ ok. absurd (cc);
        others = λ fd' id' ne.
            let off = is_sub-Other fd fd' id id' s ne hit in
            first_where-set_other (is_sub fd' id') mgr.subs i s (refiltered s []) got off off;
        result = inr (
          n,
          c,
          r,
          rw first (
              ap (Option.map (λ s. s.filters))
                (first_where-set_found (is_sub fd id) mgr.subs i s (refiltered s []) e hit)),
        );
      })
  Added-Updated out fits (refused e h o) =
      let full : leb max_per_conn (count_where (on_conn fd) mgr.subs) ≡ true = ground arith in
      rw o (record {
        stored = λ ok. absurd (cc);
        others = λ fd' id' ne. refl;
        result = inl (rw (find_entry-none (is_sub fd id) mgr.subs e) (rw full));
      })
  Added-Updated out fits (no_slot e h f o) =
      let room : leb max_per_conn (count_where (on_conn fd) mgr.subs) ≡ false = ground arith in
      rw o (record {
        stored = λ ok. absurd (cc);
        others = λ fd' id' ne. refl;
        result = inl (
            rw (find_entry-none (is_sub fd id) mgr.subs e)
              (rw room (rw (find_entry-none is_free mgr.subs f))));
      })
  Added-Updated out fits (inserted i old e h f r t l) =
      let room : leb max_per_conn (count_where (on_conn fd) mgr.subs) ≡ false = ground arith in
      let (got, free, first) = find_entry-some is_free mgr.subs i old f in
      let gone = find_entry-none (is_sub fd id) mgr.subs e in
      let new = new_sub fd id (kept fs) in
      let mine = is_sub-new_sub fd id (kept fs) fits in
      rw t (record {
        stored = λ ok.
            ap (Option.map (λ s. s.filters))
              (first_where-set_new (is_sub fd id) mgr.subs i old new got gone mine);
        others = λ fd' id' ne.
            first_where-set_other (is_sub fd' id') mgr.subs i old new got
              (is_free-is_sub fd' id' old free) (is_sub-Other fd fd' id id' new ne mine);
        result = inl (rw r (rw gone (rw room (rw first))));
      })
  Added-Updated out fits (unallocated i old n e h f c r t l) =
      let (got, free, first) = find_entry-some is_free mgr.subs i old f in
      let gone = find_entry-none (is_sub fd id) mgr.subs e in
      let same =
        first_where-set_other (is_sub fd id) mgr.subs i old zero_sub got
          (is_free-is_sub fd id old free) refl in
      rw t (record {
        stored = λ ok. absurd (cc);
        others = λ fd' id' ne.
            first_where-set_other (is_sub fd' id') mgr.subs i old zero_sub got
              (is_free-is_sub fd' id' old free) refl;
        result = inr (n, c, r, rw (same, gone));
      })

module _ (grants : ℕ → Bool) (filter_free : Filter → Mem → Mem)
    (frees : (f : Filter) (m : Mem) → (filter_free f m).live ≡ m.live - blocks f) (base : ℕ)
    (mgr : SubManager) (m : Mem) (v : Owns base mgr m) where
  pub add-Updated :
      (fd : ℕ) (id : Text) (fs : List Filter)
      → length id ≤ max_id_len
      → Updated grants mgr fd id fs (add grants filter_free mgr fd id fs m)
  add-Updated fd id fs fits =
      Added-Updated mgr fd id fs m (add grants filter_free mgr fd id fs m) fits
        (add-Added grants filter_free frees base mgr m v fd id fs)

  remove_lem :
      (fd : ℕ) (id : Text)
      → let out = remove grants filter_free mgr fd id m in
        ((out.0 ≡ relay_ok) ↔ ((s : Subscription) × (subscription mgr fd id ≡ some s)))
        × (subscription out.1 fd id ≡ none)
        × ((fd' : ℕ) (id' : Text)
            → Other fd id fd' id'
            → subscription out.1 fd' id' ≡ subscription mgr fd' id')
  unfolding remove
  remove_lem fd id = elim (Option-cases (find_entry (is_sub fd id) mgr.subs)) [
    | inl e ↦
        let gone = find_entry-none (is_sub fd id) mgr.subs e in
        rw (e, remove) ((λ ok. absurd (cc), λ (s, has). absurd (cc)), gone, λ fd' id' ne. refl)
    | inr ((i, s), e) ↦
        let (got, hit, first) = find_entry-some (is_sub fd id) mgr.subs i s e in
        rw (e, remove)
          (
            (λ ok. (s, first), λ has. refl),
            count_where-zero (is_sub fd id) (set mgr.subs i zero_sub) (
                omega (
                  arith,
                  count_where-set (is_sub fd id) mgr.subs i s zero_sub got,
                  ap bit hit,
                  v.valid.single fd id,
                )),
            λ fd' id' ne.
                first_where-set_other (is_sub fd' id') mgr.subs i s zero_sub got
                  (is_sub-Other fd fd' id id' s ne hit) refl,
          )
  ]

  -- On a valid table, after a `sub_manager_add` that returns `NOSTR_RELAY_OK`, for an identifier of at most 64 characters, the
  -- connection's subscription of that name has the first four of the given filters, copied.
  pub add_stores :
      (fd : ℕ) (id : Text) (fs : List Filter)
      → length id ≤ max_id_len
      → (add grants filter_free mgr fd id fs m).0 ≡ relay_ok
      → filters_of (add grants filter_free mgr fd id fs m).1 fd id ≡ some (kept fs)
  add_stores fd id fs fits done = (add-Updated fd id fs fits).stored done

  -- Whatever `sub_manager_add` returns on a valid table, every subscription of another connection or of another name
  -- is as before, for a new identifier of at most 64 characters.
  pub add_keeps_others :
      (fd : ℕ) (id : Text) (fs : List Filter) (fd' : ℕ) (id' : Text)
      → length id ≤ max_id_len
      → Other fd id fd' id'
      → subscription (add grants filter_free mgr fd id fs m).1 fd' id' ≡ subscription mgr fd' id'
  add_keeps_others fd id fs fd' id' fits ne = (add-Updated fd id fs fits).others fd' id' ne

  -- On a valid table and for an identifier of at most 64 characters, `sub_manager_add` returns
  -- `NOSTR_RELAY_OK` for a subscription that there is or that gets a slot, `TOO_MANY_FILTERS` for the
  -- ninth of a connection, and `MEMORY` without a free slot; or the allocator has refused a call, the
  -- code is `MEMORY`, and the subscription, if there was one, is left without filters.
  pub add_result :
      (fd : ℕ) (id : Text) (fs : List Filter)
      → length id ≤ max_id_len
      → let out = add grants filter_free mgr fd id fs m in
        (out.0
          ≡ status
              (subscription mgr fd id)
              (leb max_per_conn (count_where (on_conn fd) mgr.subs))
              (free_slot mgr))
        ⊎ ((n : ℕ) × (grants n ≡ false)
            × (out.0 ≡ out_of_memory)
            × (filters_of out.1 fd id ≡ Option.map (λ s. []) (subscription mgr fd id)))
  add_result fd id fs fits = (add-Updated fd id fs fits).result

  -- `sub_manager_remove` on a valid table returns `NOSTR_RELAY_OK` exactly if the connection has a subscription of that name,
  -- and afterwards it has none.
  pub remove_ends :
      (fd : ℕ) (id : Text)
      → let out = remove grants filter_free mgr fd id m in
        ((out.0 ≡ relay_ok) ↔ ((s : Subscription) × (subscription mgr fd id ≡ some s)))
        × (subscription out.1 fd id ≡ none)
  remove_ends fd id = let (code, gone, others) = remove_lem fd id in (code, gone)

  -- `sub_manager_remove` on a valid table leaves every subscription of another connection or of
  -- another name as it was.
  pub remove_keeps_others :
      (fd : ℕ) (id : Text) (fd' : ℕ) (id' : Text)
      → Other fd id fd' id'
      → subscription (remove grants filter_free mgr fd id m).1 fd' id' ≡ subscription mgr fd' id'
  remove_keeps_others fd id fd' id' ne =
      let (code, gone, others) = remove_lem fd id in others fd' id' ne
