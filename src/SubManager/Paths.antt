-- ===== src/SubManager/Paths.antt =====
-- The ways through `sub_manager_add` and `sub_manager_remove`, each with what the operation
-- returns, the table that it leaves and the memory that it holds then.
use wisp_esp.Base.{
  ℕ, ◌+◌, ◌-◌, ◌%◌, ◌^◌, ◌≤◌, ◌<◌, ◌≡◌, inl, inr, Bool, false, none, some, List, [], arith, take,
  set, leb, Bool-cases, Option-cases, find_entry, find_entry-some, count_where,
  count_where-le_length, le-sum_of,
}
use wisp_esp.Protocol.{Text, Filter, RelayError, relay_ok, out_of_memory, too_many_filters}
use wisp_esp.SubManager.{
  Subscription, SubManager, max_per_conn, max_filters, zero_sub, on_conn, is_sub, is_free, incr16,
  new_sub, refiltered, with_slot, replace, insert, add,
}
use wisp_esp.SubManager.Memory.{Mem, blocks, all_blocks, free_filters}
use wisp_esp.SubManager.Copy.{copied, failed, copy_filters-Outcome, free_filters-live}
use wisp_esp.SubManager.Invariant.{Owns, slot_blocks}

abbrev pub Out : Type 0
Out = RelayError × SubManager × Mem

-- The filters that are kept of those that were sent.
abbrev pub kept : List Filter → List Filter
kept fs = take max_filters fs

pub data Added (grants : ℕ → Bool) (mgr : SubManager) (fd : ℕ) (id : Text) (fs : List Filter)
    (m : Mem) (out : Out) : Type 0 where
  replaced :
      (i : ℕ) (s : Subscription)
      → find_entry (is_sub fd id) mgr.subs ≡ some (i, s)
      → out.0 ≡ relay_ok
      → out.1 ≡ with_slot mgr i (refiltered s (kept fs))
      → out.2.live + slot_blocks s ≡ m.live + all_blocks (kept fs)
      → Added grants mgr fd id fs m out
  emptied :
      (i : ℕ) (s : Subscription) (n : ℕ)
      → find_entry (is_sub fd id) mgr.subs ≡ some (i, s)
      → grants n ≡ false
      → out.0 ≡ out_of_memory
      → out.1 ≡ with_slot mgr i (refiltered s [])
      → out.2.live + slot_blocks s ≡ m.live
      → Added grants mgr fd id fs m out
  refused :
      find_entry (is_sub fd id) mgr.subs ≡ none
      → max_per_conn ≤ count_where (on_conn fd) mgr.subs
      → out ≡ (too_many_filters, mgr, m)
      → Added grants mgr fd id fs m out
  no_slot :
      find_entry (is_sub fd id) mgr.subs ≡ none
      → count_where (on_conn fd) mgr.subs < max_per_conn
      → find_entry is_free mgr.subs ≡ none
      → out ≡ (out_of_memory, mgr, m)
      → Added grants mgr fd id fs m out
  inserted :
      (i : ℕ) (old : Subscription)
      → find_entry (is_sub fd id) mgr.subs ≡ none
      → count_where (on_conn fd) mgr.subs < max_per_conn
      → find_entry is_free mgr.subs ≡ some (i, old)
      → out.0 ≡ relay_ok
      → out.1 ≡ record mgr {
        subs = set mgr.subs i (new_sub fd id (kept fs));
        active_count = incr16 mgr.active_count;
      }
      → out.2.live ≡ m.live + all_blocks (kept fs)
      → Added grants mgr fd id fs m out
  unallocated :
      (i : ℕ) (old : Subscription) (n : ℕ)
      → find_entry (is_sub fd id) mgr.subs ≡ none
      → count_where (on_conn fd) mgr.subs < max_per_conn
      → find_entry is_free mgr.subs ≡ some (i, old)
      → grants n ≡ false
      → out.0 ≡ out_of_memory
      → out.1 ≡ with_slot mgr i zero_sub
      → out.2.live ≡ m.live
      → Added grants mgr fd id fs m out

module _ (grants : ℕ → Bool) (filter_free : Filter → Mem → Mem)
    (frees : (f : Filter) (m : Mem) → (filter_free f m).live ≡ m.live - blocks f) (base : ℕ)
    (mgr : SubManager) (m : Mem) (v : Owns base mgr m) where
  replace-Added :
      (fd : ℕ) (id : Text) (fs : List Filter) (i : ℕ) (s : Subscription)
      → find_entry (is_sub fd id) mgr.subs ≡ some (i, s)
      → Added grants mgr fd id fs m (replace grants filter_free mgr i s (kept fs) m)
  unfolding replace
  replace-Added fd id fs i s e =
      let freed = free_filters grants filter_free s.filters m in
      let less = free_filters-live grants filter_free frees s.filters m in
      let within =
        le-sum_of slot_blocks mgr.subs i s (find_entry-some (is_sub fd id) mgr.subs i s e).0 in
      elim (copy_filters-Outcome grants filter_free frees (kept fs) [] freed (omega arith)) [
        | copied c l ↦
            replaced i s e (simp (c, replace)) (simp (c, replace))
              (simp (c, replace) (omega (arith, l, less, within, v.ledger)))
        | failed n r c l ↦
            emptied i s n e r (simp (c, replace)) (simp (c, replace))
              (simp (c, replace) (omega (arith, l, less, within, v.ledger)))
      ]

  insert-Added :
      (fd : ℕ) (id : Text) (fs : List Filter) (i : ℕ) (old : Subscription)
      → find_entry (is_sub fd id) mgr.subs ≡ none
      → count_where (on_conn fd) mgr.subs < max_per_conn
      → find_entry is_free mgr.subs ≡ some (i, old)
      → Added grants mgr fd id fs m (insert grants filter_free mgr i fd id (kept fs) m)
  unfolding insert
  insert-Added fd id fs i old e room f =
      elim (copy_filters-Outcome grants filter_free frees (kept fs) [] m (omega arith)) [
        | copied c l ↦
            inserted i old e room f (simp (c, insert)) (simp (c, insert)) (simp (c, insert) l)
        | failed n r c l ↦
            unallocated i old n e room f r (simp (c, insert)) (simp (c, insert))
              (simp (c, insert) (omega (arith, l)))
      ]

  -- `sub_manager_add` takes one of these ways.
  pub add-Added :
      (fd : ℕ) (id : Text) (fs : List Filter)
      → Added grants mgr fd id fs m (add grants filter_free mgr fd id fs m)
  unfolding add
  add-Added fd id fs =
      let small = count_where-le_length (on_conn fd) mgr.subs in
      let size = v.valid.size in
      elim (Option-cases (find_entry (is_sub fd id) mgr.subs)) [
        | inr ((i, s), e) ↦ rw (e, add) (replace-Added fd id fs i s e)
        | inl e ↦ elim (Bool-cases (leb max_per_conn (count_where (on_conn fd) mgr.subs % 2 ^ 8))) [
          | inl full ↦ refused e (ground arith) (rw (e, add) (rw full))
          | inr room ↦
              let below : count_where (on_conn fd) mgr.subs < max_per_conn = ground arith in
              elim (Option-cases (find_entry is_free mgr.subs)) [
                | inl f ↦ no_slot e below f (rw (e, add) (rw room (rw (f, add))))
                | inr ((i, old), f) ↦
                    rw (e, add) (rw room (rw (f, add) (insert-Added fd id fs i old e below f)))
              ]
        ]
      ]
