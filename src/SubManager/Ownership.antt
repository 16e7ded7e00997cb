-- ===== src/SubManager/Ownership.antt =====
-- `sub_manager_add` and `sub_manager_remove` of main/sub_manager.c: the table and the blocks that
-- its filters hold.
use wisp_esp.Base.{
  ℕ, ◌+◌, ◌-◌, ◌≤◌, ◌≡◌, ap, inl, inr, Bool, true, false, some, List, [], arith, length,
  length-take, All-get, bit, Option-cases, find_entry, find_entry-some, find_entry-none,
  first_where-none, count_where-pos, count_where-le_length, sum_of-set, set, get_elem?, le-sum_of,
}
use wisp_esp.Protocol.{Text, Filter}
use wisp_esp.SubManager.{
  Subscription, SubManager, max_filters, max_id_len, zero_sub, on_conn, is_sub, is_free, decr16,
  new_sub, refiltered, add, remove,
}
use wisp_esp.SubManager.Memory.{Mem, blocks, all_blocks, free_filters}
use wisp_esp.SubManager.Copy.{free_filters-live}
use wisp_esp.SubManager.Invariant.{
  IsSlot, IsValid, Owns, slot_blocks, is_active, refiltered-IsValid, cleared-IsValid,
  inserted-IsValid,
}
use wisp_esp.SubManager.Paths.{
  Added, replaced, emptied, refused, no_slot, inserted, unallocated, add-Added, kept, Out,
}

length-kept : (fs : List Filter) → length (kept fs) ≤ max_filters
length-kept fs = omega (arith, length-take max_filters fs)

is_sub-active : (fd : ℕ) (id : Text) (s : Subscription) → is_sub fd id s ≡ true → s.active ≡ true
is_sub-active fd id s e = ground arith

is_sub-on_conn :
    (fd : ℕ) (id : Text) (s : Subscription) → is_sub fd id s ≡ true → on_conn fd s ≡ true
is_sub-on_conn fd id s e = ground arith

idle_blocks : (s : Subscription) → IsSlot s → s.active ≡ false → slot_blocks s ≡ 0
idle_blocks s v e = ap all_blocks (v.idle e)

off_of_free : (s : Subscription) → is_free s ≡ true → s.active ≡ false
off_of_free s e = ground arith

module _ (base : ℕ) (mgr : SubManager) (m : Mem) (v : Owns base mgr m) where
  -- A slot is overwritten, and the memory follows.
  swap-Owns :
      (i n : ℕ) (x y : Subscription) (m' : Mem)
      → get_elem? mgr.subs i ≡ some x
      → IsValid (record mgr { subs = set mgr.subs i y; active_count = n })
      → m'.live + slot_blocks x ≡ m.live + slot_blocks y
      → Owns base (record mgr { subs = set mgr.subs i y; active_count = n }) m'
  swap-Owns i n x y m' got valid moves = record {
    valid = valid;
    ledger = omega (arith, sum_of-set slot_blocks mgr.subs i x y got, moves, v.ledger);
  }

  Added-Owns :
      {grants : ℕ → Bool} (fd : ℕ) (id : Text) (fs : List Filter) (out : Out)
      → length id ≤ max_id_len
      → Added grants mgr fd id fs m out
      → Owns base out.1 out.2
  Added-Owns fd id fs out fits (replaced i s e r t l) =
      let (got, hit, first) = find_entry-some (is_sub fd id) mgr.subs i s e in
      rw t (
        swap-Owns i mgr.active_count s (refiltered s (kept fs)) out.2 got
          (refiltered-IsValid mgr i s (kept fs) v.valid got (is_sub-active fd id s hit)
            (length-kept fs))
          l)
  Added-Owns fd id fs out fits (emptied i s n e r c t l) =
      let (got, hit, first) = find_entry-some (is_sub fd id) mgr.subs i s e in
      rw t (
        swap-Owns i mgr.active_count s (refiltered s []) out.2 got
          (refiltered-IsValid mgr i s [] v.valid got (is_sub-active fd id s hit) (omega arith))
          (omega (arith, l)))
  Added-Owns fd id fs out fits (refused e h o) = rw o v
  Added-Owns fd id fs out fits (no_slot e h f o) = rw o v
  Added-Owns fd id fs out fits (inserted i old e room f c t l) =
      let (got, free, first) = find_entry-some is_free mgr.subs i old f in
      let off = off_of_free old free in
      rw t (
        swap-Owns i _ old (new_sub fd id (kept fs)) out.2 got
          (inserted-IsValid mgr i fd id (kept fs) old v.valid got off fits (length-kept fs) room
            (first_where-none (is_sub fd id) mgr.subs (find_entry-none (is_sub fd id) mgr.subs e)))
          (omega (arith, l, idle_blocks old (All-get IsSlot mgr.subs i old v.valid.slots got) off)))
  Added-Owns fd id fs out fits (unallocated i old n e room f r c t l) =
      let (got, free, first) = find_entry-some is_free mgr.subs i old f in
      let off = off_of_free old free in
      rw t (
        swap-Owns i mgr.active_count old zero_sub out.2 got
          (cleared-IsValid mgr i mgr.active_count old v.valid got (omega (arith, ap bit off)))
          (omega (arith, l, idle_blocks old (All-get IsSlot mgr.subs i old v.valid.slots got) off)))

  module _ (grants : ℕ → Bool) (filter_free : Filter → Mem → Mem)
      (frees : (f : Filter) (m : Mem) → (filter_free f m).live ≡ m.live - blocks f) where
    pub add-Owns :
        (fd : ℕ) (id : Text) (fs : List Filter)
        → length id ≤ max_id_len
        → let out = add grants filter_free mgr fd id fs m in Owns base out.1 out.2
    add-Owns fd id fs fits =
        Added-Owns fd id fs (add grants filter_free mgr fd id fs m) fits
          (add-Added grants filter_free frees base mgr m v fd id fs)

    -- `sub_manager_remove` keeps a valid table valid, and the live blocks are afterwards exactly
    -- those of the filters that are left in the table and the `base` of before.
    pub remove-Owns :
        (fd : ℕ) (id : Text)
        → let out = remove grants filter_free mgr fd id m in Owns base out.1 out.2
    unfolding remove
    remove-Owns fd id = elim (Option-cases (find_entry (is_sub fd id) mgr.subs)) [
      | inl e ↦ rw (e, remove) v
      | inr ((i, s), e) ↦
          let (got, hit, first) = find_entry-some (is_sub fd id) mgr.subs i s e in
          let on = is_sub-active fd id s hit in
          let some_active = count_where-pos is_active mgr.subs i s got on in
          let few = count_where-le_length is_active mgr.subs in
          let size = v.valid.size in
          let counted = v.valid.counted in
          let less = free_filters-live grants filter_free frees s.filters m in
          let within = le-sum_of slot_blocks mgr.subs i s got in
          rw (e, remove)
            (swap-Owns i (decr16 mgr.active_count) s zero_sub
              (free_filters grants filter_free s.filters m) got
              (cleared-IsValid mgr i (decr16 mgr.active_count) s v.valid got
                (omega (arith, ap bit on)))
              (omega (arith, less, within, v.ledger)))
    ]
