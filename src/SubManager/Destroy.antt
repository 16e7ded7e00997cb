-- ===== src/SubManager/Destroy.antt =====
-- `sub_manager_destroy` of main/sub_manager.c.
use wisp_esp.Base.{
  ℕ, ◌+◌, ◌-◌, ◌≤◌, ◌≡◌, refl, ap, inl, inr, Bool, List, [], ◌∷◌, arith, All, bit, Bool-cases,
  count_where, sum_of,
}
use wisp_esp.Protocol.{Filter}
use wisp_esp.SubManager.{Subscription, SubManager, destroy_loop}
use wisp_esp.SubManager.Memory.{Mem, blocks, all_blocks, free_filters}
use wisp_esp.SubManager.Copy.{free_filters-live}
use wisp_esp.SubManager.Invariant.{IsSlot, Owns, slot_blocks, is_active}

module _ (grants : ℕ → Bool) (filter_free : Filter → Mem → Mem)
    (frees : (f : Filter) (m : Mem) → (filter_free f m).live ≡ m.live - blocks f) where
  destroy_loop-live :
      (ss : List Subscription) (m : Mem)
      → All IsSlot ss
      → sum_of slot_blocks ss ≤ m.live
      → ((destroy_loop grants filter_free ss m).1.live + sum_of slot_blocks ss ≡ m.live)
        × (count_where is_active (destroy_loop grants filter_free ss m).0 ≡ 0)
  unfolding destroy_loop count_where
  destroy_loop-live [] m v own = (omega arith, refl)
  destroy_loop-live (s ∷ ss) m v own = elim (Bool-cases s.active) [
    | inl e ↦
        let freed = free_filters-live grants filter_free frees s.filters m in
        let m' = free_filters grants filter_free s.filters m in
        let (live, off) = destroy_loop-live ss m' v.1 (omega (arith, freed)) in
        rw e (omega (arith, live, freed), omega (arith, off))
    | inr e ↦
        let idle : slot_blocks s ≡ 0 = ap all_blocks (v.0.idle e) in
        let (live, off) = destroy_loop-live ss m v.1 (omega arith) in
        rw e (omega (arith, live, idle), omega (arith, off, ap bit e))
  ]

  -- `sub_manager_destroy` on a valid table gives back all the memory that the subscriptions held, so
  -- that only the `base` of before is live, and leaves no slot in use.
  pub destroy_loop_releases :
      (base : ℕ) (mgr : SubManager) (m : Mem)
      → Owns base mgr m
      → ((destroy_loop grants filter_free mgr.subs m).1.live ≡ base)
        × (count_where is_active (destroy_loop grants filter_free mgr.subs m).0 ≡ 0)
  destroy_loop_releases base mgr m v =
      let (live, off) = destroy_loop-live mgr.subs m v.valid.slots (omega (arith, v.ledger)) in
      (omega (arith, live, v.ledger), off)
