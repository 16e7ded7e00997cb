-- ===== src/SubManager/RemoveAll.antt =====
-- `sub_manager_remove_all`, which the relay calls when a connection closes.
use wisp_esp.Base.{
  ℕ, ◌+◌, ◌-◌, ◌^◌, ◌≤◌, ◌<◌, ◌≡◌, ◌≢◌, refl, ap, ◌∙◌, inl, inr, Bool, true, false, List, [], ◌∷◌,
  arith, length, All, bit, Bool-cases, count_where, first_where, sum_of, count_where-le_length,
  count_where_mono,
}
use wisp_esp.Protocol.{Text, Filter}
use wisp_esp.SubManager.{Subscription, SubManager, on_conn, is_sub, decr16, remove_loop, remove_all}
use wisp_esp.SubManager.Memory.{Mem, blocks, free_filters}
use wisp_esp.SubManager.Copy.{free_filters-live}
use wisp_esp.SubManager.Invariant.{IsSlot, Owns, slot_blocks, is_active, zero-IsSlot}

-- What the loop has done to the slots `ss` of which it has made `ss'`.
record Swept (fd before : ℕ) (ss : List Subscription) (m : Mem) (out : List Subscription × ℕ × Mem)
    : Type 0 where
  size : length out.0 ≡ length ss
  gone : count_where (on_conn fd) out.0 ≡ 0
  fewer : (fd' : ℕ) → count_where (on_conn fd') out.0 ≤ count_where (on_conn fd') ss
  single :
      (fd' : ℕ) (id : Text) → count_where (is_sub fd' id) out.0 ≤ count_where (is_sub fd' id) ss
  others :
      (fd' : ℕ) (id : Text)
      → fd' ≢ fd
      → first_where (is_sub fd' id) out.0 ≡ first_where (is_sub fd' id) ss
  slots : All IsSlot ss → All IsSlot out.0
  counted : count_where is_active out.0 + count_where (on_conn fd) ss ≡ count_where is_active ss
  active : out.1 + count_where (on_conn fd) ss ≡ before
  ledger : out.2.live + sum_of slot_blocks ss ≡ m.live + sum_of slot_blocks out.0

other_conn :
    (fd fd' : ℕ) (id : Text) (s : Subscription)
    → fd' ≢ fd
    → on_conn fd s ≡ true
    → is_sub fd' id s ≡ false
other_conn fd fd' id s ne e = ground arith

on_conn-active : (fd : ℕ) (s : Subscription) → on_conn fd s ≡ true → s.active ≡ true
on_conn-active fd s e = ground arith

module _ (grants : ℕ → Bool) (filter_free : Filter → Mem → Mem)
    (frees : (f : Filter) (m : Mem) → (filter_free f m).live ≡ m.live - blocks f) (fd : ℕ) where
  remove_loop-Swept :
      (ss : List Subscription) (active : ℕ) (m : Mem)
      → count_where (on_conn fd) ss ≤ active
      → active < 2 ^ 16
      → sum_of slot_blocks ss ≤ m.live
      → Swept fd active ss m (remove_loop grants filter_free fd ss active m)
  unfolding remove_loop count_where first_where
  remove_loop-Swept [] active m h lt own = record {
    size = refl;
    gone = refl;
    fewer = λ fd'. omega arith;
    single = λ fd' id. omega arith;
    others = λ fd' id ne. refl;
    slots = λ v. tt;
    counted = omega arith;
    active = omega arith;
    ledger = omega arith;
  }
  remove_loop-Swept (s ∷ ss) active m h lt own = elim (Bool-cases (on_conn fd s)) [
    | inl e ↦
        let m' = free_filters grants filter_free s.filters m in
        let freed = free_filters-live grants filter_free frees s.filters m in
        let on = on_conn-active fd s e in
        let r =
          remove_loop-Swept ss (decr16 active) m' (omega (arith, ap bit e)) (omega arith)
            (omega (arith, freed)) in
        rw e (record {
          size = omega (arith, r.size);
          gone = omega (arith, r.gone);
          fewer = λ fd'. omega (arith, r.fewer fd');
          single = λ fd' id. omega (arith, r.single fd' id);
          others = λ fd' id ne. rw (other_conn fd fd' id s ne e) (r.others fd' id ne);
          slots = λ v. (zero-IsSlot, r.slots v.1);
          counted = omega (arith, r.counted, ap bit e, ap bit on);
          active = omega (arith, r.active, ap bit e);
          ledger = omega (arith, r.ledger, freed);
        })
    | inr e ↦
        let r = remove_loop-Swept ss active m (omega (arith, ap bit e)) lt (omega arith) in
        rw e (record {
          size = omega (arith, r.size);
          gone = omega (arith, r.gone, ap bit e);
          fewer = λ fd'. omega (arith, r.fewer fd');
          single = λ fd' id. omega (arith, r.single fd' id);
          others = λ fd' id ne. rw (r.others fd' id ne);
          slots = λ v. (v.0, r.slots v.1);
          counted = omega (arith, r.counted, ap bit e);
          active = omega (arith, r.active, ap bit e);
          ledger = omega (arith, r.ledger);
        })
  ]

  module _ (base : ℕ) (mgr : SubManager) (m : Mem) (v : Owns base mgr m) where
    swept :
        Swept fd mgr.active_count mgr.subs m
          (remove_loop grants filter_free fd mgr.subs mgr.active_count m)
    swept =
        let few = count_where-le_length is_active mgr.subs in
        let size = v.valid.size in
        let counted = v.valid.counted in
        remove_loop-Swept mgr.subs mgr.active_count m
          (omega (arith, count_where_mono (on_conn fd) is_active mgr.subs (on_conn-active fd)))
          (omega arith) (omega (arith, v.ledger))

    -- `sub_manager_remove_all` keeps a valid table valid, and the live blocks are afterwards exactly
    -- those of the filters that are left in the table and the `base` of before.
    pub remove_all-Owns : let out = remove_all grants filter_free mgr fd m in Owns base out.0 out.1
    unfolding remove_all
    remove_all-Owns = record {
      valid = record {
        size = swept.size ∙ v.valid.size;
        counted = omega (arith, swept.counted, swept.active, v.valid.counted);
        per_conn = λ fd'. omega (arith, swept.fewer fd', v.valid.per_conn fd');
        single = λ fd' id. omega (arith, swept.single fd' id, v.valid.single fd' id);
        slots = swept.slots v.valid.slots;
      };
      ledger = omega (arith, swept.ledger, v.ledger);
    }

    -- After `sub_manager_remove_all` on a valid table the connection has no slot.
    pub remove_all_ends :
        count_where (on_conn fd) (remove_all grants filter_free mgr fd m).0.subs ≡ 0
    unfolding remove_all
    remove_all_ends = swept.gone

    -- It gives no connection a slot.
    pub remove_all_fewer :
        (fd' : ℕ)
        → count_where (on_conn fd') (remove_all grants filter_free mgr fd m).0.subs
          ≤ count_where (on_conn fd') mgr.subs
    unfolding remove_all
    remove_all_fewer = swept.fewer

    -- `sub_manager_remove_all` on a valid table leaves the subscriptions of every other connection.
    pub remove_all_keeps_others :
        (fd' : ℕ) (id : Text)
        → fd' ≢ fd
        → first_where (is_sub fd' id) (remove_all grants filter_free mgr fd m).0.subs
          ≡ first_where (is_sub fd' id) mgr.subs
    unfolding remove_all
    remove_all_keeps_others = swept.others
