-- ===== src/SubManager/Connections.antt =====
-- main/sub_manager.c: how many subscriptions each connection has, under every operation.
use wisp_esp.Base.{
  ℕ, ◌-◌, ◌≤◌, ◌≡◌, ◌≢◌, refl, ap, inl, inr, Bool, false, true, List, [], arith, bit, Option-cases,
  find_entry, find_entry-some, count_where, count_where-set,
}
use wisp_esp.Protocol.{Text, Filter}
use wisp_esp.SubManager.{
  Subscription, SubManager, zero_sub, on_conn, is_sub, is_free, new_sub, refiltered, add, remove,
}
use wisp_esp.SubManager.Memory.{Mem, blocks}
use wisp_esp.SubManager.Invariant.{Owns}
use wisp_esp.SubManager.Paths.{
  Added, replaced, emptied, refused, no_slot, inserted, unallocated, add-Added, kept, Out,
}

abbrev pub subs_of : ℕ → SubManager → ℕ
subs_of fd mgr = count_where (on_conn fd) mgr.subs

off_conn :
    (fd fd' : ℕ) (id : Text) (s : Subscription)
    → fd' ≢ fd
    → is_sub fd id s ≡ true
    → on_conn fd' s ≡ false
off_conn fd fd' id s ne e = ground arith

off_free : (fd : ℕ) (s : Subscription) → is_free s ≡ true → on_conn fd s ≡ false
off_free fd s e = ground arith

off_new :
    (fd fd' : ℕ) (id : Text) (fs : List Filter) → fd' ≢ fd → on_conn fd' (new_sub fd id fs) ≡ false
off_new fd fd' id fs ne = ground arith

module _ {grants : ℕ → Bool} (mgr : SubManager) (fd : ℕ) (id : Text) (fs : List Filter)
    (m : Mem) where
  Added-subs_of :
      (out : Out) (fd' : ℕ)
      → fd' ≢ fd
      → Added grants mgr fd id fs m out
      → subs_of fd' out.1 ≡ subs_of fd' mgr
  Added-subs_of out fd' ne (replaced i s e r t l) =
      let (got, hit, first) = find_entry-some (is_sub fd id) mgr.subs i s e in
      let off = off_conn fd fd' id s ne hit in
      rw t (
        omega (
          arith,
          count_where-set (on_conn fd') mgr.subs i s (refiltered s (kept fs)) got,
          ap bit off,
        ))
  Added-subs_of out fd' ne (emptied i s n e c r t l) =
      let (got, hit, first) = find_entry-some (is_sub fd id) mgr.subs i s e in
      let off = off_conn fd fd' id s ne hit in
      rw t (
        omega (arith, count_where-set (on_conn fd') mgr.subs i s (refiltered s []) got, ap bit off))
  Added-subs_of out fd' ne (refused e h o) = rw o refl
  Added-subs_of out fd' ne (no_slot e h f o) = rw o refl
  Added-subs_of out fd' ne (inserted i old e h f r t l) =
      let (got, free, first) = find_entry-some is_free mgr.subs i old f in
      let new = new_sub fd id (kept fs) in
      rw t (
        omega (
          arith,
          count_where-set (on_conn fd') mgr.subs i old new got,
          ap bit (off_free fd' old free),
          ap bit (off_new fd fd' id (kept fs) ne),
        ))
  Added-subs_of out fd' ne (unallocated i old n e h f c r t l) =
      let (got, free, first) = find_entry-some is_free mgr.subs i old f in
      rw t (
        omega (
          arith,
          count_where-set (on_conn fd') mgr.subs i old zero_sub got,
          ap bit (off_free fd' old free),
        ))

module _ (grants : ℕ → Bool) (filter_free : Filter → Mem → Mem)
    (frees : (f : Filter) (m : Mem) → (filter_free f m).live ≡ m.live - blocks f) (base : ℕ)
    (mgr : SubManager) (m : Mem) (v : Owns base mgr m) where
  pub subs_of-add :
      (fd : ℕ) (id : Text) (fs : List Filter) (fd' : ℕ)
      → fd' ≢ fd
      → subs_of fd' (add grants filter_free mgr fd id fs m).1 ≡ subs_of fd' mgr
  subs_of-add fd id fs fd' ne =
      Added-subs_of mgr fd id fs m (add grants filter_free mgr fd id fs m) fd' ne
        (add-Added grants filter_free frees base mgr m v fd id fs)

  pub subs_of-remove :
      (fd : ℕ) (id : Text) (fd' : ℕ)
      → subs_of fd' (remove grants filter_free mgr fd id m).1 ≤ subs_of fd' mgr
  unfolding remove
  subs_of-remove fd id fd' = elim (Option-cases (find_entry (is_sub fd id) mgr.subs)) [
    | inl e ↦ rw (e, remove) (omega arith)
    | inr ((i, s), e) ↦
        let (got, hit, first) = find_entry-some (is_sub fd id) mgr.subs i s e in
        rw (e, remove) (omega (arith, count_where-set (on_conn fd') mgr.subs i s zero_sub got))
  ]
