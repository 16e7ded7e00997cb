-- ===== src/SubManager/Invariant.antt =====
-- The invariant of the subscription table, with the memory that its filters hold.
use mathlib.Core.Path.{subst₂}
use wisp_esp.Base.{
  ℕ, ◌+◌, ◌≤◌, ◌<◌, ◌≡◌, refl, ap, ◌∙◌, sym, subst, ◌⊎◌, inl, inr, Bool, true, false, some, List,
  [], arith, length, All, All-set, All-get, All-replicate, length-set, length-replicate, take,
  take_all, bit, Bool-cases, bytes_eq, bytes_eq_sound, count_where, sum_of, count_where-set,
  count_where-le_length, count_where-replicate, sum_of-replicate, get_elem?, set,
}
use wisp_esp.Protocol.{Text, Filter}
use wisp_esp.SubManager.{
  Subscription, SubManager, max_total, max_per_conn, max_filters, max_id_len, zero_sub, init,
  on_conn, is_sub, incr16, new_sub, refiltered, with_slot,
}
use wisp_esp.SubManager.Memory.{Mem, all_blocks}

abbrev pub is_active : Subscription → Bool
is_active s = s.active

-- A slot: at most four filters, an identifier that fits, and nothing held while it is free.
pub record IsSlot (s : Subscription) : Type 0 where
  pub few : length s.filters ≤ max_filters
  pub fits : length s.sub_id ≤ max_id_len
  pub idle : s.active ≡ false → s.filters ≡ []

-- 64 slots, the right count of the active ones, at most eight for a connection, and at most one
-- for a connection and an identifier.
pub record IsValid (mgr : SubManager) : Type 0 where
  pub size : length mgr.subs ≡ max_total
  pub counted : mgr.active_count ≡ count_where is_active mgr.subs
  pub per_conn : (fd : ℕ) → count_where (on_conn fd) mgr.subs ≤ max_per_conn
  pub single : (fd : ℕ) (id : Text) → count_where (is_sub fd id) mgr.subs ≤ 1
  pub slots : All IsSlot mgr.subs

-- The blocks that the filters of all slots hold.
abbrev pub slot_blocks : Subscription → ℕ
slot_blocks s = all_blocks s.filters

abbrev pub held : SubManager → ℕ
held mgr = sum_of slot_blocks mgr.subs

-- Besides `base` blocks of others, the live memory is what the filters of the table hold.
pub record Owns (base : ℕ) (mgr : SubManager) (m : Mem) : Type 0 where
  pub valid : IsValid mgr
  pub ledger : m.live ≡ base + held mgr

-- `sub_manager_init` sets up a valid table that holds no memory.
pub init-Owns : (lock : Bool) (m : Mem) → Owns m.live (init lock) m
unfolding init
init-Owns lock m = record {
  valid = record {
    size = length-replicate max_total zero_sub;
    counted = sym (count_where-replicate is_active max_total zero_sub refl);
    per_conn = λ fd. omega (arith, count_where-replicate (on_conn fd) max_total zero_sub refl);
    single = λ fd id. omega (arith, count_where-replicate (is_sub fd id) max_total zero_sub refl);
    slots =
        All-replicate IsSlot max_total zero_sub
          (record { few = omega arith; fits = omega arith; idle = λ e. refl });
  };
  ledger = omega (arith, sum_of-replicate slot_blocks max_total zero_sub refl);
}

-- A slot may be overwritten if the limits leave room for what is new in it.
put-IsValid :
    (mgr : SubManager) (i n : ℕ) (x y : Subscription)
    → IsValid mgr
    → get_elem? mgr.subs i ≡ some x
    → IsSlot y
    → n + bit x.active ≡ mgr.active_count + bit y.active
    → ((fd : ℕ)
        → on_conn fd y ≡ true
        → (on_conn fd x ≡ true) ⊎ (count_where (on_conn fd) mgr.subs < max_per_conn))
    → ((fd : ℕ) (id : Text)
        → is_sub fd id y ≡ true
        → (is_sub fd id x ≡ true) ⊎ (count_where (is_sub fd id) mgr.subs ≡ 0))
    → IsValid (record mgr { subs = set mgr.subs i y; active_count = n })
put-IsValid mgr i n x y v got slot counts conn sub = record {
  size = length-set mgr.subs i y ∙ v.size;
  counted = omega (arith, counts, v.counted, count_where-set is_active mgr.subs i x y got);
  per_conn = λ fd.
      let moved = count_where-set (on_conn fd) mgr.subs i x y got in
      let most = v.per_conn fd in
      elim (Bool-cases (on_conn fd y)) [
        | inl e ↦ elim (conn fd e) [
          | inl o ↦ omega (arith, ap bit e, ap bit o)
          | inr z ↦ omega (arith, ap bit e)
        ]
        | inr e ↦ omega (arith, ap bit e)
      ];
  single = λ fd id.
      let moved = count_where-set (is_sub fd id) mgr.subs i x y got in
      let most = v.single fd id in
      elim (Bool-cases (is_sub fd id y)) [
        | inl e ↦ elim (sub fd id e) [
          | inl o ↦ omega (arith, ap bit e, ap bit o)
          | inr z ↦ omega (arith, ap bit e)
        ]
        | inr e ↦ omega (arith, ap bit e)
      ];
  slots = All-set IsSlot mgr.subs i y v.slots slot;
}

-- The slot of a subscription keeps its key under `refiltered`.
pub refiltered-IsValid :
    (mgr : SubManager) (i : ℕ) (s : Subscription) (fs : List Filter)
    → IsValid mgr
    → get_elem? mgr.subs i ≡ some s
    → s.active ≡ true
    → length fs ≤ max_filters
    → IsValid (with_slot mgr i (refiltered s fs))
refiltered-IsValid mgr i s fs v got on few =
    let slot = All-get IsSlot mgr.subs i s v.slots got in
    put-IsValid mgr i mgr.active_count s (refiltered s fs) v got
      (record { few = few; fits = slot.fits; idle = λ off. cc }) refl (λ fd e. inl e)
      λ fd id e. inl e

pub zero-IsSlot : IsSlot zero_sub
zero-IsSlot = record { few = omega arith; fits = omega arith; idle = λ e. refl }

pub cleared-IsValid :
    (mgr : SubManager) (i n : ℕ) (s : Subscription)
    → IsValid mgr
    → get_elem? mgr.subs i ≡ some s
    → n + bit s.active ≡ mgr.active_count
    → IsValid (record mgr { subs = set mgr.subs i zero_sub; active_count = n })
cleared-IsValid mgr i n s v got counts =
    put-IsValid mgr i n s zero_sub v got zero-IsSlot (omega (arith, counts)) (λ fd e. cc)
      λ fd id e. cc

new_sub-on_conn :
    (fd fd' : ℕ) (id : Text) (fs : List Filter) → on_conn fd' (new_sub fd id fs) ≡ true → fd ≡ fd'
new_sub-on_conn fd fd' id fs e = ground arith

new_sub-is_sub :
    (fd fd' : ℕ) (id id' : Text) (fs : List Filter)
    → length id ≤ max_id_len
    → is_sub fd' id' (new_sub fd id fs) ≡ true
    → (fd ≡ fd') × (id ≡ id')
new_sub-is_sub fd fd' id id' fs fits e =
    let same : bytes_eq (take max_id_len id) id' ≡ true = ground arith in
    (ground arith, sym (take_all max_id_len id fits) ∙ bytes_eq_sound (take max_id_len id) id' same)

pub inserted-IsValid :
    (mgr : SubManager) (i fd : ℕ) (id : Text) (fs : List Filter) (old : Subscription)
    → IsValid mgr
    → get_elem? mgr.subs i ≡ some old
    → old.active ≡ false
    → length id ≤ max_id_len
    → length fs ≤ max_filters
    → count_where (on_conn fd) mgr.subs < max_per_conn
    → count_where (is_sub fd id) mgr.subs ≡ 0
    → IsValid (record mgr {
      subs = set mgr.subs i (new_sub fd id fs);
      active_count = incr16 mgr.active_count;
    })
inserted-IsValid mgr i fd id fs old v got off fits few room absent =
    put-IsValid mgr i (incr16 mgr.active_count) old (new_sub fd id fs) v got
      (record { few = few; fits = rw (take_all max_id_len id fits) fits; idle = λ e. cc })
      (omega (arith, ap bit off, v.counted, count_where-le_length is_active mgr.subs, v.size))
      (λ fd' e. inr (
        subst (λ k. count_where (on_conn k) mgr.subs < max_per_conn)
          (new_sub-on_conn fd fd' id fs e) room))
      λ fd' id' e.
        let (same, same') = new_sub-is_sub fd fd' id id' fs fits e in
        inr (subst₂ (λ k j. count_where (is_sub k j) mgr.subs ≡ 0) same same' absent)
