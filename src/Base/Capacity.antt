-- ===== src/Base/Capacity.antt =====
-- Two tables of slots with keys: if every slot in use of the first has the key of one in use of the
-- second, the second bounds the first.
use Prim.Native.Nat.{ℕ, ◌+◌, ◌*◌, ◌≤◌, ◌<◌}
use mathlib.Core.Path.{◌≡◌, ap}
use mathlib.Core.Logic.{◌⊎◌, inl, inr}
use mathlib.Core.Bool.{Bool, true, false, not, ◌&&◌}
use mathlib.Core.List.{List, [], ◌∷◌}
use native.Mathlib.Nat.{mul-add, mul-one, mul-zero}
use native.Mathlib.Omega.{arith}
use wisp_esp.Base.Tests.{if◌then◌else◌, Bool-cases, ◌==◌}
use wisp_esp.Base.Lists.{length, All}
use wisp_esp.Base.Slots.{bit, count_where, sum_of}

pub count-complement :
    {A : Type 0} (act : A → Bool) (xs : List A)
    → count_where act xs + count_where (λ x. not (act x)) xs ≡ length xs
unfolding count_where
count-complement act [] = omega arith
count-complement act (x ∷ xs) = elim (Bool-cases (act x)) [
  | inl on ↦ rw on (omega (arith, count-complement act xs))
  | inr off ↦ rw off (omega (arith, count-complement act xs))
]

module _ {A B : Type 0} (act : A → Bool) (key : A → ℕ) (act' : B → Bool) (key' : B → ℕ) where
  abbrev pub with_key : ℕ → A → Bool
  with_key k x = act x && (key x == k)

  abbrev pub with_key' : ℕ → B → Bool
  with_key' k c = act' c && (key' c == k)

  -- The slots of the first table that have the key of `c`.
  abbrev pub share : List A → B → ℕ
  share xs c = if act' c then count_where (with_key (key' c)) xs else 0

  share-cons :
      (x : A) (xs : List A) (cs : List B)
      → act x ≡ true
      → sum_of (share (x ∷ xs)) cs ≡ count_where (with_key' (key x)) cs + sum_of (share xs) cs
  unfolding count_where
  share-cons x xs [] on = omega arith
  share-cons x xs (c ∷ cs) on = ground (arith, share-cons x xs cs on)

  share-cons_le :
      (x : A) (xs : List A) (cs : List B) → sum_of (share xs) cs ≤ sum_of (share (x ∷ xs)) cs
  unfolding count_where
  share-cons_le x xs [] = omega arith
  share-cons_le x xs (c ∷ cs) = ground (arith, share-cons_le x xs cs)

  -- Every slot in use is counted for some slot of the second table.
  pub count-le_shares :
      (xs : List A) (cs : List B)
      → All (λ x. (act x ≡ false) ⊎ (0 < count_where (with_key' (key x)) cs)) xs
      → count_where act xs ≤ sum_of (share xs) cs
  unfolding count_where
  count-le_shares [] cs h = omega arith
  count-le_shares (x ∷ xs) cs h =
      let rest = count-le_shares xs cs h.1 in
      elim (Bool-cases (act x)) [
        | inr off ↦ omega (arith, ap bit off, rest, share-cons_le x xs cs)
        | inl on ↦ elim h.0 [
          | inl off ↦ absurd (cc)
          | inr some_key ↦ omega (arith, ap bit on, rest, share-cons x xs cs on)
        ]
      ]

  -- With at most `n` slots for each key there are at most `n` for each slot of the second table,
  -- and fewer if a key that is there has fewer.
  pub shares_le :
      (n : ℕ) (xs : List A) (cs : List B)
      → ((k : ℕ) → count_where (with_key k) xs ≤ n)
      → sum_of (share xs) cs ≤ n * count_where act' cs
  unfolding count_where
  shares_le n xs [] h = omega arith
  shares_le n xs (c ∷ cs) h =
      let one = h (key' c) in
      let rest = shares_le n xs cs h in
      elim (Bool-cases (act' c)) [
        | inl on ↦ rw on (rw (mul-add n 1 (count_where act' cs)) (omega (arith, mul-one n)))
        | inr off ↦ rw off (rw (mul-add n 0 (count_where act' cs)) (omega (arith, mul-zero n)))
      ]

  pub shares_lt :
      (n k : ℕ) (xs : List A) (cs : List B)
      → ((k : ℕ) → count_where (with_key k) xs ≤ n)
      → count_where (with_key k) xs < n
      → 0 < count_where (with_key' k) cs
      → sum_of (share xs) cs < n * count_where act' cs
  unfolding count_where
  shares_lt n k xs [] h few here = omega arith
  shares_lt n k xs (c ∷ cs) h few here =
      let one = h (key' c) in
      let all = shares_le n xs cs h in
      elim (Bool-cases (act' c)) [
        | inr off ↦
            let later : 0 < count_where (with_key' k) cs = ground (arith, here) in
            let rest = shares_lt n k xs cs h few later in
            rw off (rw (mul-add n 0 (count_where act' cs)) (omega (arith, mul-zero n)))
        | inl on ↦ rw on (
            rw (mul-add n 1 (count_where act' cs)) (elim (Bool-cases (key' c == k)) [
              | inl same ↦
                  let less : count_where (with_key (key' c)) xs < n = ground (arith, few) in
                  omega (arith, mul-one n)
              | inr other ↦
                  let later : 0 < count_where (with_key' k) cs = ground (arith, here) in
                  let rest = shares_lt n k xs cs h few later in omega (arith, mul-one n)
            ]))
      ]

  -- Every key of the first table is one of the second, or has no slot of the first.
  All-covered :
      (xs : List A) (cs : List B)
      → ((k : ℕ) → (0 < count_where (with_key' k) cs) ⊎ (count_where (with_key k) xs ≡ 0))
      → All (λ x. (act x ≡ false) ⊎ (0 < count_where (with_key' (key x)) cs)) xs
  unfolding count_where
  All-covered [] cs h = tt
  All-covered (x ∷ xs) cs h = (
    elim (Bool-cases (act x)) [
      | inr off ↦ inl off
      | inl on ↦ elim (h (key x)) [
        | inl here ↦ inr here
        | inr zero_there ↦
            let mine : with_key (key x) x ≡ true = ground (arith, on) in
            absurd (omega (arith, ap bit mine, zero_there))
      ]
    ],
    All-covered xs cs
        λ k. elim (h k) [ inl here ↦ inl here | inr zero_there ↦ inr (omega (arith, zero_there)) ],
  )

  -- With at most `n` slots for each key of the second table, a longer table than `n` times the second
  -- has a free slot.
  pub spare-slot :
      (n : ℕ) (xs : List A) (cs : List B)
      → ((k : ℕ) → (0 < count_where (with_key' k) cs) ⊎ (count_where (with_key k) xs ≡ 0))
      → ((k : ℕ) → count_where (with_key k) xs ≤ n)
      → n * count_where act' cs < length xs
      → 0 < count_where (λ x. not (act x)) xs
  spare-slot n xs cs covered most long = omega (
    arith,
    count-le_shares xs cs (All-covered xs cs covered),
    shares_le n xs cs most,
    count-complement act xs,
  )

  -- The same for a table that is just as long, if some key has fewer.
  pub spare-slot_lt :
      (n k : ℕ) (xs : List A) (cs : List B)
      → ((k : ℕ) → (0 < count_where (with_key' k) cs) ⊎ (count_where (with_key k) xs ≡ 0))
      → ((k : ℕ) → count_where (with_key k) xs ≤ n)
      → count_where (with_key k) xs < n
      → 0 < count_where (with_key' k) cs
      → n * count_where act' cs ≤ length xs
      → 0 < count_where (λ x. not (act x)) xs
  spare-slot_lt n k xs cs covered most few here long = omega (
    arith,
    count-le_shares xs cs (All-covered xs cs covered),
    shares_lt n k xs cs most few here,
    count-complement act xs,
  )
