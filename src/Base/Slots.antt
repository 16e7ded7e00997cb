-- ===== src/Base/Slots.antt =====
-- A fixed array of slots, searched from the front: the shape that the rate limiter, the
-- subscription manager and the connection table share. A pointer into the array is its index.
use Prim.Native.Nat.{ℕ, zero, suc, ◌+◌, ◌≤◌, ◌<◌}
use mathlib.Core.Path.{◌≡◌, refl, subst}
use mathlib.Core.Logic.{inl, inr}
use mathlib.Core.Bool.{Bool, true, false}
use mathlib.Core.List.{List, [], ◌∷◌, ◌++◌}
use mathlib.Core.Option
use mathlib.Core.Option.{Option, none, some}
use native.Mathlib.Omega.{arith}
use wisp_esp.Base.Tests.{if◌then◌else◌, Bool-cases, Option-cases}
use wisp_esp.Base.Lists.{length, get_elem?, set, replicate, All}

abbrev pub bit : Bool → ℕ
bit true = 1
bit false = 0

module _ {ℓ} {A : Type ℓ} where
  abbrev pub next_index : ℕ × A → ℕ × A
  next_index (i, x) = (suc i, x)

  -- `for (i = 0; i < N; i++) if (p(&a[i])) return &a[i]; return NULL;`
  -- The pointer is the index, given with what it points at.
  unfoldable pub find_entry : (A → Bool) → List A → Option (ℕ × A)
  find_entry p [] = none
  find_entry p (x ∷ xs) = if p x then some (0, x) else Option.map next_index (find_entry p xs)

  -- `for (i = 0; i < N; i++) if (p(&a[i])) count++;`
  unfoldable pub count_where : (A → Bool) → List A → ℕ
  count_where p [] = 0
  count_where p (x ∷ xs) = bit (p x) + count_where p xs

  -- The sum of a measure over the slots.
  abbrev pub sum_of : (A → ℕ) → List A → ℕ
  sum_of f [] = 0
  sum_of f (x ∷ xs) = f x + sum_of f xs

  -- The contents of the first slot that passes the test.
  unfoldable pub first_where : (A → Bool) → List A → Option A
  first_where p [] = none
  first_where p (x ∷ xs) = if p x then some x else first_where p xs

module _ {ℓ} {A : Type ℓ} where
  -- What a found pointer points at: a slot that passes, and the first such.
  pub find_entry-some :
      (p : A → Bool) (xs : List A) (i : ℕ) (x : A)
      → find_entry p xs ≡ some (i, x)
      → (get_elem? xs i ≡ some x) × (p x ≡ true) × (first_where p xs ≡ some x)
  unfolding find_entry first_where
  find_entry-some p [] i x h = cc
  find_entry-some p (y ∷ ys) zero x h = ground (arith, Option-cases (find_entry p ys))
  find_entry-some p (y ∷ ys) (suc i) x h =
      ground (arith, Option-cases (find_entry p ys), find_entry-some p ys i x)

  pub find_entry-none :
      (p : A → Bool) (xs : List A) → find_entry p xs ≡ none → first_where p xs ≡ none
  unfolding find_entry first_where
  find_entry-none p [] h = refl
  find_entry-none p (x ∷ xs) h =
      ground (arith, Option-cases (find_entry p xs), find_entry-none p xs)

  pub first_where-none :
      (p : A → Bool) (xs : List A) → first_where p xs ≡ none → count_where p xs ≡ 0
  unfolding count_where first_where
  first_where-none p [] h = refl
  first_where-none p (x ∷ xs) h = ground (arith, first_where-none p xs)

  pub count_where-zero :
      (p : A → Bool) (xs : List A) → count_where p xs ≡ 0 → first_where p xs ≡ none
  unfolding count_where first_where
  count_where-zero p [] h = refl
  count_where-zero p (x ∷ xs) h = ground (arith, count_where-zero p xs)

  -- A slot that passes is counted.
  pub count_where-pos :
      (p : A → Bool) (xs : List A) (i : ℕ) (x : A)
      → get_elem? xs i ≡ some x
      → p x ≡ true
      → 0 < count_where p xs
  unfolding count_where
  count_where-pos p [] i x h e = cc
  count_where-pos p (y ∷ ys) zero x h e = ground arith
  count_where-pos p (y ∷ ys) (suc i) x h e = ground (arith, count_where-pos p ys i x h e)

  -- Overwriting one slot moves the count by that slot's test.
  pub count_where-set :
      (p : A → Bool) (xs : List A) (i : ℕ) (x y : A)
      → get_elem? xs i ≡ some x
      → count_where p (set xs i y) + bit (p x) ≡ count_where p xs + bit (p y)
  unfolding count_where
  count_where-set p [] i x y h = cc
  count_where-set p (z ∷ zs) zero x y h = let same : z ≡ x = cc in rw same (omega arith)
  count_where-set p (z ∷ zs) (suc i) x y h = omega (arith, count_where-set p zs i x y h)

  pub sum_of-set :
      (f : A → ℕ) (xs : List A) (i : ℕ) (x y : A)
      → get_elem? xs i ≡ some x
      → sum_of f (set xs i y) + f x ≡ sum_of f xs + f y
  sum_of-set f [] i x y h = cc
  sum_of-set f (z ∷ zs) zero x y h = let same : z ≡ x = cc in rw same (omega arith)
  sum_of-set f (z ∷ zs) (suc i) x y h = omega (arith, sum_of-set f zs i x y h)

  pub le-sum_of :
      (f : A → ℕ) (xs : List A) (i : ℕ) (x : A) → get_elem? xs i ≡ some x → f x ≤ sum_of f xs
  le-sum_of f [] i x h = cc
  le-sum_of f (z ∷ zs) zero x h = let same : z ≡ x = cc in rw same (omega arith)
  le-sum_of f (z ∷ zs) (suc i) x h = omega (arith, le-sum_of f zs i x h)

  pub sum_of-replicate : (f : A → ℕ) (n : ℕ) (x : A) → f x ≡ 0 → sum_of f (replicate n x) ≡ 0
  sum_of-replicate f zero x h = refl
  sum_of-replicate f (suc n) x h = omega (arith, h, sum_of-replicate f n x h)

  pub first_where-set_found :
      (p : A → Bool) (xs : List A) (i : ℕ) (x y : A)
      → find_entry p xs ≡ some (i, x)
      → p y ≡ true
      → first_where p (set xs i y) ≡ some y
  unfolding find_entry first_where
  first_where-set_found p [] i x y h e = cc
  first_where-set_found p (z ∷ zs) zero x y h e = rw e
  first_where-set_found p (z ∷ zs) (suc i) x y h e =
      ground (arith, Option-cases (find_entry p zs), first_where-set_found p zs i x y)

  pub first_where-set_other :
      (q : A → Bool) (xs : List A) (i : ℕ) (x y : A)
      → get_elem? xs i ≡ some x
      → q x ≡ false
      → q y ≡ false
      → first_where q (set xs i y) ≡ first_where q xs
  unfolding first_where
  first_where-set_other q [] i x y h a b = refl
  first_where-set_other q (z ∷ zs) zero x y h a b = ground arith
  first_where-set_other q (z ∷ zs) (suc i) x y h a b = rw (first_where-set_other q zs i x y h a b)

  pub first_where-set_new :
      (p : A → Bool) (xs : List A) (i : ℕ) (x y : A)
      → get_elem? xs i ≡ some x
      → first_where p xs ≡ none
      → p y ≡ true
      → first_where p (set xs i y) ≡ some y
  unfolding first_where
  first_where-set_new p [] i x y h a b = cc
  first_where-set_new p (z ∷ zs) zero x y h a b = rw b
  first_where-set_new p (z ∷ zs) (suc i) x y h a b =
      ground (arith, first_where-set_new p zs i x y h)

  pub count_where-le_length : (p : A → Bool) (xs : List A) → count_where p xs ≤ length xs
  unfolding count_where
  count_where-le_length p [] = omega arith
  count_where-le_length p (x ∷ xs) = ground (arith, count_where-le_length p xs)

  pub count_where-replicate :
      (p : A → Bool) (n : ℕ) (x : A) → p x ≡ false → count_where p (replicate n x) ≡ 0
  unfolding count_where
  count_where-replicate p zero x h = refl
  count_where-replicate p (suc n) x h = ground (arith, count_where-replicate p n x h)

  -- A narrower test counts no more slots.
  pub count_where_mono :
      (p q : A → Bool) (xs : List A)
      → ((x : A) → p x ≡ true → q x ≡ true)
      → count_where p xs ≤ count_where q xs
  unfolding count_where
  count_where_mono p q [] h = omega arith
  count_where_mono p q (x ∷ xs) h = ground (arith, h x, count_where_mono p q xs h)

  pub count_where-append :
      (p : A → Bool) (xs ys : List A)
      → count_where p (xs ++ ys) ≡ count_where p xs + count_where p ys
  unfolding count_where
  count_where-append p [] ys = omega arith
  count_where-append p (x ∷ xs) ys = omega (arith, count_where-append p xs ys)

  pub first_where-append_none :
      (p : A → Bool) (xs ys : List A)
      → first_where p xs ≡ none
      → first_where p (xs ++ ys) ≡ first_where p ys
  unfolding first_where
  first_where-append_none p [] ys h = refl
  first_where-append_none p (x ∷ xs) ys h = ground (arith, first_where-append_none p xs ys)

  pub first_where-append_miss :
      (p : A → Bool) (xs : List A) (y : A)
      → p y ≡ false
      → first_where p (xs ++ y ∷ []) ≡ first_where p xs
  unfolding first_where
  first_where-append_miss p [] y h = rw h
  first_where-append_miss p (x ∷ xs) y h = ground (arith, first_where-append_miss p xs y h)

  -- What is found passes the test, and has what all slots have.
  pub first_where-some :
      (p : A → Bool) (xs : List A) (x : A) → first_where p xs ≡ some x → p x ≡ true
  unfolding first_where
  first_where-some p [] x h = cc
  first_where-some p (y ∷ ys) x h = ground (arith, first_where-some p ys x)

  pub All-first_where {κ} :
      (P : A → Type κ) (p : A → Bool) (xs : List A) (x : A)
      → All P xs
      → first_where p xs ≡ some x
      → P x
  unfolding first_where
  All-first_where P p [] x h e = cc
  All-first_where P p (y ∷ ys) x h e = elim (Bool-cases (p y)) [
    | inl hit ↦ let same : y ≡ x = ground arith in subst P same h.0
    | inr miss ↦ All-first_where P p ys x h.1 (ground arith)
  ]
