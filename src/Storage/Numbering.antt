-- ===== src/Storage/Numbering.antt =====
-- main/storage_engine.c: the numbers of the files of the entries of the index.
use wisp_esp.Base.{
  ℕ, suc, ◌≤◌, ◌<◌, ◌≡◌, ◌≢◌, ap, inl, inr, Bool, some, List, [], ◌∷◌, ◌++◌, arith, All, Bool-cases,
  first_where, All-first_where,
}
use wisp_esp.Storage.Types.{IndexEntry, FilePath, path_of}

-- The file numbers of the entries ascend from `lo` on and stay below `hi`.
abbrev pub Ascending : ℕ → ℕ → List IndexEntry → Type 0
Ascending lo hi [] = lo ≤ hi
Ascending lo hi (e ∷ es) = (lo ≤ e.file_index) × Ascending (suc e.file_index) hi es

pub Ascending-append :
    (lo hi : ℕ) (es : List IndexEntry) (e : IndexEntry)
    → Ascending lo hi es
    → e.file_index ≡ hi
    → Ascending lo (suc hi) (es ++ e ∷ [])
Ascending-append lo hi [] e h n = omega arith
Ascending-append lo hi (x ∷ es) e h n = (h.0, Ascending-append (suc x.file_index) hi es e h.1 n)

pub Ascending-below :
    (lo hi : ℕ) (es : List IndexEntry) → Ascending lo hi es → All (λ e. e.file_index < hi) es
Ascending-below lo hi [] h = tt
Ascending-below lo hi (e ∷ es) h =
    (le_of_Ascending (suc e.file_index) hi es h.1, Ascending-below (suc e.file_index) hi es h.1)
  where
    le_of_Ascending : (lo hi : ℕ) (es : List IndexEntry) → Ascending lo hi es → lo ≤ hi
    le_of_Ascending lo hi [] h = h
    le_of_Ascending lo hi (e ∷ es) h =
        let r = le_of_Ascending (suc e.file_index) hi es h.1 in omega arith

pub Ascending-from :
    (lo hi : ℕ) (es : List IndexEntry) → Ascending lo hi es → All (λ e. lo ≤ e.file_index) es
Ascending-from lo hi [] h = tt
Ascending-from lo hi (e ∷ es) h = (h.0, weaken es (Ascending-from (suc e.file_index) hi es h.1))
  where
    weaken :
        (xs : List IndexEntry)
        → All (λ x. suc e.file_index ≤ x.file_index) xs
        → All (λ x. lo ≤ x.file_index) xs
    weaken [] k = tt
    weaken (x ∷ xs) k = (let r = k.0 in omega (arith, h.0), weaken xs k.1)

-- Two entries found in the index with one number are one entry.
pub Ascending-unique :
    (lo hi : ℕ) (es : List IndexEntry) (p q : IndexEntry → Bool) (x y : IndexEntry)
    → Ascending lo hi es
    → first_where p es ≡ some x
    → first_where q es ≡ some y
    → x.file_index ≡ y.file_index
    → x ≡ y
unfolding first_where
Ascending-unique lo hi [] p q x y h e f n = cc
Ascending-unique lo hi (z ∷ es) p q x y h e f n =
    let later = Ascending-from (suc z.file_index) hi es h.1 in
    elim (Bool-cases (p z)) [
      | inl pz ↦ elim (Bool-cases (q z)) [
        | inl qz ↦ ground arith
        | inr qz ↦
            let fy : first_where q es ≡ some y = ground arith in
            let zx : z ≡ x = ground arith in
            let above = All-first_where (λ k. suc z.file_index ≤ k.file_index) q es y later fy in
            absurd (omega (arith, ap (λ (k : IndexEntry). k.file_index) zx))
      ]
      | inr pz ↦
          let ex : first_where p es ≡ some x = ground arith in
          elim (Bool-cases (q z)) [
            | inl qz ↦
                let zy : z ≡ y = ground arith in
                let above =
                  All-first_where (λ k. suc z.file_index ≤ k.file_index) p es x later ex in
                absurd (omega (arith, ap (λ (k : IndexEntry). k.file_index) zy))
            | inr qz ↦
                let fy : first_where q es ≡ some y = ground arith in
                Ascending-unique (suc z.file_index) hi es p q x y h.1 ex fy n
          ]
    ]

pub path_of-ne : (x y : IndexEntry) → x.file_index ≢ y.file_index → path_of x ≢ path_of y
path_of-ne x y ne e = ne (ap (λ (p : FilePath). p.number) e)
