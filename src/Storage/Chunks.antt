-- ===== src/Storage/Chunks.antt =====
-- What the engine relies on in NVS, and the chunks of the index in it.
use wisp_esp.Base.{
  ℕ, zero, suc, ◌+◌, ◌-◌, ◌*◌, ◌≤◌, ◌<◌, ◌≡◌, refl, sym, ap, subst, ◌∙◌, inl, inr, true, false,
  Option, none, some, List, ◌++◌, arith, length, take, drop, ltb, ◌==◌, Bool-cases, if◌then◌else◌,
  length-take, length-drop, drop-drop, take-add,
}
use wisp_esp.Storage.Types.{IndexEntry, Nvs, Erased, erased, absent, erase_failed, available}
use wisp_esp.Storage.Persist.{chunk_size, chunk, write_chunks, erase_chunks, read_chunks}

-- What is read of a store `n` about the keys below chunk `k`, and the counters, is what is read of
-- `n'`.
pub record Keeps (nvs : Nvs) (k : ℕ) (n n' : nvs.Store) : Type 0 where
  pub blobs : (j size : ℕ) → j < k → nvs.get_blob j size n' ≡ nvs.get_blob j size n
  pub count : nvs.get_count n' ≡ nvs.get_count n
  pub next : nvs.get_next_idx n' ≡ nvs.get_next_idx n
  pub opens : nvs.open_ro n' ≡ nvs.open_ro n

-- What the engine relies on: a value that was set with success is read back, and setting, erasing
-- and committing leave the other keys alone.
pub record NvsLaws (nvs : Nvs) : Type 0 where
  pub open_self :
      (n : nvs.Store) → (nvs.open_rw n).0 ≡ true → nvs.open_ro (nvs.open_rw n).1 ≡ available
  pub count_self :
      (c : ℕ) (n : nvs.Store)
      → (nvs.set_count c n).0 ≡ true
      → nvs.get_count (nvs.set_count c n).1 ≡ some c
  pub count_opens : (c : ℕ) (n : nvs.Store) → nvs.open_ro (nvs.set_count c n).1 ≡ nvs.open_ro n
  pub next_self :
      (c : ℕ) (n : nvs.Store)
      → (nvs.set_next_idx c n).0 ≡ true
      → nvs.get_next_idx (nvs.set_next_idx c n).1 ≡ some c
  pub next_count :
      (c : ℕ) (n : nvs.Store) → nvs.get_count (nvs.set_next_idx c n).1 ≡ nvs.get_count n
  pub next_opens : (c : ℕ) (n : nvs.Store) → nvs.open_ro (nvs.set_next_idx c n).1 ≡ nvs.open_ro n
  pub blob_self :
      (k : ℕ) (es : List IndexEntry) (n : nvs.Store)
      → (nvs.set_blob k es n).0 ≡ true
      → nvs.get_blob k (length es) (nvs.set_blob k es n).1 ≡ some es
  pub blob_keeps :
      (k : ℕ) (es : List IndexEntry) (n : nvs.Store) → Keeps nvs k n (nvs.set_blob k es n).1
  pub erase_keeps : (k : ℕ) (n : nvs.Store) → Keeps nvs k n (nvs.erase_blob k n).1
  pub commit_keeps : (k : ℕ) (n : nvs.Store) → Keeps nvs k n (nvs.commit n).1

module _ (nvs : Nvs) (laws : NvsLaws nvs) where
  open nvs use {Store, get_blob}

  Keeps-refl : (k : ℕ) (n : Store) → Keeps nvs k n n
  Keeps-refl k n = record { blobs = λ j s lt. refl; count = refl; next = refl; opens = refl }

  pub Keeps-trans :
      (k l : ℕ) (n n' n'' : Store)
      → k ≤ l
      → Keeps nvs k n n'
      → Keeps nvs l n' n''
      → Keeps nvs k n n''
  Keeps-trans k l n n' n'' le a b = record {
    blobs = λ j s lt. b.blobs j s (omega arith) ∙ a.blobs j s lt;
    count = b.count ∙ a.count;
    next = b.next ∙ a.next;
    opens = b.opens ∙ a.opens;
  }

  pub erase_chunks-Keeps : (rounds k : ℕ) (n : Store) → Keeps nvs k n (erase_chunks nvs rounds k n)
  unfolding erase_chunks
  erase_chunks-Keeps zero k n = Keeps-refl k n
  erase_chunks-Keeps (suc rounds) k n = Keeps-answer (nvs.erase_blob k n).0 (laws.erase_keeps k n) (
      Keeps-trans k (k + 1) n _ _ (omega arith) (laws.erase_keeps k n)
        (erase_chunks-Keeps rounds (k + 1) (nvs.erase_blob k n).1))
    where
      Keeps-answer :
          (a : Erased) {n1 n2 : Store}
          → Keeps nvs k n n1
          → Keeps nvs k n n2
          → Keeps nvs k n (elim a [ absent ↦ n1 | erased ↦ n2 | erase_failed ↦ n2 ])
      Keeps-answer absent one two = one
      Keeps-answer erased one two = two
      Keeps-answer erase_failed one two = two

  pub write_chunks-Keeps :
      (es : List IndexEntry) (rounds k : ℕ) (n : Store)
      → Keeps nvs k n (write_chunks nvs es rounds k n).1
  unfolding write_chunks
  write_chunks-Keeps es zero k n = Keeps-refl k n
  write_chunks-Keeps es (suc rounds) k n =
      let first = laws.blob_keeps k (chunk k es) n in
      let n' = (nvs.set_blob k (chunk k es) n).1 in
      elim (Bool-cases (nvs.set_blob k (chunk k es) n).0) [
        | inl e ↦ rw e (
            Keeps-trans k (k + 1) n n' _ (omega arith) first
              (write_chunks-Keeps es rounds (k + 1) n'))
        | inr e ↦ rw e first
      ]

  -- The chunks from `k` on, for `rounds` chunks, are stored.
  abbrev pub Stored : List IndexEntry → ℕ → ℕ → Store → Type 0
  Stored es k zero n = Unit {0}
  Stored es k (suc rounds) n =
      (get_blob k (length (chunk k es)) n ≡ some (chunk k es)) × Stored es (k + 1) rounds n

  pub write_chunks-Stored :
      (es : List IndexEntry) (rounds k : ℕ) (n : Store)
      → (write_chunks nvs es rounds k n).0 ≡ true
      → Stored es k rounds (write_chunks nvs es rounds k n).1
  unfolding write_chunks
  write_chunks-Stored es zero k n h = tt
  write_chunks-Stored es (suc rounds) k n h =
      let n' = (nvs.set_blob k (chunk k es) n).1 in
      elim (Bool-cases (nvs.set_blob k (chunk k es) n).0) [
        | inr e ↦ absurd (let bad : false ≡ true = rw e at h in cc)
        | inl e ↦ rw e (
          (write_chunks-Keeps es rounds (k + 1) n').blobs k _ (omega arith)
              ∙ laws.blob_self k (chunk k es) n e,
          write_chunks-Stored es rounds (k + 1) n' (rw e at h),
        )
      ]

  pub Stored-Keeps :
      (es : List IndexEntry) (k rounds l : ℕ) (n n' : Store)
      → k + rounds ≤ l
      → Keeps nvs l n n'
      → Stored es k rounds n
      → Stored es k rounds n'
  Stored-Keeps es k zero l n n' le keeps h = tt
  Stored-Keeps es k (suc rounds) l n n' le keeps h = (
    keeps.blobs k _ (omega arith) ∙ h.0,
    Stored-Keeps es (k + 1) rounds l n n' (omega arith) keeps h.1,
  )

  length-chunk :
      (es : List IndexEntry) (k : ℕ)
      → (if ltb chunk_size (length es - k * chunk_size)
          then chunk_size
          else length es - k * chunk_size)
        ≡ length (chunk k es)
  length-chunk es k =
      ground
        (arith, length-take chunk_size (drop (k * chunk_size) es), length-drop (k * chunk_size) es)

  chunk-join :
      (es : List IndexEntry) (rounds k : ℕ)
      → chunk k es ++ take (rounds * chunk_size) (drop ((k + 1) * chunk_size) es)
        ≡ take (suc rounds * chunk_size) (drop (k * chunk_size) es)
  chunk-join es rounds k =
      let start : (k + 1) * chunk_size ≡ k * chunk_size + chunk_size = omega arith in
      let sum : chunk_size + rounds * chunk_size ≡ suc rounds * chunk_size = omega arith in
      let after = ap (λ j. drop j es) start ∙ sym (drop-drop (k * chunk_size) chunk_size es) in
      ap (λ xs. chunk k es ++ take (rounds * chunk_size) xs) after
      ∙ take-add chunk_size (rounds * chunk_size) (drop (k * chunk_size) es)
      ∙ ap (λ j. take j (drop (k * chunk_size) es)) sum

  -- One round of the loop, when the chunk has its size and the rest is read.
  read_round :
      (k size : ℕ) (n : Store) (c : List IndexEntry) {rest : Option (List IndexEntry)}
      {es : List IndexEntry}
      → get_blob k size n ≡ some c
      → length c ≡ size
      → rest ≡ some es
      → (elim (get_blob k size n) [
        | none ↦ none
        | some xs ↦
            if length xs == size
            then (elim rest [ none ↦ none | some ys ↦ some (xs ++ ys) ])
            else none
      ])
        ≡ some (c ++ es)
  read_round k size n c got fits later =
      let whole : (length c == size) ≡ true = ground arith in rw got (rw whole (rw later refl))

  pub read_chunks-Stored :
      (es : List IndexEntry) (rounds k : ℕ) (n : Store)
      → Stored es k rounds n
      → read_chunks nvs rounds k (length es - k * chunk_size) n
        ≡ some (take (rounds * chunk_size) (drop (k * chunk_size) es))
  unfolding read_chunks
  read_chunks-Stored es zero k n h = refl
  read_chunks-Stored es (suc rounds) k n h =
      let left = length es - k * chunk_size in
      let size = if ltb chunk_size left then chunk_size else left in
      let same : size ≡ length (chunk k es) = length-chunk es k in
      let shorter : left - size ≡ length es - (k + 1) * chunk_size = omega (
        arith,
        same,
        length-take chunk_size (drop (k * chunk_size) es),
        length-drop (k * chunk_size) es,
      ) in
      read_round k size n (chunk k es)
        (subst (λ s. get_blob k s n ≡ some (chunk k es)) (sym same) h.0) (sym same)
        (ap (λ l. read_chunks nvs rounds (k + 1) l n) shorter
          ∙ read_chunks-Stored es rounds (k + 1) n h.1)
      ∙ ap some (chunk-join es rounds k)
