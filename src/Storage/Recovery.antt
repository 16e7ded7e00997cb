-- ===== src/Storage/Recovery.antt =====
-- `save_index_to_nvs` followed by `load_index_from_nvs`.
use wisp_esp.Base.{
  ℕ, ◌-◌, ◌*◌, ◌≤◌, ◌≡◌, refl, sym, ap, ◌∙◌, inl, inr, true, false, some, ◌++◌, arith, length, drop,
  List, [], subst, count_where, ltb, Bool-cases, take_all, take-append, length-drop, length-append,
  length-replicate,
}
use wisp_esp.Storage.Types.{
  ok, io, max_events, IndexEntry, Engine, entries, Nvs, available, missing,
}
use wisp_esp.Storage.Persist.{
  StorageAnswers, cells_of, chunk_size, max_chunks, num_chunks, write_chunks, erase_chunks,
  save_index, read_chunks, load_opened, load_index, init_index, zero_entry, blank_engine,
}
use wisp_esp.Storage.Chunks.{
  NvsLaws, Keeps-trans, erase_chunks-Keeps, write_chunks-Keeps, Stored, write_chunks-Stored,
  Stored-Keeps, read_chunks-Stored,
}
use wisp_esp.Storage.Invariant.{IsValid, length-entries}

module _ (nvs : Nvs) (laws : NvsLaws nvs) where
  open nvs use {Store}

  -- What a save that succeeds leaves in the store.
  record Saved (eng : Engine) (n : Store) : Type 0 where
    opens : nvs.open_ro n ≡ available
    count : nvs.get_count n ≡ some eng.index_count
    next : nvs.get_next_idx n ≡ some eng.next_file_index
    chunks : Stored nvs laws (entries eng) 0 (num_chunks eng.index_count) n

  save_index-Saved :
      (eng : Engine) (n : Store)
      → (save_index nvs eng n).0 ≡ ok
      → Saved eng (save_index nvs eng n).1
  unfolding save_index
  save_index-Saved eng n h =
      let n1 = (nvs.open_rw n).1 in
      let n2 = (nvs.set_count eng.index_count n1).1 in
      let n3 = (nvs.set_next_idx eng.next_file_index n2).1 in
      let chunks = num_chunks eng.index_count in
      let n4 = (write_chunks nvs (entries eng) chunks 0 n3).1 in
      let n5 = erase_chunks nvs (max_chunks - chunks) chunks n4 in
      elim (Bool-cases (nvs.open_rw n).0) [
        | inr e ↦ absurd (let bad : io ≡ ok = rw e at h in cc)
        | inl o ↦ elim (Bool-cases (nvs.set_count eng.index_count n1).0) [
          | inr e ↦ absurd (let bad : io ≡ ok = rw (o, e) at h in cc)
          | inl c ↦ elim (Bool-cases (nvs.set_next_idx eng.next_file_index n2).0) [
            | inr e ↦ absurd (let bad : io ≡ ok = rw (o, c, e) at h in cc)
            | inl x ↦ elim (Bool-cases (write_chunks nvs (entries eng) chunks 0 n3).0) [
              | inr e ↦ absurd (let bad : io ≡ ok = rw (o, c, x, e) at h in cc)
              | inl w ↦
                  let wrote = write_chunks-Keeps nvs laws (entries eng) chunks 0 n3 in
                  let tail =
                    Keeps-trans nvs laws chunks chunks n4 n5 (nvs.commit n5).1 (omega arith)
                      (erase_chunks-Keeps nvs laws (max_chunks - chunks) chunks n4)
                      (laws.commit_keeps chunks n5) in
                  rw (o, c, x, w)
                    (record {
                      opens =
                          tail.opens
                          ∙ wrote.opens
                          ∙ laws.next_opens _ n2
                          ∙ laws.count_opens _ n1
                          ∙ laws.open_self n o;
                      count =
                          tail.count ∙ wrote.count ∙ laws.next_count _ n2 ∙ laws.count_self _ n1 c;
                      next = tail.next ∙ wrote.next ∙ laws.next_self _ n2 x;
                      chunks =
                          Stored-Keeps nvs laws (entries eng) 0 chunks chunks n4 (nvs.commit n5).1
                            (omega arith) tail
                            (write_chunks-Stored nvs laws (entries eng) chunks 0 n3 w);
                    })
            ]
          ]
        ]
      ]

module _ (nvs : Nvs) (laws : NvsLaws nvs) (eng : Engine) (n : nvs.Store) (ttl : ℕ) (v : IsValid eng)
    (done : (save_index nvs eng n).0 ≡ ok) where
  abbrev stored : nvs.Store
  stored = (save_index nvs eng n).1

  abbrev fresh : Engine
  fresh = blank_engine eng.max_index_entries ttl

  all_chunks : eng.index_count ≤ num_chunks eng.index_count * chunk_size
  all_chunks = omega arith

  read_all :
      read_chunks nvs (num_chunks eng.index_count) 0 eng.index_count stored ≡ some (entries eng)
  read_all =
      let rounds = num_chunks eng.index_count in
      let size = length-entries eng v in
      let s = save_index-Saved nvs laws eng n done in
      let start : length (entries eng) - 0 * chunk_size ≡ eng.index_count = omega (arith, size) in
      ap (λ l. read_chunks nvs rounds 0 l stored) (sym start)
      ∙ read_chunks-Stored nvs laws (entries eng) rounds 0 stored s.chunks
      ∙ ap some (take_all (rounds * chunk_size) (entries eng) (omega (arith, all_chunks)))

  abbrev recovered : Engine
  recovered = record fresh {
    index = entries eng ++ drop eng.index_count fresh.index;
    index_count = eng.index_count;
    next_file_index = eng.next_file_index;
  }

  load_index-recovered : load_index nvs fresh stored ≡ some recovered
  unfolding load_index load_opened
  load_index-recovered =
      let s = save_index-Saved nvs laws eng n done in
      let fits : ltb eng.max_index_entries eng.index_count ≡ false = ground (arith, v.fits) in
      rw (s.opens, load_index)
        (rw (s.count, load_opened) (rw (s.next, load_opened) (simp (fits, read_all, load_opened))))

  abbrev restarted : Engine
  restarted = record recovered { initialized = true }

  entries-restarted : entries restarted ≡ entries eng
  entries-restarted = take-append eng.index_count (entries eng) _ (length-entries eng v)

  restarted-IsValid : IsValid restarted
  restarted-IsValid = record {
    ready = refl;
    size = omega (
      arith,
      length-append (entries eng) (drop eng.index_count fresh.index),
      length-entries eng v,
      length-drop eng.index_count fresh.index,
      length-replicate eng.max_index_entries zero_entry,
      v.fits,
    );
    small = v.small;
    fits = v.fits;
    single = λ id. rw entries-restarted (v.single id);
    numbered = rw entries-restarted v.numbered;
    numbers = v.numbers;
  }

  init_index-restarted : init_index nvs fresh stored ≡ restarted
  unfolding init_index
  init_index-restarted = rw (load_index-recovered, init_index) refl

  -- Let NVS keep its laws and `save_index_to_nvs` succeed on a valid engine. Then `storage_init`
  -- with an array of the same size finds the entries and the next file number of that engine in the
  -- store, whatever stale chunks were there, and sets up a valid engine.
  pub init_index-save_index :
      let out = init_index nvs (blank_engine eng.max_index_entries ttl) (save_index nvs eng n).1 in
      (entries out ≡ entries eng) × (out.next_file_index ≡ eng.next_file_index) × IsValid out
  init_index-save_index = rw init_index-restarted (entries-restarted, refl, restarted-IsValid)

-- NVS holds no index yet, or the entries `es`, saved by a valid engine with an array of `cells` cells.
pub data HasIndex (nvs : Nvs) (cells : ℕ) : List IndexEntry → nvs.Store → Type 0 where
  no_index : (n : nvs.Store) → nvs.open_ro n ≡ missing → HasIndex nvs cells [] n
  index_saved :
      (eng : Engine) (n : nvs.Store)
      → IsValid eng
      → eng.max_index_entries ≡ cells
      → (save_index nvs eng n).0 ≡ ok
      → HasIndex nvs cells (entries eng) (save_index nvs eng n).1

blank-IsValid :
    (cells ttl : ℕ)
    → cells ≤ max_events
    → IsValid (record (blank_engine cells ttl) { initialized = true })
unfolding count_where
blank-IsValid cells ttl le = record {
  ready = refl;
  size = length-replicate cells zero_entry;
  small = le;
  fits = omega arith;
  single = λ id. omega arith;
  numbered = omega arith;
  numbers = omega arith;
}

load_index-missing :
    (nvs : Nvs) (eng : Engine) (n : nvs.Store)
    → nvs.open_ro n ≡ missing
    → load_index nvs eng n ≡ some eng
unfolding load_index
load_index-missing nvs eng n h = rw (h, load_index) refl

-- `storage_init` finds either.
pub init_index-HasIndex :
    (nvs : Nvs) (laws : NvsLaws nvs) {cells : ℕ} (ttl : ℕ) {es : List IndexEntry} {n : nvs.Store}
    → cells ≤ max_events
    → HasIndex nvs cells es n
    → let out = init_index nvs (blank_engine cells ttl) n in (entries out ≡ es) × IsValid out
unfolding init_index
init_index-HasIndex nvs laws {cells} ttl le (no_index n h) =
    rw (load_index-missing nvs (blank_engine cells ttl) n h, init_index)
      (refl, blank-IsValid cells ttl le)
init_index-HasIndex nvs laws ttl le (index_saved eng n v size done) =
    subst
      (λ k.
        let out = init_index nvs (blank_engine k ttl) (save_index nvs eng n).1 in
        (entries out ≡ entries eng) × IsValid out)
      size
      (let (same, next, valid) = init_index-save_index nvs laws eng n ttl v done in (same, valid))

pub cells_of-le : (a : StorageAnswers) → cells_of a ≤ max_events
cells_of-le a = ground arith
