-- ===== src/Storage/Persist.antt =====
-- main/storage_engine.c, `save_index_to_nvs` and `load_index_from_nvs`: the index goes to NVS in
-- chunks of fifty entries.
use wisp_esp.Base.{
  ℕ, zero, suc, ◌+◌, ◌-◌, ◌*◌, ◌/◌, Bool, true, false, List, [], ◌++◌, Option, none, some, ltb,
  ◌||◌, ◌==◌, if◌then◌else◌, length, take, drop, replicate,
}
use wisp_esp.Storage.Types.{
  Nvs, Engine, IndexEntry, StorageError, erased, absent, erase_failed, available, missing,
  unavailable, entries,
}
use wisp_esp.Storage.Types.{io, max_events, small_index}

abbrev pub chunk_size : ℕ
chunk_size = 50

abbrev pub max_chunks : ℕ
max_chunks = 100

-- The rounds of `for (i = 0; i < count; i += chunk_size)`.
abbrev pub num_chunks : ℕ → ℕ
num_chunks count = (count + chunk_size - 1) / chunk_size

-- The entries of chunk `k`: fifty, or what is left of the index.
abbrev pub chunk : ℕ → List IndexEntry → List IndexEntry
chunk k es = take chunk_size (drop (k * chunk_size) es)

module _ (nvs : Nvs) where
  open nvs use {Store}

  -- The loop over the chunks from chunk `k` on, for `rounds` rounds: whether all were stored.
  unfoldable pub write_chunks : List IndexEntry → ℕ → ℕ → Store → Bool × Store
  write_chunks es zero k n = (true, n)
  write_chunks es (suc rounds) k n =
      let (stored, n') = nvs.set_blob k (chunk k es) n in
      let rest = write_chunks es rounds (k + 1) n' in if stored then rest else (false, n')

  -- The loop that erases stale chunks from chunk `k` on, until one is not there.
  unfoldable pub erase_chunks : ℕ → ℕ → Store → Store
  erase_chunks zero k n = n
  erase_chunks (suc rounds) k n =
      let (answer, n') = nvs.erase_blob k n in
      let rest = erase_chunks rounds (k + 1) n' in
      elim answer [ absent ↦ n' | erased ↦ rest | erase_failed ↦ rest ]

  abbrev pub then_commit : Store → StorageError × Store
  then_commit n = let (done, n') = nvs.commit n in (if done then StorageError.ok else io, n')

  -- `save_index_to_nvs`
  unfoldable pub save_index : Engine → Store → StorageError × Store
  save_index eng n =
      let (opened, n1) = nvs.open_rw n in
      if opened
      then (let (counted, n2) = nvs.set_count eng.index_count n1 in
          if counted
          then (let (numbered, n3) = nvs.set_next_idx eng.next_file_index n2 in
              if numbered
              then (let chunks = num_chunks eng.index_count in
                  let (stored, n4) = write_chunks (entries eng) chunks 0 n3 in
                  if stored
                  then then_commit (erase_chunks (max_chunks - chunks) chunks n4)
                  else (io, n4))
              else (io, n3))
          else (io, n2))
      else (io, n1)

  -- The loop of `load_index_from_nvs` for the `left` entries from chunk `k` on: the entries read,
  -- or `none` where a chunk is missing or has another size.
  unfoldable pub read_chunks : ℕ → ℕ → ℕ → Store → Option (List IndexEntry)
  read_chunks zero k left n = some []
  read_chunks (suc rounds) k left n =
      let size = if ltb chunk_size left then chunk_size else left in
      let rest = read_chunks rounds (k + 1) (left - size) n in
      elim (nvs.get_blob k size n) [
        | none ↦ none
        | some es ↦
            if length es == size
            then (elim rest [ none ↦ none | some es' ↦ some (es ++ es') ])
            else none
      ]

  -- What `load_index_from_nvs` does once the namespace is open.
  unfoldable pub load_opened : Engine → Store → Option Engine
  load_opened eng n = elim (nvs.get_count n) [
    | none ↦ none
    | some stored ↦
        let count = if ltb eng.max_index_entries stored then eng.max_index_entries else stored in
        elim (nvs.get_next_idx n) [
          | none ↦ none
          | some next ↦ elim (read_chunks (num_chunks count) 0 count n) [
            | none ↦ none
            | some es ↦ some (record eng {
              index = es ++ drop count eng.index;
              index_count = count;
              next_file_index = next;
            })
          ]
        ]
  ]

  -- `load_index_from_nvs` into a zeroed engine: `none` is an error.
  unfoldable pub load_index : Engine → Store → Option Engine
  load_index eng n = elim (nvs.open_ro n) [
    | missing ↦ some eng
    | unavailable ↦ none
    | available ↦ load_opened eng n
  ]

  -- The end of `storage_init`: an index that cannot be read is dropped. (What a failed load has
  -- left in the cells of the array stays there; with the count at zero nothing reads it.)
  unfoldable pub init_index : Engine → Store → Engine
  init_index eng n = elim (load_index eng n) [
    | none ↦ record eng { index_count = 0; next_file_index = 0; initialized = true }
    | some loaded ↦ record loaded { initialized = true }
  ]

  -- `storage_destroy` once the cleanup task has stopped: the index is saved, LittleFS is unmounted,
  -- and the array and the mutex are freed.
  unfoldable pub destroy : Engine → Store → Engine × Store
  destroy eng n =
      let n' = (save_index eng n).1 in
      if eng.initialized
      then (record eng { index = []; initialized = false; lock = false; mounted = false }, n')
      else (eng, n)

-- The engine of `storage_init` before the index is read: zeroed, with its mutex, an array of `cells`
-- cells, and LittleFS.
abbrev pub zero_entry : IndexEntry
zero_entry = record {
  event_id = replicate 32 0;
  created_at = 0;
  expires_at = 0;
  file_index = 0;
  kind = 0;
  pubkey_prefix = replicate 4 0;
  flags = 0;
}

abbrev pub blank_engine : ℕ → ℕ → Engine
blank_engine cells ttl = record {
  index = replicate cells zero_entry;
  index_count = 0;
  max_index_entries = cells;
  next_file_index = 0;
  initialized = false;
  default_ttl_sec = ttl;
  lock = true;
  mounted = true;
}

-- What `storage_init` is answered: the mutex, the array of 5000 cells, that of 1000, and LittleFS.
pub record StorageAnswers : Type 0 where
  pub lock : Bool
  pub large : Bool
  pub small : Bool
  pub mounted : Bool

abbrev pub cells_of : StorageAnswers → ℕ
cells_of a = if a.large then max_events else small_index

-- `memset(engine, 0, …)`, and after the mutex and the array have been freed again.
abbrev pub no_engine : ℕ → ℕ → Engine
no_engine cells ttl = record (blank_engine cells ttl) { index = []; lock = false; mounted = false }

-- `storage_init`: whether it succeeds, and the engine.
unfoldable pub storage_init : (nvs : Nvs) → StorageAnswers → ℕ → nvs.Store → Bool × Engine
storage_init nvs a ttl n =
    if a.lock
    then (if a.large || a.small
        then (if a.mounted
            then (true, init_index nvs (blank_engine (cells_of a) ttl) n)
            else (false, no_engine (cells_of a) ttl))
        else (false, no_engine small_index ttl))
    else (false, no_engine 0 ttl)
