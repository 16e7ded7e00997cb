-- ===== src/Storage/Query.antt =====
-- main/storage_engine.c, `index_matches_filter` and `storage_query_events`.
use wisp_esp.Base.{
  ℕ, zero, suc, Bool, true, false, not, ◌&&◌, ◌||◌, List, [], ◌∷◌, ◌++◌, none, some, ltb, leb,
  if◌then◌else◌, bytes_eq, length, get_elem?, set, to_u32,
}
use wisp_esp.Base.Int.{is_pos, wrap, eq_ℕ}
use wisp_esp.Protocol.{Text, Bytes, Event, Filter}
use wisp_esp.Storage.Types.{
  StorageError, ok, not_initialized, no_mem, IndexEntry, Engine, is_deleted, mark_deleted, FilePath,
  path_of, FileSystem, Library,
}
use wisp_esp.Storage.Ops.{load_event_from_file}
use wisp_esp.Storage.Sweep.{is_expired, with_index}

abbrev pub max_results : ℕ
max_results = 500

-- A search loop with `break`: whether any element passes.
abbrev pub any {ℓ} : {A : Type ℓ} → (A → Bool) → List A → Bool
any p [] = false
any p (x ∷ xs) = p x || any p xs

-- `count == 0`, or some element passes.
abbrev pub none_or_any {ℓ} : {A : Type ℓ} → (A → Bool) → List A → Bool
none_or_any p [] = true
none_or_any p (x ∷ xs) = any p (x ∷ xs)

module _ (lib : Library) where
  -- Digits in hexadecimal that stand for these bytes.
  abbrev pub same_bytes : ℕ → ℕ → Bytes → Text → Bool
  same_bytes digits bytes expected s = elim (lib.hex_to_bytes s digits bytes) [
    | none ↦ false
    | some b ↦ bytes_eq b expected
  ]

  abbrev pub author_matches : Bytes → Text → Bool
  author_matches prefix s = leb 8 (length s) && same_bytes 8 4 prefix s

  -- `index_matches_filter`
  unfoldable pub index_matches_filter : IndexEntry → Filter → Bool
  index_matches_filter e f =
      not (is_pos f.since && ltb e.created_at (wrap 32 f.since))
      && not (is_pos f.until && ltb (wrap 32 f.until) e.created_at)
      && none_or_any (λ k. eq_ℕ k e.kind) f.kinds
      && none_or_any (same_bytes 64 32 e.event_id) f.ids
      && none_or_any (author_matches e.pubkey_prefix) f.authors

  module _ (fs : FileSystem) where
    open fs use {Files}

    -- The variables of the loop of a query.
    pub record Search : Type 0 where
      pub cells : List IndexEntry
      pub files : Files
      pub found : List Event

    -- The body of the loop at the entry `e` of cell `i`. An event that does not pass the filter is
    -- destroyed.
    unfoldable pub query_entry : Filter → ℕ → (FilePath → Bool) → ℕ → IndexEntry → Search → Search
    query_entry filter now mem i e st =
        if is_deleted e
        then st
        else (if is_expired now e
            then record st {
              cells = set st.cells i (mark_deleted e);
              files = fs.unlink (path_of e) st.files;
            }
            else (if index_matches_filter e filter
                then (elim (load_event_from_file lib fs (mem (path_of e)) (path_of e) st.files) [
                  | none ↦ st
                  | some ev ↦
                      if lib.filter_matches filter ev
                      then record st { found = st.found ++ ev ∷ [] }
                      else st
                ])
                else st))

    unfoldable pub query_step : Filter → ℕ → (FilePath → Bool) → ℕ → Search → Search
    query_step filter now mem i st = elim (get_elem? st.cells i) [
      | none ↦ st
      | some e ↦ query_entry filter now mem i e st
    ]

    -- `for (i = index_count - 1; i >= 0 && *count < limit; i--)`, with `i + 1` as its variable.
    unfoldable pub query_loop : Filter → ℕ → (FilePath → Bool) → ℕ → ℕ → Search → Search
    query_loop filter now mem limit zero st = st
    query_loop filter now mem limit (suc i) st =
        let rest = query_loop filter now mem limit i (query_step filter now mem i st) in
        if ltb (length st.found) limit then rest else st

    -- `storage_query_events` past its first test; `room` tells whether the array of results can be
    -- allocated, `mem` whether the buffer of each file can, and `time` is `time(NULL)`.
    unfoldable pub query_locked :
        Engine
        → Filter
        → ℕ
        → Bool
        → (FilePath → Bool)
        → ℕ
        → Files
        → StorageError × Engine × Files × List Event
    query_locked eng filter limit room mem time f =
        if room
        then (let limit' = if ltb max_results limit then max_results else limit in
            let st =
              query_loop filter (to_u32 time) mem limit' eng.index_count
                (record { cells = eng.index; files = f; found = [] }) in
            (ok, with_index eng st.cells, st.files, st.found))
        else (no_mem, eng, f, [])

    -- `storage_query_events`
    unfoldable pub query_events :
        Engine
        → Filter
        → ℕ
        → Bool
        → (FilePath → Bool)
        → ℕ
        → Files
        → StorageError × Engine × Files × List Event
    query_events eng filter limit room mem time f =
        if eng.initialized
        then query_locked eng filter limit room mem time f
        else (not_initialized, eng, f, [])
