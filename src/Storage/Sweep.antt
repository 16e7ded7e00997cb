-- ===== src/Storage/Sweep.antt =====
-- main/storage_engine.c: dropping what has expired, compaction of the index, statistics, and the
-- cleanup task.
use wisp_esp.Base.{
  ℕ, zero, suc, ◌+◌, ◌-◌, ◌^◌, Bool, not, ◌&&◌, ◌||◌, List, [], ◌∷◌, none, some, ltb, leb, ◌==◌,
  if◌then◌else◌, get_elem?, set, to_u32,
}
use wisp_esp.Storage.Types.{
  IndexEntry, Engine, entries, is_deleted, mark_deleted, path_of, FileSystem, Nvs,
}
use wisp_esp.Storage.Persist.{save_index}

-- `entry->expires_at > 0 && entry->expires_at < now`
abbrev pub is_expired : ℕ → IndexEntry → Bool
is_expired now e = ltb 0 e.expires_at && ltb e.expires_at now

-- The entries that a purge drops: neither deleted before nor still valid.
abbrev pub is_due : ℕ → IndexEntry → Bool
is_due now e = not (is_deleted e) && is_expired now e

abbrev pub with_index : Engine → List IndexEntry → Engine
with_index eng es = record eng { index = es }

module _ (fs : FileSystem) where
  open fs use {Files}

  -- The loop of `storage_purge_expired` over the first `count` cells of the array: the array, the
  -- files, and how many entries were dropped.
  unfoldable pub purge_loop : ℕ → ℕ → List IndexEntry → Files → List IndexEntry × Files × ℕ
  purge_loop now zero es f = (es, f, 0)
  purge_loop now (suc count) [] f = ([], f, 0)
  purge_loop now (suc count) (e ∷ es) f =
      let due = is_due now e in
      let (es', f', purged) =
        purge_loop now count es (if due then fs.unlink (path_of e) f else f) in
      ((if due then mark_deleted e else e) ∷ es', f', (if due then purged + 1 else purged))

  -- `storage_purge_expired` past its first test; `time` is `time(NULL)`.
  unfoldable pub purge_locked :
      (nvs : Nvs) → Engine → ℕ → Files → nvs.Store → ℕ × Engine × Files × nvs.Store
  purge_locked nvs eng time f n =
      let (es, f', purged) = purge_loop (to_u32 time) eng.index_count eng.index f in
      let eng' = with_index eng es in
      (purged, eng', f', (if ltb 0 purged then (save_index nvs eng' n).1 else n))

  -- `storage_purge_expired`
  unfoldable pub purge_expired :
      (nvs : Nvs) → Engine → ℕ → Files → nvs.Store → ℕ × Engine × Files × nvs.Store
  purge_expired nvs eng time f n =
      if eng.initialized then purge_locked nvs eng time f n else (0, eng, f, n)

-- The loop of `storage_compact_index`: `rounds` cells from `read_idx` on are still to be read, and
-- `write_idx` cells are kept.
unfoldable pub compact_loop : ℕ → ℕ → ℕ → ℕ → List IndexEntry → List IndexEntry × ℕ × ℕ
compact_loop zero read_idx write_idx compacted es = (es, write_idx, compacted)
compact_loop (suc rounds) read_idx write_idx compacted es = elim (get_elem? es read_idx) [
  | none ↦ (es, write_idx, compacted)
  | some e ↦
      let dropped = is_deleted e in
      compact_loop rounds (read_idx + 1) (if dropped then write_idx else write_idx + 1)
        (if dropped then compacted + 1 else compacted)
        (if dropped || (write_idx == read_idx) then es else set es write_idx e)
]

-- `storage_compact_index` past its first test.
unfoldable pub compact_locked : (nvs : Nvs) → Engine → nvs.Store → ℕ × Engine × nvs.Store
compact_locked nvs eng n =
    let (es, kept, compacted) = compact_loop eng.index_count 0 0 0 eng.index in
    let eng' = record eng { index = es; index_count = kept } in
    if ltb 0 compacted
    then (compacted, eng', (save_index nvs eng' n).1)
    else (compacted, with_index eng es, n)

-- `storage_compact_index`
unfoldable pub compact_index : (nvs : Nvs) → Engine → nvs.Store → ℕ × Engine × nvs.Store
compact_index nvs eng n = if eng.initialized then compact_locked nvs eng n else (0, eng, n)

-- `storage_stats_t` without the sizes of the partition.
pub record Stats : Type 0 where
  pub total_events : ℕ
  pub oldest_event_ts : ℕ
  pub newest_event_ts : ℕ

abbrev pub count_event : Stats → IndexEntry → Stats
count_event st e = record {
  total_events = st.total_events + 1;
  oldest_event_ts =
      if ltb e.created_at st.oldest_event_ts then e.created_at else st.oldest_event_ts;
  newest_event_ts =
      if ltb st.newest_event_ts e.created_at then e.created_at else st.newest_event_ts;
}

unfoldable pub stats_loop : ℕ → List IndexEntry → Stats → Stats
stats_loop now [] st = st
stats_loop now (e ∷ es) st =
    stats_loop now es
      (if is_deleted e then st else (if is_expired now e then st else count_event st e))

-- `storage_get_stats`, up to the sizes of the partition.
unfoldable pub get_stats : Engine → ℕ → Stats
get_stats eng time =
    if eng.initialized
    then (let st =
          stats_loop (to_u32 time) (entries eng)
            (record { total_events = 0; oldest_event_ts = 2 ^ 32 - 1; newest_event_ts = 0 }) in
        if st.total_events == 0 then record st { oldest_event_ts = 0 } else st)
    else record { total_events = 0; oldest_event_ts = 0; newest_event_ts = 0 }

-- One round of `storage_cleanup_task` after its minute of sleep: a purge, and every tenth time a
-- compaction. The first component is `cycles_since_compact`.
unfoldable pub cleanup_cycle :
    (fs : FileSystem) (nvs : Nvs)
    → ℕ
    → Engine
    → ℕ
    → fs.Files
    → nvs.Store
    → ℕ × Engine × fs.Files × nvs.Store
cleanup_cycle fs nvs cycles eng time f n =
    let (purged, eng', f', n') = purge_expired fs nvs eng time f n in
    let (compacted, eng'', n'') = compact_index nvs eng' n' in
    if leb 10 (cycles + 1) then (0, eng'', f', n'') else (cycles + 1, eng', f', n')
