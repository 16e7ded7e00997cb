-- ===== src/Storage/Ops.antt =====
-- main/storage_engine.c: finding, saving, reading and deleting one event.
use wisp_esp.Base.{
  ℕ, ◌+◌, ◌%◌, Bool, true, false, not, ◌&&◌, Option, none, some, ltb, leb, ◌==◌, if◌then◌else◌,
  bytes_eq, length, take, set, find_entry, to_u16, to_u32, add32,
}
use wisp_esp.Base.Int.{is_pos, wrap}
use wisp_esp.Protocol.{Bytes, Event}
use wisp_esp.Storage.Types.{
  StorageError, ok, not_initialized, full, duplicate, not_found, io, no_mem, serialize_failed,
  IndexEntry, Engine, entries, is_deleted, mark_deleted, FilePath, event_path, path_of, FileSystem,
  Library, Nvs, max_event_size,
}
use wisp_esp.Storage.Persist.{save_index}

-- The test of `find_index_entry`.
abbrev pub is_live : Bytes → IndexEntry → Bool
is_live id e = bytes_eq e.event_id id && not (is_deleted e)

-- `find_index_entry`: the pointer into the array, with what it points at.
unfoldable pub find_index_entry : Engine → Bytes → Option (ℕ × IndexEntry)
find_index_entry eng id = find_entry (is_live id) (entries eng)

abbrev pub put_entry : Engine → ℕ → IndexEntry → Engine
put_entry eng i e = record eng { index = set eng.index i e }

-- When the event is to be dropped: after the default time, or earlier if its NIP-40 tag says so.
-- `time(NULL)`, the sum and the tag are cut to 32 bits.
unfoldable pub expiry : Library → Engine → Event → ℕ → ℕ
expiry lib eng ev now =
    let ttl = add32 (to_u32 now) eng.default_ttl_sec in
    let tag = lib.get_expiration ev in
    if is_pos tag && ltb (wrap 32 tag) ttl then wrap 32 tag else ttl

unfoldable pub new_entry : Library → Engine → Event → ℕ → IndexEntry
unfolding expiry
new_entry lib eng ev now = record {
  event_id = ev.id;
  created_at = wrap 32 ev.created_at;
  expires_at = expiry lib eng ev now;
  file_index = eng.next_file_index;
  kind = ev.kind;
  pubkey_prefix = take 4 ev.pubkey;
  flags = 0;
}

-- The entry is stored and both counters step; a later entry goes into the next cell.
unfoldable pub append_entry : Engine → IndexEntry → Engine
append_entry eng e = record eng {
  index = set eng.index eng.index_count e;
  index_count = to_u16 (eng.index_count + 1);
  next_file_index = to_u32 (eng.next_file_index + 1);
}

-- `storage_event_exists`
unfoldable pub event_exists : Engine → Bytes → Bool
event_exists eng id =
    if eng.initialized
    then (elim (find_index_entry eng id) [ none ↦ false | some found ↦ true ])
    else false

module _ (lib : Library) (fs : FileSystem) where
  open fs use {Files}

  -- `fopen(path, "wb")`, once more after `mkdir` of its directory if it fails.
  unfoldable pub open_event_file : FilePath → Files → Bool × Files
  open_event_file path f =
      let (opened, f') = fs.fopen_wb path f in
      if opened then (true, f') else fs.fopen_wb path (fs.mkdir path.dir f')

  -- From the opening of the file to the check of the length that was written. What `fclose` returns
  -- is not looked at.
  unfoldable pub write_event_file : FilePath → Bytes → Files → Bool × Files
  write_event_file path json f =
      let (opened, f') = open_event_file path f in
      if opened
      then (let (written, buffered) = fs.fwrite path json f' in
          let f'' = (fs.fclose path buffered).1 in
          if written == length json then (true, f'') else (false, fs.unlink path f''))
      else (false, f')

  -- `load_event_from_file`; `mem` tells whether its buffer can be allocated.
  unfoldable pub load_event_from_file : Bool → FilePath → Files → Option Event
  load_event_from_file mem path f = elim (fs.read path f) [
    | none ↦ none
    | some json ↦
        if ltb 0 (length json) && leb (length json) max_event_size && mem
        then lib.parse json
        else none
  ]

  -- `storage_get_event`
  unfoldable pub get_event : Engine → Bytes → Bool → Files → Option Event
  get_event eng id mem f =
      if eng.initialized
      then (elim (find_index_entry eng id) [
        | none ↦ none
        | some (i, e) ↦ load_event_from_file mem (path_of e) f
      ])
      else none

  module _ (nvs : Nvs) where
    open nvs use {Store}

    -- Every tenth event the index goes to NVS; what that returns is not looked at.
    unfoldable pub checkpoint : Engine → Store → Store
    checkpoint eng n = if eng.index_count % 10 == 0 then (save_index nvs eng n).1 else n

    -- `storage_save_event` past its first test.
    unfoldable pub save_locked :
        Engine → Event → Bool → ℕ → Files → Store → StorageError × Engine × Files × Store
    save_locked eng ev mem now f n = elim (find_index_entry eng ev.id) [
      | some found ↦ (duplicate, eng, f, n)
      | none ↦
          if leb eng.max_index_entries eng.index_count
          then (full, eng, f, n)
          else (if mem
              then (elim (lib.serialize ev max_event_size) [
                | none ↦ (serialize_failed, eng, f, n)
                | some json ↦
                    let (written, f') =
                      write_event_file (event_path ev.id eng.next_file_index) json f in
                    let eng' = append_entry eng (new_entry lib eng ev now) in
                    if written then (ok, eng', f', checkpoint eng' n) else (io, eng, f', n)
              ])
              else (no_mem, eng, f, n))
    ]

    -- `storage_save_event`; `mem` tells whether its buffer can be allocated, and `now` is
    -- `time(NULL)`.
    unfoldable pub save_event :
        Engine → Event → Bool → ℕ → Files → Store → StorageError × Engine × Files × Store
    save_event eng ev mem now f n =
        if eng.initialized then save_locked eng ev mem now f n else (not_initialized, eng, f, n)

    -- `storage_delete_event` past its first test.
    unfoldable pub delete_locked :
        Engine → Bytes → Files → Store → StorageError × Engine × Files × Store
    delete_locked eng id f n = elim (find_index_entry eng id) [
      | none ↦ (not_found, eng, f, n)
      | some (i, e) ↦
          let eng' = put_entry eng i (mark_deleted e) in
          (ok, eng', fs.unlink (path_of e) f, (save_index nvs eng' n).1)
    ]

    -- `storage_delete_event`
    unfoldable pub delete_event :
        Engine → Bytes → Files → Store → StorageError × Engine × Files × Store
    delete_event eng id f n =
        if eng.initialized then delete_locked eng id f n else (not_initialized, eng, f, n)
