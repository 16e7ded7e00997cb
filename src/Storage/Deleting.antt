-- ===== src/Storage/Deleting.antt =====
-- `storage_delete_event` and `storage_get_event` on the dictionary.
use wisp_esp.Base.{
  ℕ, ◌+◌, ◌^◌, ◌≤◌, ◌<◌, ◌≡◌, ◌≢◌, ◌↔◌, refl, ap, ◌∙◌, inl, inr, Bool, true, ◌&&◌, Option, none,
  some, arith, length, leb, ltb, Option-cases, first_where-set_other, count_where-set,
  count_where-zero, bit, set, if◌then◌else◌,
}
use wisp_esp.Protocol.{Bytes, Event}
use wisp_esp.Storage.Types.{
  StorageError, ok, not_found, IndexEntry, Engine, entries, mark_deleted, event_path, path_of,
  FileSystem, FileLaws, Library, Nvs, max_event_size,
}
use wisp_esp.Storage.Ops.{
  is_live, find_index_entry, put_entry, load_event_from_file, get_event, save_event, delete_event,
  delete_locked,
}
use wisp_esp.Storage.Numbering.{path_of-ne}
use wisp_esp.Storage.Invariant.{IsValid, is_live-mark_deleted, entries-put_entry, put_entry-IsValid}
use wisp_esp.Storage.Content.{
  lookup, content, flush, distinct_numbers, find_index_entry-some, find_index_entry-none,
  is_live-ne,
}
use wisp_esp.Storage.Saving.{save_event_stores, save_event-IsValid}

module _ (lib : Library) (fs : FileSystem) (nvs : Nvs) (eng : Engine) (id : Bytes) (f : fs.Files)
    (n : nvs.Store) where
  -- The two ways through the function past its first test.
  data Deleted (out : StorageError × Engine × fs.Files × nvs.Store) : Type 0 where
    missing : lookup eng id ≡ none → out.0 ≡ not_found → out.1 ≡ eng → out.2 ≡ f → Deleted out
    flagged :
        (i : ℕ) (e : IndexEntry)
        → find_index_entry eng id ≡ some (i, e)
        → out.0 ≡ ok
        → out.1 ≡ put_entry eng i (mark_deleted e)
        → out.2 ≡ fs.unlink (path_of e) f
        → Deleted out

  delete_locked-Deleted : Deleted (delete_locked lib fs nvs eng id f n)
  unfolding delete_locked
  delete_locked-Deleted = elim (Option-cases (find_index_entry eng id)) [
    | inl h ↦ rw (h, delete_locked) (missing (find_index_entry-none eng id h) refl refl refl)
    | inr ((i, e), h) ↦ rw (h, delete_locked) (flagged i e h refl refl refl)
  ]

  unlocked :
      eng.initialized ≡ true
      → delete_event lib fs nvs eng id f n ≡ delete_locked lib fs nvs eng id f n
  unfolding delete_event
  unlocked h = ground arith

  delete_event-Deleted : eng.initialized ≡ true → Deleted (delete_event lib fs nvs eng id f n)
  delete_event-Deleted h = rw (unlocked h) delete_locked-Deleted

  module _ (v : IsValid eng) where
    Deleted-IsValid :
        {out : StorageError × Engine × fs.Files × nvs.Store} → Deleted out → IsValid out.1
    Deleted-IsValid (missing a s same keep) = rw same v
    Deleted-IsValid (flagged i e h s same files) =
        rw same (put_entry-IsValid eng v i e (find_index_entry-some eng id i e h).0)

    Deleted-gone :
        {out : StorageError × Engine × fs.Files × nvs.Store} → Deleted out → lookup out.1 id ≡ none
    Deleted-gone (missing a s same keep) = rw same a
    Deleted-gone (flagged i e h s same files) =
        let (got, hit, found) = find_index_entry-some eng id i e h in
        rw same (
          rw (entries-put_entry eng v i e (mark_deleted e) got) (
            count_where-zero (is_live id) (set (entries eng) i (mark_deleted e)) (
              omega (
                arith,
                count_where-set (is_live id) (entries eng) i e (mark_deleted e) got,
                ap bit hit,
                ap bit (is_live-mark_deleted id e),
                v.single id,
              ))))

    Deleted-result :
        {out : StorageError × Engine × fs.Files × nvs.Store}
        → Deleted out
        → (out.0 ≡ ok) ↔ ((e : IndexEntry) × (lookup eng id ≡ some e))
    Deleted-result (missing a s same keep) = (λ h. absurd (cc), λ (e, h). absurd (cc))
    Deleted-result (flagged i e h s same files) =
        (λ k. (e, (find_index_entry-some eng id i e h).2), λ k. s)

    module _ (laws : FileLaws fs) where
      Deleted-others :
          {out : StorageError × Engine × fs.Files × nvs.Store} (id' : Bytes)
          → id' ≢ id
          → Deleted out
          → content lib fs laws out.1 out.2 id' ≡ content lib fs laws eng f id'
      Deleted-others id' ne (missing a s same keep) = rw (same, keep)
      Deleted-others id' ne (flagged i e h s same files) =
          let (got, hit, found) = find_index_entry-some eng id i e h in
          let kept =
            first_where-set_other (is_live id') (entries eng) i e (mark_deleted e) got
              (is_live-ne id id' e ne hit) (is_live-mark_deleted id' e) in
          rw (same, files)
            (rw (entries-put_entry eng v i e (mark_deleted e) got, kept)
              (elim (Option-cases (lookup eng id')) [
                | inl none_there ↦ rw none_there refl
                | inr (x, there) ↦ rw there (
                    laws.unlink_other (path_of e) (path_of x) f
                      (path_of-ne e x (distinct_numbers eng id id' e x v ne found there)))
              ]))

-- `storage_delete_event` keeps a valid index valid.
pub delete_event-IsValid :
    (lib : Library) (fs : FileSystem) (nvs : Nvs) (eng : Engine) (id : Bytes) (f : fs.Files)
    (n : nvs.Store)
    → IsValid eng
    → IsValid (delete_event lib fs nvs eng id f n).1
delete_event-IsValid lib fs nvs eng id f n v =
    Deleted-IsValid lib fs nvs eng id f n v (delete_event-Deleted lib fs nvs eng id f n v.ready)

pub delete_event-next :
    (lib : Library) (fs : FileSystem) (nvs : Nvs) (eng : Engine) (id : Bytes) (f : fs.Files)
    (n : nvs.Store)
    → IsValid eng
    → (delete_event lib fs nvs eng id f n).1.next_file_index ≡ eng.next_file_index
delete_event-next lib fs nvs eng id f n v =
    elim (delete_event-Deleted lib fs nvs eng id f n v.ready) [
      | missing a s same keep ↦ rw same refl
      | flagged i e h s same files ↦ rw same refl
    ]

-- The entry of another event, and its file.
pub delete_event-entry :
    (lib : Library) (fs : FileSystem) (laws : FileLaws fs) (nvs : Nvs) (eng : Engine) (id : Bytes)
    (f : fs.Files) (n : nvs.Store) (id' : Bytes) (x : IndexEntry)
    → IsValid eng
    → id' ≢ id
    → lookup eng id' ≡ some x
    → let out = delete_event lib fs nvs eng id f n in
      (lookup out.1 id' ≡ some x) × (fs.read (path_of x) out.2 ≡ fs.read (path_of x) f)
delete_event-entry lib fs laws nvs eng id f n id' x v ne there =
    elim (delete_event-Deleted lib fs nvs eng id f n v.ready) [
      | missing a s same keep ↦ rw (same, keep) (there, refl)
      | flagged i e h s same files ↦
          let (got, hit, found) = find_index_entry-some eng id i e h in
          let kept =
            first_where-set_other (is_live id') (entries eng) i e (mark_deleted e) got
              (is_live-ne id id' e ne hit) (is_live-mark_deleted id' e) in
          rw (same, files)
            (
              rw (entries-put_entry eng v i e (mark_deleted e) got) (kept ∙ there),
              laws.unlink_other (path_of e) (path_of x) f
                  (path_of-ne e x (distinct_numbers eng id id' e x v ne found there)),
            )
    ]

-- On a valid engine `storage_delete_event` succeeds exactly for an event that is live, and
-- afterwards the event is not in the dictionary.
pub delete_event_removes :
    (lib : Library) (fs : FileSystem) (laws : FileLaws fs) (nvs : Nvs) (eng : Engine) (id : Bytes)
    (f : fs.Files) (n : nvs.Store)
    → IsValid eng
    → let out = delete_event lib fs nvs eng id f n in
      ((out.0 ≡ ok) ↔ ((e : IndexEntry) × (lookup eng id ≡ some e)))
      × (content lib fs laws out.1 out.2 id ≡ none)
delete_event_removes lib fs laws nvs eng id f n v =
    let d = delete_event-Deleted lib fs nvs eng id f n v.ready in
    (Deleted-result lib fs nvs eng id f n v d, rw (Deleted-gone lib fs nvs eng id f n v d) refl)

-- On a valid engine and a file system that keeps its laws, `storage_delete_event` leaves every
-- other event in the dictionary as it was.
pub delete_event_keeps_others :
    (lib : Library) (fs : FileSystem) (laws : FileLaws fs) (nvs : Nvs) (eng : Engine) (id : Bytes)
    (f : fs.Files) (n : nvs.Store) (id' : Bytes)
    → IsValid eng
    → id' ≢ id
    → let out = delete_event lib fs nvs eng id f n in
      content lib fs laws out.1 out.2 id' ≡ content lib fs laws eng f id'
delete_event_keeps_others lib fs laws nvs eng id f n id' v ne =
    Deleted-others lib fs nvs eng id f n v laws id' ne
      (delete_event-Deleted lib fs nvs eng id f n v.ready)

-- What the engine makes of the bytes of a file.
abbrev pub decode : Library → Bool → Option Bytes → Option Event
decode lib mem none = none
decode lib mem (some json) =
    if ltb 0 (length json) && leb (length json) max_event_size && mem then lib.parse json else none

pub load_event-decode :
    (lib : Library) (fs : FileSystem) (mem : Bool) (f : fs.Files) (e : IndexEntry)
    → load_event_from_file lib fs mem (path_of e) f ≡ decode lib mem (fs.read (path_of e) f)
unfolding load_event_from_file
load_event-decode lib fs mem f e = elim (Option-cases (fs.read (path_of e) f)) [
  | inl h ↦ rw (h, load_event_from_file) refl
  | inr (b, h) ↦ rw (h, load_event_from_file) refl
]

get_ready :
    (lib : Library) (fs : FileSystem) (eng : Engine) (id : Bytes) (mem : Bool) (f : fs.Files)
    → eng.initialized ≡ true
    → get_event lib fs eng id mem f ≡ (elim (find_index_entry eng id) [
      | none ↦ none
      | some (i, e) ↦ load_event_from_file lib fs mem (path_of e) f
    ])
unfolding get_event
get_ready lib fs eng id mem f h = ground arith

-- On an engine that is set up, `storage_get_event` gives the event that the bytes of the dictionary
-- stand for, if they are no more than 8192 and a buffer for them can be allocated.
pub get_event-content :
    (lib : Library) (fs : FileSystem) (laws : FileLaws fs) (eng : Engine) (id : Bytes) (mem : Bool)
    (f : fs.Files)
    → eng.initialized ≡ true
    → get_event lib fs eng id mem f ≡ decode lib mem (content lib fs laws eng f id)
get_event-content lib fs laws eng id mem f ready =
    get_ready lib fs eng id mem f ready ∙ (elim (Option-cases (find_index_entry eng id)) [
      | inl h ↦ rw h (rw (find_index_entry-none eng id h) refl)
      | inr ((i, e), h) ↦
          rw h (rw (find_index_entry-some eng id i e h).2 (load_event-decode lib fs mem f e))
    ])

decode_lem :
    (lib : Library) (json : Bytes) (ev : Event)
    → 0 < length json
    → length json ≤ max_event_size
    → lib.parse json ≡ some ev
    → decode lib true (some json) ≡ some ev
decode_lem lib json ev pos small parses = ground arith

-- Let the engine be valid, a file number be left, the file system keep its laws, and the library parse
-- what it has serialised, which is not empty and has at most 8192 bytes. Then an event that was saved
-- with success is read back as it was, if the `fclose` of its file succeeded and the read buffer can
-- be allocated.
pub get-save_event :
    (lib : Library) (fs : FileSystem) (laws : FileLaws fs) (nvs : Nvs) (eng : Engine) (ev : Event)
    (mem : Bool) (now : ℕ) (f : fs.Files) (n : nvs.Store) (json : Bytes)
    → IsValid eng
    → eng.next_file_index + 1 < 2 ^ 32
    → lib.serialize ev max_event_size ≡ some json
    → 0 < length json
    → length json ≤ max_event_size
    → lib.parse json ≡ some ev
    → (save_event lib fs nvs eng ev mem now f n).0 ≡ ok
    → flush lib fs laws (event_path ev.id eng.next_file_index) json f ≡ true
    → let out = save_event lib fs nvs eng ev mem now f n in
      get_event lib fs out.1 ev.id true out.2 ≡ some ev
get-save_event lib fs laws nvs eng ev mem now f n json v space s pos small parses done closed =
    let out = save_event lib fs nvs eng ev mem now f n in
    get_event-content lib fs laws out.1 ev.id true out.2
      (save_event-IsValid lib fs nvs eng ev mem now f n v space).ready
    ∙ ap (decode lib true)
        (save_event_stores lib fs laws nvs eng ev mem now f n v done (rw s closed) ∙ s)
    ∙ decode_lem lib json ev pos small parses
