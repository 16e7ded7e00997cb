-- ===== src/Storage/Saving.antt =====
-- `storage_save_event`: its status, the invariant, and the dictionary afterwards.
use wisp_esp.Base.{
  ℕ, ◌+◌, ◌^◌, ◌<◌, ◌≡◌, ◌≢◌, refl, sym, ap, ◌∙◌, inl, inr, Bool, true, false, Option, none, some,
  [], ◌∷◌, arith, leb, Bool-cases, Option-cases, bytes_eq_refl, first_where,
  first_where-append_none, first_where-append_miss, All-first_where, bytes_eq_ne,
}
use wisp_esp.Protocol.{Bytes, Event}
use wisp_esp.Storage.Types.{
  StorageError, ok, full, duplicate, io, no_mem, serialize_failed, IndexEntry, Engine, entries,
  FilePath, event_path, path_of, FileSystem, FileLaws, Library, Nvs, max_event_size,
}
use wisp_esp.Storage.Ops.{
  is_live, find_index_entry, new_entry, append_entry, write_event_file, save_locked, save_event,
}
use wisp_esp.Storage.Numbering.{Ascending-below}
use wisp_esp.Storage.Invariant.{IsValid, entries-append_entry, append_entry-IsValid}
use wisp_esp.Storage.Content.{
  lookup, content, bytes_at, flush, find_index_entry-some, find_index_entry-none,
  write_event_file_other, write_event_file_self,
}

-- The status that `storage_save_event` owes, by the first test that fails.
abbrev pub save_status : Option IndexEntry → Bool → Bool → Option Bytes → Bool → StorageError
save_status (some e) at_end mem json written = duplicate
save_status none true mem json written = full
save_status none false false json written = no_mem
save_status none false true none written = serialize_failed
save_status none false true (some b) false = io
save_status none false true (some b) true = ok

-- Whether the file of the event can be written.
abbrev pub writable : Library → (fs : FileSystem) → FilePath → Option Bytes → fs.Files → Bool
writable lib fs path none f = false
writable lib fs path (some b) f = (write_event_file lib fs path b f).0

-- Whether the file of the event could be flushed when it was closed.
abbrev pub flushed :
    (lib : Library) (fs : FileSystem) → FileLaws fs → FilePath → Option Bytes → fs.Files → Bool
flushed lib fs laws path none f = true
flushed lib fs laws path (some b) f = flush lib fs laws path b f

module _ (lib : Library) (fs : FileSystem) (nvs : Nvs) (eng : Engine) (ev : Event) (mem : Bool)
    (now : ℕ) (f : fs.Files) (n : nvs.Store) where
  abbrev pub Out : Type 0
  Out = StorageError × Engine × fs.Files × nvs.Store

  abbrev pub result : Out
  result = save_event lib fs nvs eng ev mem now f n

  abbrev pub path : FilePath
  path = event_path ev.id eng.next_file_index

  abbrev pub written : Bytes → Bool × fs.Files
  written b = write_event_file lib fs path b f

  abbrev pub grown : Engine
  grown = append_entry eng (new_entry lib eng ev now)

  -- The ways through the function: nothing is touched, only the new file is, or the event is in.
  pub data Saved (out : Out) : Type 0 where
    refused : out.0 ≢ ok → out.1 ≡ eng → out.2 ≡ f → Saved out
    unwritten : (b : Bytes) → out.0 ≢ ok → out.1 ≡ eng → out.2 ≡ (written b).1 → Saved out
    stored :
        (b : Bytes)
        → lookup eng ev.id ≡ none
        → eng.index_count < eng.max_index_entries
        → lib.serialize ev max_event_size ≡ some b
        → (written b).0 ≡ true
        → out.1 ≡ grown
        → out.2 ≡ (written b).1
        → Saved out

  abbrev at_end : Bool
  at_end = leb eng.max_index_entries eng.index_count

  abbrev Statement : Out → Type 0
  Statement out =
      Saved out
      × (out.0
          ≡ save_status (lookup eng ev.id) at_end mem (lib.serialize ev max_event_size)
              (writable lib fs path (lib.serialize ev max_event_size) f))

  save_locked-Saved : Statement (save_locked lib fs nvs eng ev mem now f n)
  unfolding save_locked
  save_locked-Saved = elim (Option-cases (find_index_entry eng ev.id)) [
    | inr ((i, e), h) ↦
        let found = (find_index_entry-some eng ev.id i e h).2 in
        rw (h, save_locked) (rw found (refused (λ k. cc) refl refl, refl))
    | inl h ↦
        let absent = find_index_entry-none eng ev.id h in
        rw (h, save_locked)
          (rw absent (elim (Bool-cases at_end) [
            | inl e ↦ rw e (refused (λ k. cc) refl refl, refl)
            | inr e ↦ elim (Bool-cases mem) [
              | inr m ↦ rw (e, m) (refused (λ k. cc) refl refl, refl)
              | inl m ↦ elim (Option-cases (lib.serialize ev max_event_size)) [
                | inl s ↦ rw (e, m) (rw (s, save_locked) (refused (λ k. cc) refl refl, refl))
                | inr (b, s) ↦ elim (Bool-cases (written b).0) [
                  | inr w ↦
                      rw (e, m) (rw (s, save_locked) (rw w (unwritten b (λ k. cc) refl refl, refl)))
                  | inl w ↦
                      rw (e, m)
                        (rw (s, save_locked)
                          (rw w (stored b absent (ground arith) s w refl refl, refl)))
                ]
              ]
            ]
          ]))
  ]

  locked : eng.initialized ≡ true → result ≡ save_locked lib fs nvs eng ev mem now f n
  unfolding save_event
  locked h = ground arith

  pub save_event-Saved : eng.initialized ≡ true → Statement result
  save_event-Saved h = rw (locked h) save_locked-Saved

  module _ (v : IsValid eng) where
    -- A saved event takes the next cell; after an error the index is as before.
    Saved-IsValid : {out : Out} → eng.next_file_index + 1 < 2 ^ 32 → Saved out → IsValid out.1
    Saved-IsValid space (refused e same keep) = rw same v
    Saved-IsValid space (unwritten b e same keep) = rw same v
    Saved-IsValid space (stored b absent room s w same files) =
        rw same (entry-IsValid space absent room)
      where
        entry-IsValid :
            eng.next_file_index + 1 < 2 ^ 32
            → lookup eng ev.id ≡ none
            → eng.index_count < eng.max_index_entries
            → IsValid grown
        entry-IsValid space absent room =
            unfold new_entry in
            append_entry-IsValid eng v (new_entry lib eng ev now) room space refl absent

    module _ (laws : FileLaws fs) where
      -- The file of a live entry is another file than the new one.
      old_file :
          (id : Bytes) (e : IndexEntry) (b : Bytes)
          → lookup eng id ≡ some e
          → fs.read (path_of e) (written b).1 ≡ fs.read (path_of e) f
      old_file id e b found =
          let below = Ascending-below 0 eng.next_file_index (entries eng) v.numbered in
          let less =
            All-first_where (λ k. k.file_index < eng.next_file_index) (is_live id) (entries eng) e
              below found in
          write_event_file_other lib fs laws path (path_of e) b f
            λ same. absurd (omega (arith, ap (λ (p : FilePath). p.number) same, less))

      old_content :
          (id : Bytes) (b : Bytes)
          → bytes_at lib fs laws (lookup eng id) (written b).1 ≡ content lib fs laws eng f id
      old_content id b = elim (Option-cases (lookup eng id)) [
        | inl e ↦ rw e refl
        | inr (e, found) ↦ rw found (old_file id e b found)
      ]

      lookup-grown_other :
          (id : Bytes)
          → id ≢ ev.id
          → eng.index_count < eng.max_index_entries
          → lookup grown id ≡ lookup eng id
      unfolding new_entry
      lookup-grown_other id ne room =
          let new = new_entry lib eng ev now in
          rw (entries-append_entry eng v new room) (
            first_where-append_miss (is_live id) (entries eng) new
              (rw (bytes_eq_ne ev.id id (λ e. ne (sym e)))))

      pub lookup-grown_self :
          lookup eng ev.id ≡ none
          → eng.index_count < eng.max_index_entries
          → lookup grown ev.id ≡ some (new_entry lib eng ev now)
      unfolding new_entry first_where
      lookup-grown_self absent room =
          let new = new_entry lib eng ev now in
          rw (entries-append_entry eng v new room) (
            first_where-append_none (is_live ev.id) (entries eng) (new ∷ []) absent
            ∙ rw (bytes_eq_refl ev.id))

      Saved-others :
          {out : Out} (id : Bytes)
          → id ≢ ev.id
          → Saved out
          → content lib fs laws out.1 out.2 id ≡ content lib fs laws eng f id
      Saved-others id ne (refused e same keep) = rw (same, keep)
      Saved-others id ne (unwritten b e same keep) = rw (same, keep) (old_content id b)
      Saved-others id ne (stored b absent room s w same files) =
          rw (same, files) (rw (lookup-grown_other id ne room) (old_content id b))

      Saved-stores :
          {out : Out}
          → out.0 ≡ ok
          → flushed lib fs laws path (lib.serialize ev max_event_size) f ≡ true
          → Saved out
          → content lib fs laws out.1 out.2 ev.id ≡ lib.serialize ev max_event_size
      Saved-stores h fl (refused e same keep) = absurd (e h)
      Saved-stores h fl (unwritten b e same keep) = absurd (e h)
      Saved-stores h fl (stored b absent room s w same files) =
          let flushes : flush lib fs laws path b f ≡ true = rw s at fl in
          rw (same, files, lookup-grown_self absent room, s)
            (unfold new_entry in write_event_file_self lib fs laws path b f w flushes)

pub save_event_status :
    (lib : Library) (fs : FileSystem) (nvs : Nvs) (eng : Engine) (ev : Event) (mem : Bool) (now : ℕ)
    (f : fs.Files) (n : nvs.Store)
    → eng.initialized ≡ true
    → (save_event lib fs nvs eng ev mem now f n).0
      ≡ save_status
          (lookup eng ev.id)
          (leb eng.max_index_entries eng.index_count)
          mem
          (lib.serialize ev max_event_size)
          (writable lib fs
            (event_path ev.id eng.next_file_index)
            (lib.serialize ev max_event_size)
            f)
save_event_status lib fs nvs eng ev mem now f n h =
    (save_event-Saved lib fs nvs eng ev mem now f n h).1

-- `storage_save_event` keeps a valid index valid, on every path, as long as the file numbers have not
-- run through 32 bits.
pub save_event-IsValid :
    (lib : Library) (fs : FileSystem) (nvs : Nvs) (eng : Engine) (ev : Event) (mem : Bool) (now : ℕ)
    (f : fs.Files) (n : nvs.Store)
    → IsValid eng
    → eng.next_file_index + 1 < 2 ^ 32
    → IsValid (save_event lib fs nvs eng ev mem now f n).1
save_event-IsValid lib fs nvs eng ev mem now f n v space =
    Saved-IsValid lib fs nvs eng ev mem now f n v space
      (save_event-Saved lib fs nvs eng ev mem now f n v.ready).0

module _ (lib : Library) (fs : FileSystem) (laws : FileLaws fs) (nvs : Nvs) (eng : Engine)
    (ev : Event) (mem : Bool) (now : ℕ) (f : fs.Files) (n : nvs.Store) (v : IsValid eng) where
  -- On a valid engine and a file system that keeps its laws, a save that succeeds puts the
  -- serialised event into the dictionary, provided that the `fclose` of its file succeeded, which
  -- `storage_save_event` does not look at.
  pub save_event_stores :
      (save_event lib fs nvs eng ev mem now f n).0 ≡ ok
      → flushed lib fs laws
          (event_path ev.id eng.next_file_index)
          (lib.serialize ev max_event_size)
          f
        ≡ true
      → let out = save_event lib fs nvs eng ev mem now f n in
        content lib fs laws out.1 out.2 ev.id ≡ lib.serialize ev max_event_size
  save_event_stores h fl =
      Saved-stores lib fs nvs eng ev mem now f n v laws h fl
        (save_event-Saved lib fs nvs eng ev mem now f n v.ready).0

  -- On a valid engine and a file system that keeps its laws, a save leaves every other event in the
  -- dictionary as it was, whether it succeeds or not.
  pub save_event_keeps_others :
      (id : Bytes)
      → id ≢ ev.id
      → let out = save_event lib fs nvs eng ev mem now f n in
        content lib fs laws out.1 out.2 id ≡ content lib fs laws eng f id
  save_event_keeps_others id ne =
      Saved-others lib fs nvs eng ev mem now f n v laws id ne
        (save_event-Saved lib fs nvs eng ev mem now f n v.ready).0
