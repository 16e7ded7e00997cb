-- ===== src/Storage/Tests.antt =====
-- Runs of main/storage_engine.c at concrete inputs, and its theorems there. The file system of
-- these runs is a map from paths to bytes in which every call succeeds; the library writes every
-- event as two bytes and reads them back as `note`; NVS counts its commits and holds no index.
use wisp_esp.Base.{
  ℕ, take, ◌+◌, ◌*◌, ◌^◌, ◌≡◌, ◌≢◌, ◌↔◌, refl, sym, inl, inr, Bool, true, false, ◌&&◌, Option, none,
  some, [], ◌∷◌, arith, length, ◌==◌, if◌then◌else◌, bytes_eq, bytes_eq_refl, bytes_eq_sound,
  Bool-cases, find_entry, first_where, count_where, replicate, to_u32,
}
use wisp_esp.Base.Int.{ℤ, pos}
use wisp_esp.Protocol.{Bytes, Event, Filter}
use wisp_esp.Storage.Types.{
  StorageError, ok, IndexEntry, Engine, entries, is_deleted, FilePath, FileSystem, FileLaws,
  Library, absent, missing, Nvs,
}
use wisp_esp.Storage.Persist.{blank_engine}
use wisp_esp.Storage.Ops.{
  find_index_entry, expiry, new_entry, append_entry, open_event_file, write_event_file, save_locked,
  load_event_from_file, save_event, delete_event, get_event,
}
use wisp_esp.Storage.Sweep.{
  is_due, is_expired, purge_loop, purge_locked, purge_expired, compact_index,
}
use wisp_esp.Storage.Invariant.{IsValid}
use wisp_esp.Storage.Content.{lookup, content, bytes_at}
use wisp_esp.Storage.Saving.{save_event-IsValid, save_event_stores, save_event_keeps_others}
use wisp_esp.Storage.Deleting.{delete_event_removes, delete_event_keeps_others, get-save_event}
use wisp_esp.Storage.Purge.{unless_due, purge_expired-IsValid, purge_expired-content}
use wisp_esp.Storage.Keepsake.{query_events_keeps}
use wisp_esp.Storage.Compaction.{live_only, compact_index-live_only}
use wisp_esp.Storage.Query.{
  index_matches_filter, query_entry, query_step, query_loop, query_locked, query_events,
}
use wisp_esp.Storage.Answers.{answers}
use wisp_esp.Storage.Searching.{query_events-answers}
use wisp_esp.Storage.Expiry.{expiry_never}

abbrev pub Contents : Type 0
Contents = FilePath → Option Bytes

abbrev same_path : FilePath → FilePath → Bool
same_path p q = (p.dir == q.dir) && bytes_eq p.name q.name && (p.number == q.number)

abbrev put : FilePath → Option Bytes → Contents → Contents
put p v f q = if same_path p q then v else f q

abbrev pub disk : FileSystem
disk = record {
  Files = Contents;
  fopen_wb = λ p f. (true, put p (some []) f);
  mkdir = λ d f. f;
  fwrite = λ p b f. (length b, put p (some b) f);
  fclose = λ p f. (true, f);
  unlink = λ p f. put p none f;
  read = λ p f. f p;
}

put_self : (p : FilePath) (v : Option Bytes) (f : Contents) → put p v f p ≡ v
put_self p v f = ground (arith, bytes_eq_refl p.name)

same_path_sound : (p q : FilePath) → same_path p q ≡ true → p ≡ q
same_path_sound p q h =
    let name = bytes_eq_sound p.name q.name (ground arith) in
    let dir : p.dir ≡ q.dir = ground arith in let number : p.number ≡ q.number = ground arith in cc

put_other : (p q : FilePath) (v : Option Bytes) (f : Contents) → p ≢ q → put p v f q ≡ f q
put_other p q v f ne = elim (Bool-cases (same_path p q)) [
  | inr off ↦ rw off refl
  | inl on ↦ absurd (ne (same_path_sound p q on))
]

pub disk_laws : FileLaws disk
disk_laws = record {
  open_other = λ p q f ne. put_other p q (some []) f ne;
  mkdir_keeps = λ d q f. refl;
  write_other = λ p q b f ne. put_other p q (some b) f ne;
  close_other = λ p q f ne. refl;
  write_self = λ p b f opened whole flushed. put_self p (some b) (put p (some []) f);
  unlink_self = λ p f. put_self p none f;
  unlink_other = λ p q f ne. put_other p q none f ne;
}

abbrev pub flash : Nvs
flash = record {
  Store = ℕ;
  open_rw = λ n. (true, n);
  set_count = λ c n. (true, n);
  set_next_idx = λ c n. (true, n);
  set_blob = λ c es n. (true, n);
  erase_blob = λ c n. (absent, n);
  commit = λ n. (true, n + 1);
  open_ro = λ n. missing;
  get_count = λ n. none;
  get_next_idx = λ n. none;
  get_blob = λ c k n. none;
}

abbrev pub note : Event
note = record {
  id = replicate 32 7;
  pubkey = replicate 32 2;
  created_at = pos 900;
  kind = 1;
  tags = [];
  content = [];
  sig = [];
}

abbrev pub json : Bytes
json = b'{' ∷ b'}' ∷ []

-- The library, with the expiration that it finds in every event.
abbrev lib : ℤ → Library
lib tag = record {
  serialize = λ e room. some json;
  parse = λ b. some note;
  get_expiration = λ e. tag;
  hex_to_bytes = λ s n k. none;
  filter_matches = λ f e. true;
}

abbrev pub plain : Library
plain = lib (pos 0)

abbrev pub ready : Engine
ready = record (blank_engine 3 60) { initialized = true }

ready-IsValid : IsValid ready
unfolding count_where
ready-IsValid = record {
  ready = refl;
  size = refl;
  small = omega arith;
  fits = omega arith;
  single = λ id. omega arith;
  numbered = omega arith;
  numbers = omega arith;
}

abbrev pub blank : Contents
blank p = none

abbrev pub Out : Type 0
Out = StorageError × Engine × Contents × ℕ

abbrev pub once : Out
once = save_event plain disk flash ready note true 1000 blank 0

once_ok : once.0 ≡ ok
unfolding save_event save_locked find_index_entry find_entry write_event_file open_event_file
once_ok = refl

abbrev other_id : Bytes
other_id = replicate 32 8

other-ne : other_id ≢ note.id
other-ne e = cc

pub once-IsValid : IsValid once.1
once-IsValid =
    save_event-IsValid plain disk flash ready note true 1000 blank 0 ready-IsValid (omega arith)

save_event-IsValid_example : IsValid once.1
save_event-IsValid_example =
    save_event-IsValid plain disk flash ready note true 1000 blank 0 ready-IsValid (omega arith)

save_event_stores_example : content plain disk disk_laws once.1 once.2 note.id ≡ some json
save_event_stores_example =
    save_event_stores plain disk disk_laws flash ready note true 1000 blank 0 ready-IsValid once_ok
      refl

save_event_keeps_others_example :
    content plain disk disk_laws once.1 once.2 other_id
    ≡ content plain disk disk_laws ready blank other_id
save_event_keeps_others_example =
    save_event_keeps_others plain disk disk_laws flash ready note true 1000 blank 0 ready-IsValid
      other_id other-ne

get-save_event_example : get_event plain disk once.1 note.id true once.2 ≡ some note
get-save_event_example =
    get-save_event plain disk disk_laws flash ready note true 1000 blank 0 json ready-IsValid
      (omega arith) refl (omega arith) (omega arith) refl once_ok refl

delete_event_removes_example :
    let out = delete_event plain disk flash once.1 note.id once.2 0 in
    ((out.0 ≡ ok) ↔ ((e : IndexEntry) × (lookup once.1 note.id ≡ some e)))
    × (content plain disk disk_laws out.1 out.2 note.id ≡ none)
delete_event_removes_example =
    delete_event_removes plain disk disk_laws flash once.1 note.id once.2 0 once-IsValid

delete_event_keeps_others_example :
    let out = delete_event plain disk flash once.1 other_id once.2 0 in
    content plain disk disk_laws out.1 out.2 note.id
    ≡ content plain disk disk_laws once.1 once.2 note.id
delete_event_keeps_others_example =
    delete_event_keeps_others plain disk disk_laws flash once.1 other_id once.2 0 note.id
      once-IsValid (λ e. other-ne (sym e))

-- The event of second 1000 expires after 1060, so a purge at 2000 drops it.
dropped : (purge_expired disk flash once.1 2000 once.2 0).0 ≡ 1
unfolding save_event save_locked find_index_entry find_entry write_event_file open_event_file
    new_entry append_entry expiry purge_expired purge_locked purge_loop
dropped = refl

purge_expired-content_example :
    let out = purge_expired disk flash once.1 2000 once.2 0 in
    content plain disk disk_laws out.1 out.2 note.id
    ≡ bytes_at plain disk disk_laws (unless_due (to_u32 2000) (lookup once.1 note.id)) once.2
purge_expired-content_example =
    purge_expired-content plain disk flash once.1 2000 once.2 0 once-IsValid disk_laws note.id

-- The index after that purge holds one flagged entry.
abbrev purged : Engine
purged = (purge_expired disk flash once.1 2000 once.2 0).1

purged-IsValid : IsValid purged
purged-IsValid = purge_expired-IsValid plain disk flash once.1 2000 once.2 0 once-IsValid

compact_index-live_only_example :
    (entries (compact_index flash purged 0).1 ≡ live_only (entries purged))
    × ((compact_index flash purged 0).0 ≡ count_where is_deleted (entries purged))
compact_index-live_only_example = compact_index-live_only flash purged 0 purged-IsValid

expiry_never_example : is_expired 5000 (new_entry (lib (pos (2 ^ 32 * 1))) ready note 1000) ≡ false
expiry_never_example =
    expiry_never (lib (pos (2 ^ 32 * 1))) ready note 1000 0 refl (omega arith) 5000

abbrev all_events : Filter
all_events = record {
  ids = [];
  authors = [];
  kinds = [];
  e_tags = [];
  p_tags = [];
  generic_tags = [];
  since = pos 0;
  until = pos 0;
  limit = pos 0;
}

found_note :
    (query_events plain disk once.1 all_events 5 true (λ path. true) 1001 once.2).3 ≡ note ∷ []
unfolding save_event save_locked find_index_entry find_entry write_event_file open_event_file
    new_entry append_entry expiry query_events query_locked query_loop query_step query_entry
    index_matches_filter load_event_from_file bytes_eq
found_note = refl

query_events-answers_example :
    let out = query_events plain disk once.1 all_events 5 true (λ path. true) 1001 once.2 in
    (out.0 ≡ ok)
    × (out.3
        ≡ take 5 (
            answers plain disk disk_laws all_events
              (to_u32 1001)
              (λ path. true)
              once.2
              (entries once.1)))
query_events-answers_example =
    query_events-answers plain disk disk_laws all_events 5 (λ path. true) 1001 once.2 once.1
      once-IsValid

-- The entry of the event that was saved.
abbrev pub note_entry : IndexEntry
note_entry = new_entry plain ready note 1000

pub note_found : lookup once.1 note.id ≡ some note_entry
unfolding save_event save_locked find_index_entry find_entry write_event_file open_event_file
    new_entry append_entry expiry first_where bytes_eq
note_found = refl

pub note_lives : is_due 1001 note_entry ≡ false
unfolding new_entry expiry
note_lives = refl

query_events_keeps_example :
    let out = query_events plain disk once.1 all_events 5 true (λ path. true) 1001 once.2 in
    content plain disk disk_laws out.1 out.2 note.id
    ≡ content plain disk disk_laws once.1 once.2 note.id
query_events_keeps_example =
    query_events_keeps plain disk disk_laws all_events 5 (λ path. true) 1001 once.2 once.1
      once-IsValid note.id note_entry true note_found note_lives
