-- ===== src/Storage/FlushTests.antt =====
-- `storage_save_event` of main/storage_engine.c on a file system whose `fclose` cannot flush.
use wisp_esp.Base.{ℕ, ◌≡◌, refl, false, true, none, length, find_entry, bytes_eq}
use wisp_esp.Storage.Types.{StorageError, ok, Engine, FileSystem}
use wisp_esp.Storage.Ops.{
  find_index_entry, expiry, new_entry, append_entry, open_event_file, write_event_file,
  load_event_from_file, save_locked, save_event, get_event,
}
use wisp_esp.Storage.Tests.{Contents, disk, flash, plain, ready, note, blank}

-- Every write goes to a buffer, which is lost when the file is closed.
abbrev leaky : FileSystem
leaky = record disk { fwrite = λ p b f. (length b, f); fclose = λ p f. (false, f) }

abbrev lost : StorageError × Engine × Contents × ℕ
lost = save_event plain leaky flash ready note true 1000 blank 0

-- The save reports success, and the event cannot be read.
lost_ok : lost.0 ≡ ok
unfolding save_event save_locked find_index_entry find_entry write_event_file open_event_file
    new_entry append_entry expiry
lost_ok = refl

lost_none : get_event plain leaky lost.1 note.id true lost.2 ≡ none
unfolding save_event save_locked find_index_entry find_entry write_event_file open_event_file
    new_entry append_entry expiry get_event load_event_from_file bytes_eq
lost_none = refl
