-- ===== src/Storage/Types.antt =====
-- main/storage_engine.h: the index entry, the engine and its limits; and what the engine takes from
-- the file system, from NVS and from libnostr-c, none of which is code of the repository.
use wisp_esp.Base.{
  ℕ, ◌+◌, ◌%◌, ◌≡◌, ◌≢◌, Bool, true, List, [], ◌∷◌, Option, none, some, ◌==◌, if◌then◌else◌, take,
  length,
}
use wisp_esp.Base.Int.{ℤ}
use wisp_esp.Protocol.{Text, Bytes, Event, Filter}

abbrev pub max_events : ℕ
max_events = 5000

abbrev pub max_event_size : ℕ
max_event_size = 8192

-- The size of the index where there is no PSRAM.
abbrev pub small_index : ℕ
small_index = 1000

pub data StorageError : Type 0 where
  ok not_initialized full duplicate not_found io no_mem serialize_failed : StorageError

-- `storage_index_entry_t` without its reserved byte.
pub record IndexEntry : Type 0 where
  pub event_id : Bytes
  pub created_at : ℕ
  pub expires_at : ℕ
  pub file_index : ℕ
  pub kind : ℕ
  pub pubkey_prefix : Bytes
  pub flags : ℕ

-- `entry->flags & STORAGE_FLAG_DELETED` and `entry->flags |= STORAGE_FLAG_DELETED`
abbrev pub is_deleted : IndexEntry → Bool
is_deleted e = e.flags % 2 == 1

abbrev pub mark_deleted : IndexEntry → IndexEntry
mark_deleted e = record e { flags = if e.flags % 2 == 1 then e.flags else e.flags + 1 }

-- `index` is the whole array, of `max_index_entries` cells; the first `index_count` are in use. It is
-- empty where there is none, `lock` tells whether the mutex is there, and `mounted` whether LittleFS
-- is.
pub record Engine : Type 0 where
  pub index : List IndexEntry
  pub index_count : ℕ
  pub max_index_entries : ℕ
  pub next_file_index : ℕ
  pub initialized : Bool
  pub default_ttl_sec : ℕ
  pub lock : Bool
  pub mounted : Bool

-- The cells in use.
abbrev pub entries : Engine → List IndexEntry
entries eng = take eng.index_count eng.index

-- A path `/littlefs/events/<dir>/<name>_<index>.bin` by the parts that `get_event_path` prints:
-- the first byte of the identifier, its first sixteen bytes in hexadecimal, and eight digits.
pub record FilePath : Type 0 where
  pub dir : ℕ
  pub name : Bytes
  pub number : ℕ

abbrev pub first_byte : Bytes → ℕ
first_byte [] = 0
first_byte (b ∷ bs) = b

-- `get_event_path`
abbrev pub event_path : Bytes → ℕ → FilePath
event_path id n = record { dir = first_byte id; name = take 16 id; number = n }

abbrev pub path_of : IndexEntry → FilePath
path_of e = event_path e.event_id e.file_index

-- The file system. `fwrite` tells how many bytes the stream took, and `fclose` whether what it still
-- held could be flushed; `read` is opening, measuring and reading a whole file.
pub record FileSystem : Type 1 where
  pub Files : Type 0
  pub fopen_wb : FilePath → Files → Bool × Files
  pub mkdir : ℕ → Files → Files
  pub fwrite : FilePath → Bytes → Files → ℕ × Files
  pub fclose : FilePath → Files → Bool × Files
  pub unlink : FilePath → Files → Files
  pub read : FilePath → Files → Option Bytes

-- What the engine relies on: an operation on one path leaves the files at others alone; a file reads
-- back if its stream took every byte and its `fclose` succeeded; a file that was unlinked is gone.
pub record FileLaws (fs : FileSystem) : Type 0 where
  pub open_other :
      (p q : FilePath) (f : fs.Files) → p ≢ q → fs.read q (fs.fopen_wb p f).1 ≡ fs.read q f
  pub mkdir_keeps : (d : ℕ) (q : FilePath) (f : fs.Files) → fs.read q (fs.mkdir d f) ≡ fs.read q f
  pub write_other :
      (p q : FilePath) (b : Bytes) (f : fs.Files)
      → p ≢ q
      → fs.read q (fs.fwrite p b f).1 ≡ fs.read q f
  pub close_other :
      (p q : FilePath) (f : fs.Files) → p ≢ q → fs.read q (fs.fclose p f).1 ≡ fs.read q f
  pub write_self :
      (p : FilePath) (b : Bytes) (f : fs.Files)
      → (fs.fopen_wb p f).0 ≡ true
      → (fs.fwrite p b (fs.fopen_wb p f).1).0 ≡ length b
      → (fs.fclose p (fs.fwrite p b (fs.fopen_wb p f).1).1).0 ≡ true
      → fs.read p (fs.fclose p (fs.fwrite p b (fs.fopen_wb p f).1).1).1 ≡ some b
  pub unlink_self : (p : FilePath) (f : fs.Files) → fs.read p (fs.unlink p f) ≡ none
  pub unlink_other :
      (p q : FilePath) (f : fs.Files) → p ≢ q → fs.read q (fs.unlink p f) ≡ fs.read q f

-- The functions of libnostr-c that the engine calls. `serialize` fails where the text does not fit
-- the buffer; `hex_to_bytes s n k` reads `n` digits of `s` into `k` bytes.
pub record Library : Type 0 where
  pub serialize : Event → ℕ → Option Bytes
  pub parse : Bytes → Option Event
  pub get_expiration : Event → ℤ
  pub hex_to_bytes : Text → ℕ → ℕ → Option Bytes
  pub filter_matches : Filter → Event → Bool

-- The answer of `nvs_erase_key`.
pub data Erased : Type 0 where
  erased absent erase_failed : Erased

-- The answer of `nvs_open` for reading.
pub data Opened : Type 0 where
  available missing unavailable : Opened

-- The namespace `nostr_idx` of NVS. A blob holds the entries of one chunk of the index; the chunk's
-- number stands for its key `idx_<number>`. The Boolean results are `ESP_OK`.
pub record Nvs : Type 1 where
  pub Store : Type 0
  pub open_rw : Store → Bool × Store
  pub set_count : ℕ → Store → Bool × Store
  pub set_next_idx : ℕ → Store → Bool × Store
  pub set_blob : ℕ → List IndexEntry → Store → Bool × Store
  pub erase_blob : ℕ → Store → Erased × Store
  pub commit : Store → Bool × Store
  pub open_ro : Store → Opened
  pub get_count : Store → Option ℕ
  pub get_next_idx : Store → Option ℕ
  pub get_blob : ℕ → ℕ → Store → Option (List IndexEntry)
