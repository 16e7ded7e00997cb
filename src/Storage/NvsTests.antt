-- ===== src/Storage/NvsTests.antt =====
-- A run of `save_index_to_nvs` and `storage_init` of main/storage_engine.c at a concrete engine, and
-- the theorem on them there. NVS is a record of its values in which every call succeeds.
use wisp_esp.Base.{
  ℕ, ◌≡◌, refl, Bool, true, false, Option, none, some, List, arith, length, leb, ◌==◌,
  if◌then◌else◌, find_entry,
}
use wisp_esp.Storage.Types.{ok, IndexEntry, entries, Nvs, erased, absent, available, missing}
use wisp_esp.Storage.Persist.{save_index, write_chunks, erase_chunks, init_index, blank_engine}
use wisp_esp.Storage.Ops.{
  find_index_entry, expiry, new_entry, append_entry, open_event_file, write_event_file, save_locked,
  save_event,
}
use wisp_esp.Storage.Invariant.{IsValid}
use wisp_esp.Storage.Chunks.{Keeps, NvsLaws}
use wisp_esp.Storage.Recovery.{init_index-save_index}
use wisp_esp.Storage.Tests.{once, once-IsValid}

pub record Values : Type 0 where
  pub opened : Bool
  pub count : Option ℕ
  pub next : Option ℕ
  pub blobs : ℕ → Option (List IndexEntry)

abbrev pub fitting : ℕ → Option (List IndexEntry) → Option (List IndexEntry)
fitting size none = none
fitting size (some es) = if leb (length es) size then some es else none

abbrev pub put : ℕ → Option (List IndexEntry) → Values → Values
put k v n = record n { blobs = λ j. if j == k then v else n.blobs j }

abbrev pub flash : Nvs
flash = record {
  Store = Values;
  open_rw = λ n. (true, record n { opened = true });
  set_count = λ c n. (true, record n { count = some c });
  set_next_idx = λ c n. (true, record n { next = some c });
  set_blob = λ k es n. (true, put k (some es) n);
  erase_blob = λ k n. ((elim (n.blobs k) [ none ↦ absent | some es ↦ erased ]), put k none n);
  commit = λ n. (true, n);
  open_ro = λ n. if n.opened then available else missing;
  get_count = λ n. n.count;
  get_next_idx = λ n. n.next;
  get_blob = λ k size n. fitting size (n.blobs k);
}

put-Keeps : (k : ℕ) (v : Option (List IndexEntry)) (n : Values) → Keeps flash k n (put k v n)
put-Keeps k v n = record {
  blobs = λ j size lt. let other : (j == k) ≡ false = ground arith in rw other refl;
  count = refl;
  next = refl;
  opens = refl;
}

pub flash_laws : NvsLaws flash
flash_laws = record {
  open_self = λ n h. refl;
  count_self = λ c n h. refl;
  count_opens = λ c n. refl;
  next_self = λ c n h. refl;
  next_count = λ c n. refl;
  next_opens = λ c n. refl;
  blob_self = λ k es n h. ground arith;
  blob_keeps = λ k es n. put-Keeps k (some es) n;
  erase_keeps = λ k n. put-Keeps k none n;
  commit_keeps = λ k n. record { blobs = λ j s lt. refl; count = refl; next = refl; opens = refl };
}

abbrev pub no_values : Values
no_values = record { opened = false; count = none; next = none; blobs = λ j. none }

once_saved : (save_index flash once.1 no_values).0 ≡ ok
unfolding save_event save_locked find_index_entry find_entry write_event_file open_event_file
    new_entry append_entry expiry save_index write_chunks erase_chunks
once_saved = refl

init_index-save_index_example :
    let out =
      init_index flash
        (blank_engine once.1.max_index_entries 60)
        (save_index flash once.1 no_values).1 in
    (entries out ≡ entries once.1) × (out.next_file_index ≡ once.1.next_file_index) × IsValid out
init_index-save_index_example =
    init_index-save_index flash flash_laws once.1 no_values 60 once-IsValid once_saved
