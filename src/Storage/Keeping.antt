-- ===== src/Storage/Keeping.antt =====
-- The calls of main/storage_engine.c that take no new file number: they keep the index valid and the
-- next number as it is.
use wisp_esp.Base.{ℕ, ◌≡◌, refl, sym, ◌∙◌, subst, Bool, true, false, List, [], if◌then◌else◌}
use wisp_esp.Protocol.{Bytes, Event, Filter}
use wisp_esp.Storage.Types.{
  StorageError, no_mem, not_initialized, Engine, FilePath, FileSystem, FileLaws, Library, Nvs,
}
use wisp_esp.Storage.Ops.{delete_event}
use wisp_esp.Storage.Query.{query_events, query_locked}
use wisp_esp.Storage.Invariant.{IsValid}
use wisp_esp.Storage.Searching.{query_events-IsValid, query_events-next}
use wisp_esp.Storage.Deleting.{delete_event-IsValid, delete_event-next}

pub record Keeps (next : ℕ) (eng : Engine) : Type 0 where
  pub valid : IsValid eng
  pub same : eng.next_file_index ≡ next

pub delete_event-Keeps :
    (lib : Library) (fs : FileSystem) (nvs : Nvs) (next : ℕ) (eng : Engine) (id : Bytes)
    (f : fs.Files) (n : nvs.Store)
    → Keeps next eng
    → Keeps next (delete_event lib fs nvs eng id f n).1
delete_event-Keeps lib fs nvs next eng id f n k = record {
  valid = delete_event-IsValid lib fs nvs eng id f n k.valid;
  same = delete_event-next lib fs nvs eng id f n k.valid ∙ k.same;
}

-- Both branches of a guard that leave the engine as it is.
guarded-Keeps :
    {F : Type 0}
    → (next : ℕ) (eng : Engine) (b : Bool) (x y : StorageError × Engine × F × List Event)
    → x.1 ≡ eng
    → y.1 ≡ eng
    → Keeps next eng
    → Keeps next (if b then x else y).1
guarded-Keeps next eng true x y ex ey v = subst (Keeps next) (sym ex) v
guarded-Keeps next eng false x y ex ey v = subst (Keeps next) (sym ey) v

-- Also where the array of results cannot be allocated.
pub query_events-Keeps :
    (lib : Library) (fs : FileSystem) (laws : FileLaws fs) (next : ℕ) (eng : Engine)
    (filter : Filter) (limit : ℕ) (room : Bool) (mem : FilePath → Bool) (time : ℕ) (f : fs.Files)
    → Keeps next eng
    → Keeps next (query_events lib fs eng filter limit room mem time f).1
unfolding query_events query_locked
query_events-Keeps lib fs laws next eng filter limit true mem time f k = record {
  valid = query_events-IsValid lib fs laws filter limit mem time f eng k.valid;
  same = query_events-next lib fs laws filter limit mem time f eng k.valid ∙ k.same;
}
query_events-Keeps lib fs laws next eng filter limit false mem time f k =
    guarded-Keeps next eng eng.initialized (no_mem, eng, f, []) (not_initialized, eng, f, []) refl
      refl k
