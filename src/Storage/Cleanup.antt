-- ===== src/Storage/Cleanup.antt =====
-- `storage_cleanup_task` of main/storage_engine.c.
use wisp_esp.Base.{ℕ, ◌+◌, leb, if_ind}
use wisp_esp.Storage.Types.{Engine, FileSystem, Library, Nvs}
use wisp_esp.Storage.Sweep.{purge_expired, cleanup_cycle}
use wisp_esp.Storage.Invariant.{IsValid}
use wisp_esp.Storage.Purge.{purge_expired-IsValid}
use wisp_esp.Storage.Compaction.{compact_index-IsValid}

-- A round of the task keeps a valid index valid.
pub cleanup_cycle-IsValid :
    (lib : Library) (fs : FileSystem) (nvs : Nvs) (cycles : ℕ) (eng : Engine) (time : ℕ)
    (f : fs.Files) (n : nvs.Store)
    → IsValid eng
    → IsValid (cleanup_cycle fs nvs cycles eng time f n).1
unfolding cleanup_cycle
cleanup_cycle-IsValid lib fs nvs cycles eng time f n v =
    let out = purge_expired fs nvs eng time f n in
    let purged = purge_expired-IsValid lib fs nvs eng time f n v in
    if_ind (λ (res : ℕ × Engine × fs.Files × nvs.Store). IsValid res.1) (leb 10 (cycles + 1))
      (λ e. compact_index-IsValid nvs out.1 out.3 purged) λ e. purged
