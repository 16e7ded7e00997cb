-- ===== src/Storage/Presence.antt =====
-- `storage_save_event` of main/storage_engine.c: the event is there after a success and after a refusal
-- as a duplicate.
use wisp_esp.Base.{
  ℕ, ◌≡◌, ◌≢◌, sym, ◌∙◌, ◌⊎◌, inl, inr, Bool, true, false, Option, none, some, Option-cases, leb,
}
use wisp_esp.Protocol.{Bytes, Event}
use wisp_esp.Storage.Types.{
  StorageError, ok, duplicate, IndexEntry, Engine, FileSystem, FileLaws, Library, Nvs,
  max_event_size,
}
use wisp_esp.Storage.Ops.{new_entry, save_event}
use wisp_esp.Storage.Invariant.{IsValid}
use wisp_esp.Storage.Content.{lookup}
use wisp_esp.Storage.Saving.{
  Saved, refused, unwritten, stored, save_status, save_event_status, save_event-Saved,
  lookup-grown_self,
}

fresh_not_duplicate :
    (full no_buffer : Bool) (json : Option Bytes) (written : Bool)
    → save_status none full no_buffer json written ≢ duplicate
fresh_not_duplicate true mem json written e = cc
fresh_not_duplicate false false json written e = cc
fresh_not_duplicate false true none written e = cc
fresh_not_duplicate false true (some b) false e = cc
fresh_not_duplicate false true (some b) true e = cc

module _ (lib : Library) (fs : FileSystem) (laws : FileLaws fs) (nvs : Nvs) (eng : Engine)
    (ev : Event) (mem : Bool) (now : ℕ) (f : fs.Files) (n : nvs.Store) (v : IsValid eng) where
  abbrev Out : Type 0
  Out = StorageError × Engine × fs.Files × nvs.Store

  abbrev IsThere : Engine → Type 0
  IsThere eng' = (e : IndexEntry) × (lookup eng' ev.id ≡ some e)

  still-IsThere :
      (out : Out) → IsThere eng → Saved lib fs nvs eng ev mem now f n out → IsThere out.1
  still-IsThere out (e, found) (refused s same keep) = (e, rw same found)
  still-IsThere out (e, found) (unwritten b s same keep) = (e, rw same found)
  still-IsThere out (e, found) (stored b absent room s w same files) = (
    new_entry lib eng ev now,
    rw same (lookup-grown_self lib fs nvs eng ev mem now f n v laws absent room),
  )

  newly-IsThere : (out : Out) → out.0 ≡ ok → Saved lib fs nvs eng ev mem now f n out → IsThere out.1
  newly-IsThere out h (refused s same keep) = absurd (s h)
  newly-IsThere out h (unwritten b s same keep) = absurd (s h)
  newly-IsThere out h (stored b absent room s w same files) = (
    new_entry lib eng ev now,
    rw same (lookup-grown_self lib fs nvs eng ev mem now f n v laws absent room),
  )

  -- After a save that returns `STORAGE_OK` or `STORAGE_ERR_DUPLICATE` on a valid engine, the event has
  -- a live entry.
  pub save_event_present :
      let out = save_event lib fs nvs eng ev mem now f n in
      (out.0 ≡ ok) ⊎ (out.0 ≡ duplicate) → (e : IndexEntry) × (lookup out.1 ev.id ≡ some e)
  save_event_present h =
      let out = save_event lib fs nvs eng ev mem now f n in
      let s = (save_event-Saved lib fs nvs eng ev mem now f n v.ready).0 in
      elim (Option-cases (lookup eng ev.id)) [
        | inr found ↦ still-IsThere out found s
        | inl absent ↦ elim h [
          | inl done ↦ newly-IsThere out done s
          | inr again ↦
              let status = save_event_status lib fs nvs eng ev mem now f n v.ready in
              let bad = rw absent at status in
              absurd (
                fresh_not_duplicate (leb eng.max_index_entries eng.index_count) mem
                  (lib.serialize ev max_event_size) _ (sym bad ∙ again))
        ]
      ]
