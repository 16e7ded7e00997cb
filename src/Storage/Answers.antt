-- ===== src/Storage/Answers.antt =====
-- What `storage_query_events` is asked for: the answers of the entries, the newest first.
use mathlib.Core.List.{append_assoc, append-nil}
use wisp_esp.Base.{
  ℕ, ◌≤◌, ◌≡◌, refl, sym, ap, ◌∙◌, inl, inr, Bool, not, ◌&&◌, Option, none, some, List, [], ◌∷◌,
  ◌++◌, arith, length, Bool-cases, if◌then◌else◌,
}
use wisp_esp.Protocol.{Event, Filter}
use wisp_esp.Storage.Types.{
  IndexEntry, is_deleted, FilePath, path_of, FileSystem, FileLaws, Library,
}
use wisp_esp.Storage.Ops.{load_event_from_file}
use wisp_esp.Storage.Sweep.{is_expired}
use wisp_esp.Storage.Query.{index_matches_filter}
use wisp_esp.Storage.Deleting.{decode, load_event-decode}

module _ (lib : Library) (fs : FileSystem) (laws : FileLaws fs) (filter : Filter) (now : ℕ)
    (mem : FilePath → Bool) where
  open fs use {Files, read}

  -- An event that was read, if it passes the filter.
  abbrev pub accepted : Option Event → List Event
  accepted none = []
  accepted (some ev) = if lib.filter_matches filter ev then ev ∷ [] else []

  -- What one entry has to say to the query: its event, if it is live, not expired, and passes the
  -- test of the index and that of the event.
  abbrev pub answer : Files → IndexEntry → List Event
  answer f e =
      if not (is_deleted e) && not (is_expired now e) && index_matches_filter lib e filter
      then accepted (load_event_from_file lib fs (mem (path_of e)) (path_of e) f)
      else []

  -- All answers, the newest entry first.
  abbrev pub answers : Files → List IndexEntry → List Event
  answers f [] = []
  answers f (e ∷ es) = answers f es ++ answer f e

  pub answers-last :
      (f : Files) (es : List IndexEntry) (e : IndexEntry)
      → answers f (es ++ e ∷ []) ≡ answer f e ++ answers f es
  answers-last f [] e = sym (append-nil (answer f e))
  answers-last f (x ∷ es) e =
      rw (answers-last f es e) (append_assoc (answer f e) (answers f es) (answer f x))

  pub answer-Same :
      (f g : Files) (e : IndexEntry)
      → read (path_of e) g ≡ read (path_of e) f
      → answer g e ≡ answer f e
  answer-Same f g e same =
      let one = load_event-decode lib fs (mem (path_of e)) g e in
      let other = load_event-decode lib fs (mem (path_of e)) f e in
      rw (one ∙ ap (decode lib (mem (path_of e))) same ∙ sym other) refl

  pub length-answer : (f : Files) (e : IndexEntry) → length (answer f e) ≤ 1
  length-answer f e =
      elim (Bool-cases
        (not (is_deleted e) && not (is_expired now e) && index_matches_filter lib e filter)) [
          | inr off ↦ rw off (omega arith)
          | inl on ↦ rw on (one (load_event_from_file lib fs (mem (path_of e)) (path_of e) f))
        ]
    where
      one : (got : Option Event) → length (accepted got) ≤ 1
      one none = omega arith
      one (some ev) = ground arith
