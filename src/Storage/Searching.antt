-- ===== src/Storage/Searching.antt =====
-- `storage_query_events` against a list of answers.
use mathlib.Core.List.{append_assoc, append-nil}
use wisp_esp.Base.{
  ℕ, zero, suc, ◌≤◌, ◌<◌, ◌≡◌, refl, sym, ap, ◌∙◌, ◌⊎◌, inl, inr, Bool, true, some, List, [], ◌∷◌,
  ◌++◌, arith, length, take, set, get_elem?, All, ltb, Bool-cases, Option-cases, if◌then◌else◌,
  to_u32, take-suc, take-set_ge, take-append, take_all, get_elem?-some, get_elem?-take,
  length-append, length-set,
}
use wisp_esp.Protocol.{Filter}
use wisp_esp.Storage.Types.{
  ok, IndexEntry, Engine, entries, is_deleted, mark_deleted, FilePath, path_of, FileSystem,
  FileLaws, Library,
}
use wisp_esp.Storage.Ops.{load_event_from_file}
use wisp_esp.Storage.Sweep.{is_expired, with_index}
use wisp_esp.Storage.Query.{
  max_results, index_matches_filter, Search, query_entry, query_step, query_loop, query_locked,
  query_events,
}
use wisp_esp.Storage.Numbering.{Ascending, Ascending-below, path_of-ne}
use wisp_esp.Storage.Answers.{answer, answers, answers-last, answer-Same, length-answer}
use wisp_esp.Storage.Invariant.{IsValid, put_entry-IsValid}

-- A list that ascends up to an entry has lower numbers than it.
Ascending-last :
    (lo hi : ℕ) (es : List IndexEntry) (e : IndexEntry)
    → Ascending lo hi (es ++ e ∷ [])
    → Ascending lo e.file_index es
Ascending-last lo hi [] e h = h.0
Ascending-last lo hi (x ∷ es) e h = (h.0, Ascending-last (suc x.file_index) hi es e h.1)

module _ (lib : Library) (fs : FileSystem) (laws : FileLaws fs) (filter : Filter) (now : ℕ)
    (mem : FilePath → Bool) where
  open fs use {Files, read}

  -- The files `g` read like `f` at the entries `es`.
  abbrev Same : Files → Files → List IndexEntry → Type 0
  Same f g es = All (λ e. read (path_of e) g ≡ read (path_of e) f) es

  unlink-Same :
      (lo : ℕ) (f g : Files) (es : List IndexEntry) (e : IndexEntry)
      → Ascending lo e.file_index es
      → Same f g es
      → Same f (fs.unlink (path_of e) g) es
  unlink-Same lo f g [] e h same = tt
  unlink-Same lo f g (x ∷ es) e h same = (
    laws.unlink_other (path_of e) (path_of x) g (
          path_of-ne e x
            λ number. omega (arith, (Ascending-below lo e.file_index (x ∷ es) h).0, number))
        ∙ same.0,
    unlink-Same (suc x.file_index) f g es e h.1 same.1,
  )

  -- The body of the loop at the entry `e`.
  record Stepped (i : ℕ) (e : IndexEntry) (st out : Search lib fs) : Type 0 where
    found : out.found ≡ st.found ++ answer lib fs laws filter now mem st.files e
    below : take i out.cells ≡ take i st.cells
    size : length out.cells ≡ length st.cells
    cells : (out.cells ≡ st.cells) ⊎ (out.cells ≡ set st.cells i (mark_deleted e))
    files : (out.files ≡ st.files) ⊎ (out.files ≡ fs.unlink (path_of e) st.files)

  unchanged :
      (i : ℕ) (e : IndexEntry) (st : Search lib fs)
      → answer lib fs laws filter now mem st.files e ≡ []
      → Stepped i e st st
  unchanged i e st none_there = record {
    found = rw none_there (sym (append-nil st.found));
    below = refl;
    size = refl;
    cells = inl refl;
    files = inl refl;
  }

  query_entry-Stepped :
      (i : ℕ) (e : IndexEntry) (st : Search lib fs)
      → Stepped i e st (query_entry lib fs filter now mem i e st)
  unfolding query_entry
  query_entry-Stepped i e st = elim (Bool-cases (is_deleted e)) [
    | inl d ↦ rw d (unchanged i e st (rw d refl))
    | inr d ↦ elim (Bool-cases (is_expired now e)) [
      | inl x ↦
          rw (d, x)
            (record {
              found = rw (d, x) (sym (append-nil st.found));
              below = take-set_ge i st.cells i _ (omega arith);
              size = length-set st.cells i _;
              cells = inr (ap (set st.cells i) (rw d refl));
              files = inr refl;
            })
      | inr x ↦ elim (Bool-cases (index_matches_filter lib e filter)) [
        | inr k ↦ rw (d, x, k) (unchanged i e st (rw (d, x, k) refl))
        | inl k ↦
            elim (Option-cases
              (load_event_from_file lib fs (mem (path_of e)) (path_of e) st.files)) [
                | inl l ↦
                    rw (d, x, k) (rw (l, query_entry) (unchanged i e st (rw (d, x, k) (rw l refl))))
                | inr (ev, l) ↦ elim (Bool-cases (lib.filter_matches filter ev)) [
                  | inr m ↦
                      rw (d, x, k)
                        (rw (l, query_entry)
                          (rw m (unchanged i e st (rw (d, x, k) (rw l (rw m refl))))))
                  | inl m ↦
                      rw (d, x, k)
                        (rw (l, query_entry)
                          (rw m (record {
                            found = rw (d, x, k) (rw l (rw m refl));
                            below = refl;
                            size = refl;
                            cells = inl refl;
                            files = inl refl;
                          })))
                ]
              ]
      ]
    ]
  ]

  query_step-Stepped :
      (i : ℕ) (e : IndexEntry) (st : Search lib fs)
      → get_elem? st.cells i ≡ some e
      → Stepped i e st (query_step lib fs filter now mem i st)
  unfolding query_step
  query_step-Stepped i e st got = rw (got, query_step) (query_entry-Stepped i e st)

  Stepped-Same :
      (lo i : ℕ) (e : IndexEntry) (st out : Search lib fs) (f : Files) (es : List IndexEntry)
      → Stepped i e st out
      → Ascending lo e.file_index es
      → Same f st.files es
      → Same f out.files es
  Stepped-Same lo i e st out f es s h same = elim s.files [
    | inl keep ↦ rw keep same
    | inr gone ↦ rw gone (unlink-Same lo f st.files es e h same)
  ]

  module _ (eng : Engine) where
    Stepped-IsValid :
        (i : ℕ) (e : IndexEntry) (st out : Search lib fs)
        → i < eng.index_count
        → get_elem? st.cells i ≡ some e
        → Stepped i e st out
        → IsValid (with_index eng st.cells)
        → IsValid (with_index eng out.cells)
    Stepped-IsValid i e st out lt got s v = elim s.cells [
      | inl keep ↦ rw keep v
      | inr marked ↦
          let inside = get_elem?-take eng.index_count st.cells i lt ∙ got in
          rw marked (put_entry-IsValid (with_index eng st.cells) v i e inside)
    ]

    query_loop-IsValid :
        (limit i : ℕ) (st : Search lib fs)
        → i ≤ eng.index_count
        → IsValid (with_index eng st.cells)
        → IsValid (with_index eng (query_loop lib fs filter now mem limit i st).cells)
    unfolding query_loop
    query_loop-IsValid limit zero st le v = v
    query_loop-IsValid limit (suc i) st le v = elim (Bool-cases (ltb (length st.found) limit)) [
      | inr full ↦ rw full v
      | inl room ↦
          let (e, got) = get_elem?-some st.cells i (omega (arith, v.size, v.fits)) in
          let out = query_step lib fs filter now mem i st in
          let s = query_step-Stepped i e st got in
          rw room (
            query_loop-IsValid limit i out (omega arith)
              (Stepped-IsValid i e st out (omega arith) got s v))
    ]

  Same-last :
      (f g : Files) (es : List IndexEntry) (e : IndexEntry)
      → Same f g (es ++ e ∷ [])
      → Same f g es × (read (path_of e) g ≡ read (path_of e) f)
  Same-last f g [] e h = (tt, h.0)
  Same-last f g (x ∷ es) e h = let (rest, last) = Same-last f g es e h.1 in ((h.0, rest), last)

  -- The loop over the cells below `i`, of which `es` are the first `i`.
  query_loop-answers :
      (limit i hi : ℕ) (st : Search lib fs) (f : Files)
      → i ≤ length st.cells
      → length st.found ≤ limit
      → Ascending 0 hi (take i st.cells)
      → Same f st.files (take i st.cells)
      → (query_loop lib fs filter now mem limit i st).found
        ≡ take limit (st.found ++ answers lib fs laws filter now mem f (take i st.cells))
  unfolding query_loop
  query_loop-answers limit zero hi st f bound few asc same =
      rw (append-nil st.found) (sym (take_all limit st.found few))
  query_loop-answers limit (suc i) hi st f bound few asc same =
      elim (Bool-cases (ltb (length st.found) limit)) [
        | inr full ↦ rw full (sym (take-append limit st.found _ (ground arith)))
        | inl room ↦
            let (e, got) = get_elem?-some st.cells i (omega arith) in
            let cells = take-suc i st.cells e got in
            let (rest, last) = Same-last f st.files (take i st.cells) e (rw cells at same) in
            let asc' = Ascending-last 0 hi (take i st.cells) e (rw cells at asc) in
            let out = query_step lib fs filter now mem i st in
            let s = query_step-Stepped i e st got in
            let more : length out.found ≤ limit = ground (
              arith,
              ap length s.found,
              length-append st.found (answer lib fs laws filter now mem st.files e),
              length-answer lib fs laws filter now mem st.files e,
            ) in
            rw room (
              query_loop-answers limit i e.file_index out f (omega (arith, s.size)) more
                (rw s.below asc') (rw s.below (Stepped-Same 0 i e st out f _ s asc' rest))
              ∙ ap (take limit) (
                  rw
                    (
                      s.found,
                      s.below,
                      cells,
                      answer-Same lib fs laws filter now mem f st.files e last,
                      answers-last lib fs laws filter now mem f (take i st.cells) e,
                    )
                    (append_assoc st.found (answer lib fs laws filter now mem f e)
                      (answers lib fs laws filter now mem f (take i st.cells)))))
      ]

module _ (lib : Library) (fs : FileSystem) (laws : FileLaws fs) (filter : Filter) (limit : ℕ)
    (mem : FilePath → Bool) (time : ℕ) (f : fs.Files) (eng : Engine) (v : IsValid eng) where
  Same-refl : (es : List IndexEntry) → All (λ e. fs.read (path_of e) f ≡ fs.read (path_of e) f) es
  Same-refl [] = tt
  Same-refl (e ∷ es) = (refl, Same-refl es)

  unlocked :
      query_events lib fs eng filter limit true mem time f
      ≡ query_locked lib fs eng filter limit true mem time f
  unfolding query_events
  unlocked = let h = v.ready in ground arith

  abbrev pub capped : ℕ
  capped = if ltb max_results limit then max_results else limit

  -- On a valid engine and a file system that keeps its laws, and if the array of results can be
  -- allocated, `storage_query_events` returns `STORAGE_OK` and the answers of the entries that are
  -- live, have not expired and pass both tests of the filter, the newest first, up to the limit and
  -- up to 500.
  pub query_events-answers :
      let out = query_events lib fs eng filter limit true mem time f in
      (out.0 ≡ ok)
      × (out.3 ≡ take capped (answers lib fs laws filter (to_u32 time) mem f (entries eng)))
  query_events-answers =
      let loop =
        query_loop-answers lib fs laws filter (to_u32 time) mem capped eng.index_count
          eng.next_file_index (record { cells = eng.index; files = f; found = [] }) f
          (omega (arith, v.size, v.fits)) (omega arith) v.numbered (Same-refl (entries eng)) in
      rw unlocked (unfold query_locked in (refl, loop))

  -- `storage_query_events` keeps a valid index valid, though it flags the expired entries that it
  -- comes across.
  pub query_events-IsValid : IsValid (query_events lib fs eng filter limit true mem time f).1
  query_events-IsValid =
      let loop =
        query_loop-IsValid lib fs laws filter (to_u32 time) mem eng capped eng.index_count
          (record { cells = eng.index; files = f; found = [] }) (omega arith) v in
      rw unlocked (unfold query_locked in loop)

  pub query_events-next :
      (query_events lib fs eng filter limit true mem time f).1.next_file_index ≡ eng.next_file_index
  query_events-next = rw unlocked (unfold query_locked in refl)
