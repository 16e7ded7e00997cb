-- ===== src/Storage/Matches.antt =====
-- main/storage_engine.c: where the results of `storage_query_events` come from, and what queries and
-- deletions leave in the files.
use wisp_esp.Base.{
  ℕ, zero, suc, ◌≡◌, ◌≢◌, ◌⊎◌, inl, inr, subst, sym, ◌∙◌, Bool, true, false, Option, none, some,
  List, [], ◌∷◌, ◌&&◌, ◌==◌, arith, length, ltb, get_elem?, to_u32, All, All-append, if_ind,
  Bool-cases, Option-cases, bytes_eq, bytes_eq_sound, bytes_eq_refl,
}
use wisp_esp.Protocol.{Bytes, Event, Filter}
use wisp_esp.Storage.Types.{
  StorageError, IndexEntry, Engine, is_deleted, FilePath, path_of, FileSystem, FileLaws, Library,
  Nvs,
}
use wisp_esp.Storage.Ops.{load_event_from_file, find_index_entry, delete_event, delete_locked}
use wisp_esp.Storage.Sweep.{is_expired}
use wisp_esp.Storage.Query.{
  index_matches_filter, Search, query_entry, query_step, query_loop, query_locked, query_events,
}
use wisp_esp.Storage.Deleting.{decode, load_event-decode}

abbrev same_path : FilePath → FilePath → Bool
same_path p q = (p.dir == q.dir) && bytes_eq p.name q.name && (p.number == q.number)

-- Two paths are the same or not.
path_cases : (p q : FilePath) → (p ≡ q) ⊎ (p ≢ q)
path_cases p q = elim (Bool-cases (same_path p q)) [
  | inl e ↦
      let name = bytes_eq_sound p.name q.name (ground arith) in
      let dir : p.dir ≡ q.dir = ground arith in
      let number : p.number ≡ q.number = ground arith in inl (cc)
  | inr e ↦ inr λ same.
      let off : same_path p p ≡ false = subst (λ k. same_path p k ≡ false) (sym same) e in
      let on : same_path p p ≡ true = ground (arith, bytes_eq_refl p.name) in cc
]

decode-true :
    (lib : Library) (mem : Bool) (b : Option Bytes) (ev : Event)
    → decode lib mem b ≡ some ev
    → decode lib true b ≡ some ev
decode-true lib true b ev h = h
decode-true lib false none ev h = h
decode-true lib false (some json) ev h =
    absurd (let nothing : decode lib false (some json) ≡ none = ground (arith) in cc)

module _ (lib : Library) (fs : FileSystem) (laws : FileLaws fs) (P : Event → Type 0) where
  open fs use {Files, read}

  -- Every event that a file holds has the property `P`.
  abbrev pub Holds : Files → Type 0
  Holds f = (q : FilePath) (ev : Event) → decode lib true (read q f) ≡ some ev → P ev

  unlink-Holds : (p : FilePath) (f : Files) → Holds f → Holds (fs.unlink p f)
  unlink-Holds p f all q ev h = elim (path_cases p q) [
    | inl same ↦
        let gone : read q (fs.unlink p f) ≡ none =
          subst (λ k. read k (fs.unlink p f) ≡ none) same (laws.unlink_self p f) in
        let nothing : none ≡ some ev = subst (λ b. decode lib true b ≡ some ev) gone h in
        absurd (cc)
    | inr ne ↦ all q ev (subst (λ b. decode lib true b ≡ some ev) (laws.unlink_other p q f ne) h)
  ]

  pub delete_event-Holds :
      (nvs : Nvs) (eng : Engine) (id : Bytes) (f : Files) (n : nvs.Store)
      → Holds f
      → Holds (delete_event lib fs nvs eng id f n).2
  unfolding delete_event delete_locked
  delete_event-Holds nvs eng id f n all =
      if_ind (λ (out : StorageError × Engine × Files × nvs.Store). Holds out.2) eng.initialized
        (λ e. elim (Option-cases (find_index_entry eng id)) [
          | inl gone ↦ rw (gone, delete_locked) all
          | inr ((i, x), found) ↦ rw (found, delete_locked) (unlink-Holds (path_of x) f all)
        ])
        λ e. all

  module _ (filter : Filter) (mem : FilePath → Bool) where
    -- A result has the property and passes libnostr-c's test of the filter.
    abbrev pub Pass : List Event → Type 0
    Pass evs = All (λ ev. P ev × (lib.filter_matches filter ev ≡ true)) evs

    abbrev Good : Search lib fs → Type 0
    Good out = Holds out.files × Pass out.found

    query_entry-Good :
        (now i : ℕ) (e : IndexEntry) (st : Search lib fs)
        → Good st
        → Good (query_entry lib fs filter now mem i e st)
    unfolding query_entry
    query_entry-Good now i e st (all, pass) =
        let at = path_of e in
        if_ind Good (is_deleted e) (λ d. (all, pass))
          λ d.
            if_ind Good (is_expired now e) (λ x. (unlink-Holds at st.files all, pass))
              λ x.
                if_ind Good (index_matches_filter lib e filter)
                  (λ k. elim (Option-cases (load_event_from_file lib fs (mem at) at st.files)) [
                    | inl l ↦ rw (l, query_entry) (all, pass)
                    | inr (ev, l) ↦
                        let read_back =
                          decode-true lib (mem at) (read at st.files) ev
                            (sym (load_event-decode lib fs (mem at) st.files e) ∙ l) in
                        rw (l, query_entry)
                          (if_ind Good (lib.filter_matches filter ev)
                            (λ m. (
                              all,
                              All-append _ st.found (ev ∷ []) pass ((all at ev read_back, m), tt),
                            ))
                            λ m. (all, pass))
                  ])
                  λ k. (all, pass)

    query_loop-Good :
        (now limit i : ℕ) (st : Search lib fs)
        → Good st
        → Good (query_loop lib fs filter now mem limit i st)
    unfolding query_loop query_step
    query_loop-Good now limit zero st h = h
    query_loop-Good now limit (suc i) st h =
        if_ind Good (ltb (length st.found) limit)
          (λ room.
            query_loop-Good now limit i (query_step lib fs filter now mem i st)
              (elim (Option-cases (get_elem? st.cells i)) [
                | inl gone ↦ rw (gone, query_step) h
                | inr (e, got) ↦ rw (got, query_step) (query_entry-Good now i e st h)
              ]))
          λ full. h

    pub query_events-Good :
        (eng : Engine) (limit : ℕ) (room : Bool) (time : ℕ) (f : Files)
        → Holds f
        → let out = query_events lib fs eng filter limit room mem time f in Holds out.2 × Pass out.3
    unfolding query_events query_locked
    query_events-Good eng limit room time f all =
        let Fine = λ (out : StorageError × Engine × Files × List Event). Holds out.2 × Pass out.3 in
        if_ind Fine eng.initialized
          (λ e.
            if_ind Fine room
              (λ r.
                query_loop-Good (to_u32 time) _ eng.index_count
                  (record { cells = eng.index; files = f; found = [] }) (all, tt))
              λ r. (all, tt))
          λ e. (all, tt)
