-- ===== src/Deletion/Guarding.antt =====
-- main/deletion.c: what each of the three loops leaves of an event that the request may not delete.
use wisp_esp.Base.{
  ℕ, suc, ◌≡◌, ◌≢◌, refl, sym, ap, ◌∙◌, subst, inl, inr, Bool, true, false, ◌&&◌, Option, some,
  List, [], ◌∷◌, arith, All, Bool-cases, Option-cases, if_ind, if_ind_state, bytes_eq,
  bytes_eq_sound, bytes_eq_refl, if◌then◌else◌, to_u32,
}
use wisp_esp.Base.Int.{ℤ}
use wisp_esp.Protocol.{Text, Bytes, Event, Filter}
use wisp_esp.Storage.Types.{IndexEntry, FilePath, path_of, FileSystem, FileLaws, Library, Nvs}
use wisp_esp.Storage.Ops.{get_event}
use wisp_esp.Storage.Sweep.{is_due}
use wisp_esp.Storage.Query.{query_events}
use wisp_esp.Storage.Invariant.{IsValid}
use wisp_esp.Storage.Content.{lookup, content}
use wisp_esp.Storage.Deleting.{decode, get_event-content, delete_event-IsValid, delete_event-entry}
use wisp_esp.Storage.Keeping.{query_events-Keeps}
use wisp_esp.Storage.Keepsake.{query_events_keeps_entry}
use wisp_esp.Storage.Matches.{Holds, Pass, delete_event-Holds, query_events-Good}
use wisp_esp.Deletion.{
  DeletionRequest, DeletionLib, Round, Store, is_success, author_filter, has_tag, delete_counted,
  delete_id, delete_by_event_ids, delete_found, delete_query, delete_address, delete_by_addresses,
  delete_kind, delete_kinds,
}
use wisp_esp.Deletion.Safety.{is_protected, authorized_not}

module _ (lib : Library) (del : DeletionLib) (fs : FileSystem) (laws : FileLaws fs) (nvs : Nvs)
    (id' : Bytes) (x : IndexEntry) (kept : Option Bytes) (target : Event) where
  -- An event with the identifier `id'` is `target`.
  abbrev pub Sole : Event → Type 0
  Sole ev = ev.id ≡ id' → ev ≡ target

  -- The live entry of `id'` is `x`, the file of `x` reads as `kept`, and no file holds another event
  -- with that identifier than `target`.
  pub record Guarded (st : Store fs nvs) : Type 0 where
    pub valid : IsValid st.engine
    pub found : lookup st.engine id' ≡ some x
    pub same : fs.read (path_of x) st.files ≡ kept
    pub sole : Holds lib fs laws Sole st.files

  delete_counted-Guarded :
      (st : Store fs nvs) (id : Bytes)
      → id' ≢ id
      → Guarded st
      → Guarded (delete_counted lib del fs nvs st id).1
  unfolding delete_counted
  delete_counted-Guarded st id ne g =
      let (found, same) =
        delete_event-entry lib fs laws nvs st.engine id st.files st.saved id' x g.valid ne
          g.found in
      record {
        valid = delete_event-IsValid lib fs nvs st.engine id st.files st.saved g.valid;
        found = found;
        same = same ∙ g.same;
        sole = delete_event-Holds lib fs laws Sole nvs st.engine id st.files st.saved g.sole;
      }

  pub Guarded-bytes :
      (st : Store fs nvs) → Guarded st → content lib fs laws st.engine st.files id' ≡ kept
  Guarded-bytes st g = rw g.found g.same

  other_id : (id : Bytes) → bytes_eq id' id ≡ false → id' ≢ id
  other_id id ne same =
      let differs : bytes_eq id' id' ≡ false = subst (λ k. bytes_eq id' k ≡ false) (sym same) ne in
      let equal = bytes_eq_refl id' in cc

  delete_found-Guarded :
      (p : Event → Bool) (st : Store fs nvs) (evs : List Event)
      → All (λ ev. id' ≢ ev.id) evs
      → Guarded st
      → Guarded (delete_found lib del fs nvs p st evs).1
  unfolding delete_found
  delete_found-Guarded p st [] h g = g
  delete_found-Guarded p st (ev ∷ evs) h g =
      let st' = (delete_counted lib del fs nvs st ev.id).1 in
      delete_found-Guarded p (if p ev then st' else st) evs h.1
        (if_ind Guarded (p ev) (λ e. delete_counted-Guarded st ev.id h.0 g) λ e. g)

  foreign-All :
      (filter : Filter) (mem : FilePath → Bool) (evs : List Event)
      → lib.filter_matches filter target ≡ false
      → Pass lib fs laws Sole filter mem evs
      → All (λ ev. id' ≢ ev.id) evs
  foreign-All filter mem [] foreign h = tt
  foreign-All filter mem (ev ∷ evs) foreign h = (
    λ same.
        let (sole, on) = h.0 in
        let own : lib.filter_matches filter target ≡ true =
          subst (λ k. lib.filter_matches filter k ≡ true) (sole (sym same)) on in
        cc,
    foreign-All filter mem evs foreign h.1,
  )

  delete_query-Guarded :
      (filter : Filter) (limit : ℕ) (p : Event → Bool) (r : Round) (st : Store fs nvs)
      → lib.filter_matches filter target ≡ false
      → is_due (to_u32 r.time) x ≡ false
      → Guarded st
      → Guarded (delete_query lib del fs nvs filter limit p r st).1
  unfolding delete_query
  delete_query-Guarded filter limit p r st foreign off g =
      let out = query_events lib fs st.engine filter limit r.room r.buffers r.time st.files in
      let st' = record st { engine = out.1; files = out.2 } in
      let (found, same) =
        query_events_keeps_entry lib fs laws filter limit r.buffers r.time st.files st.engine
          g.valid id' x r.room g.found off in
      let k =
        query_events-Keeps lib fs laws st.engine.next_file_index st.engine filter limit r.room
          r.buffers r.time st.files (record { valid = g.valid; same = refl }) in
      let (sole, pass) =
        query_events-Good lib fs laws Sole filter r.buffers st.engine limit r.room r.time st.files
          g.sole in
      let g' : Guarded st' = record {
        valid = k.valid;
        found = found;
        same = same ∙ g.same;
        sole = sole;
      } in
      if_ind_state Guarded (is_success out.0) _ _
        (λ e. delete_found-Guarded p st' out.3 (foreign-All filter r.buffers out.3 foreign pass) g')
        λ e. g'

  module _ (request : DeletionRequest)
      (safe : is_protected del request (decode lib true kept) ≡ true) where
    delete_id-Guarded :
        (buffer : Bool) (st : Store fs nvs) (hex : Text)
        → Guarded st
        → Guarded (delete_id lib del fs nvs request buffer st hex).1
    unfolding delete_id
    delete_id-Guarded buffer st hex g = elim (Option-cases (lib.hex_to_bytes hex 64 32)) [
      | inl e ↦ rw (e, delete_id) g
      | inr (id, e) ↦ elim (Option-cases (get_event lib fs st.engine id buffer st.files)) [
        | inl t ↦ rw (e, delete_id) (rw (t, delete_id) g)
        | inr (target, t) ↦
            rw (e, delete_id)
              (rw (t, delete_id)
                (if_ind_state Guarded (del.authorized request target) _ _
                  (λ a. elim (Bool-cases (bytes_eq id' id)) [
                    | inr ne ↦ delete_counted-Guarded st id (other_id id ne) g
                    | inl eq ↦
                        let same = bytes_eq_sound id' id eq in
                        let read : decode lib buffer kept ≡ some target =
                          ap (decode lib buffer) (sym (Guarded-bytes st g))
                          ∙ sym (
                              get_event-content lib fs laws st.engine id' buffer st.files
                                g.valid.ready)
                          ∙ subst (λ k. get_event lib fs st.engine k buffer st.files ≡ some target)
                              (sym same) t in
                        absurd
                          (let bad = authorized_not lib del request buffer kept target read a in cc)
                  ])
                  λ a. g))
      ]
    ]

    pub ids-Guarded :
        (rounds : ℕ → Round) (i : ℕ) (st : Store fs nvs) (hexes : List Text)
        → Guarded st
        → Guarded (delete_by_event_ids lib del fs nvs request rounds i st hexes).1
    unfolding delete_by_event_ids
    ids-Guarded rounds i st [] g = g
    ids-Guarded rounds i st (hex ∷ hexes) g =
        ids-Guarded rounds (suc i) (delete_id lib del fs nvs request (rounds i).buffer st hex).1
          hexes (delete_id-Guarded (rounds i).buffer st hex g)

    address-Guarded :
        (before : ℤ) (r : Round) (st : Store fs nvs) (addr : Text)
        → ((kind until : ℤ) (limit : ℕ)
            → lib.filter_matches (author_filter kind request.pubkey until limit) target ≡ false)
        → is_due (to_u32 r.time) x ≡ false
        → Guarded st
        → Guarded (delete_address lib del fs nvs request before r st addr).1
    unfolding delete_address
    address-Guarded before r st addr foreign off g = elim (Option-cases (del.scan_address addr)) [
      | inl e ↦ rw (e, delete_address) g
      | inr ((kind, author, tag), e) ↦
          rw (e, delete_address)
            (if_ind_state Guarded (bytes_eq author request.pubkey && r.filter) _ _
              (λ b.
                let own : author ≡ request.pubkey =
                  bytes_eq_sound author request.pubkey (ground arith) in
                delete_query-Guarded (author_filter kind author before 100) 100
                  (has_tag lib del fs nvs tag) r st
                  (ap (λ a. lib.filter_matches (author_filter kind a before 100) target) own
                    ∙ foreign kind before 100)
                  off g)
              λ b. g)
    ]

    pub addresses-Guarded :
        (before : ℤ) (rounds : ℕ → Round) (i : ℕ) (st : Store fs nvs) (addrs : List Text)
        → ((kind until : ℤ) (limit : ℕ)
            → lib.filter_matches (author_filter kind request.pubkey until limit) target ≡ false)
        → ((j : ℕ) → is_due (to_u32 (rounds j).time) x ≡ false)
        → Guarded st
        → Guarded (delete_by_addresses lib del fs nvs request before rounds i st addrs).1
    unfolding delete_by_addresses
    addresses-Guarded before rounds i st [] foreign off g = g
    addresses-Guarded before rounds i st (addr ∷ addrs) foreign off g =
        addresses-Guarded before rounds (suc i)
          (delete_address lib del fs nvs request before (rounds i) st addr).1 addrs foreign off
          (address-Guarded before (rounds i) st addr foreign (off i) g)

  pub kinds-Guarded :
      (ev : Event) (rounds : ℕ → Round) (i : ℕ) (st : Store fs nvs) (kinds : List ℤ)
      → ((kind until : ℤ) (limit : ℕ)
          → lib.filter_matches (author_filter kind (del.bytes_to_hex ev.pubkey) until limit) target
            ≡ false)
      → ((j : ℕ) → is_due (to_u32 (rounds j).time) x ≡ false)
      → Guarded st
      → Guarded (delete_kinds lib del fs nvs ev rounds i st kinds).1
  unfolding delete_kinds delete_kind
  kinds-Guarded ev rounds i st [] foreign off g = g
  kinds-Guarded ev rounds i st (kind ∷ kinds) foreign off g =
      let filter = author_filter kind (del.bytes_to_hex ev.pubkey) ev.created_at 500 in
      kinds-Guarded ev rounds (suc i) (delete_kind lib del fs nvs ev (rounds i) st kind).1 kinds
        foreign off
        (if_ind_state Guarded (rounds i).filter _ _
          (λ e.
            delete_query-Guarded filter 500 (λ (found : Event). true) (rounds i) st
              (foreign kind ev.created_at 500) (off i) g)
          λ e. g)
