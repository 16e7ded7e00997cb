-- ===== src/Deletion/Invariant.antt =====
-- main/deletion.c: the invariant of the index under the loops of a deletion request.
use wisp_esp.Base.{
  ℕ, suc, Bool, true, false, ◌&&◌, List, [], ◌∷◌, inl, inr, Bool-cases, Option-cases, bytes_eq,
  if◌then◌else◌, ◌==◌, take,
}
use wisp_esp.Base.Int.{ℤ}
use wisp_esp.Protocol.{Text, Bytes, Event, Filter}
use wisp_esp.Storage.Types.{FileSystem, FileLaws, Library, Nvs}
use wisp_esp.Storage.Ops.{get_event}
use wisp_esp.Storage.Query.{query_events}
use wisp_esp.Storage.Keeping.{Keeps, delete_event-Keeps, query_events-Keeps}
use wisp_esp.Deletion.{
  DeletionRequest, DeletionLib, Round, Rounds, Store, max_kinds, kind_tags, kind_deletion,
  is_success, author_filter, delete_counted, delete_id, delete_by_event_ids, delete_found,
  delete_query, delete_address, delete_by_addresses, delete_kind, delete_kinds, delete_by_kinds,
  process,
}

module _ (lib : Library) (del : DeletionLib) (fs : FileSystem) (laws : FileLaws fs) (nvs : Nvs)
    (next : ℕ) where
  abbrev pub Kept : Store fs nvs → Type 0
  Kept st = Keeps next st.engine

  delete_counted-Kept :
      (st : Store fs nvs) (id : Bytes) → Kept st → Kept (delete_counted lib del fs nvs st id).1
  unfolding delete_counted
  delete_counted-Kept st id v = delete_event-Keeps lib fs nvs next st.engine id st.files st.saved v

  pub delete_id-Kept :
      (request : DeletionRequest) (buffer : Bool) (st : Store fs nvs) (hex : Text)
      → Kept st
      → Kept (delete_id lib del fs nvs request buffer st hex).1
  unfolding delete_id
  delete_id-Kept request buffer st hex v = elim (Option-cases (lib.hex_to_bytes hex 64 32)) [
    | inl e ↦ rw (e, delete_id) v
    | inr (id, e) ↦ elim (Option-cases (get_event lib fs st.engine id buffer st.files)) [
      | inl g ↦ rw (e, delete_id) (rw (g, delete_id) v)
      | inr (target, g) ↦
          rw (e, delete_id)
            (rw (g, delete_id)
              (elim (Bool-cases (del.authorized request target)) [
                | inl a ↦ rw a (delete_counted-Kept st id v)
                | inr a ↦ rw a v
              ]))
    ]
  ]

  ids-Kept :
      (request : DeletionRequest) (rounds : ℕ → Round) (i : ℕ) (st : Store fs nvs)
      (hexes : List Text)
      → Kept st
      → Kept (delete_by_event_ids lib del fs nvs request rounds i st hexes).1
  unfolding delete_by_event_ids
  ids-Kept request rounds i st [] v = v
  ids-Kept request rounds i st (hex ∷ hexes) v =
      ids-Kept request rounds (suc i) _ hexes (delete_id-Kept request (rounds i).buffer st hex v)

  chosen-Kept :
      (b : Bool) (x y : ℕ × Store fs nvs) → Kept x.1 → Kept y.1 → Kept (if b then x else y).1
  chosen-Kept true x y vx vy = vx
  chosen-Kept false x y vx vy = vy

  Kept-by_test : (b : Bool) (x y : Store fs nvs) → Kept x → Kept y → Kept (if b then x else y)
  Kept-by_test true x y vx vy = vx
  Kept-by_test false x y vx vy = vy

  delete_found-Kept :
      (p : Event → Bool) (st : Store fs nvs) (evs : List Event)
      → Kept st
      → Kept (delete_found lib del fs nvs p st evs).1
  unfolding delete_found
  delete_found-Kept p st [] v = v
  delete_found-Kept p st (ev ∷ evs) v =
      let st' = (delete_counted lib del fs nvs st ev.id).1 in
      delete_found-Kept p (if p ev then st' else st) evs
        (Kept-by_test (p ev) st' st (delete_counted-Kept st ev.id v) v)

  delete_query-Kept :
      (filter : Filter) (limit : ℕ) (p : Event → Bool) (r : Round) (st : Store fs nvs)
      → Kept st
      → Kept (delete_query lib del fs nvs filter limit p r st).1
  unfolding delete_query
  delete_query-Kept filter limit p r st v =
      let q = query_events lib fs st.engine filter limit r.room r.buffers r.time st.files in
      let kept =
        query_events-Keeps lib fs laws next st.engine filter limit r.room r.buffers r.time st.files
          v in
      elim (Bool-cases (is_success q.0)) [
        | inl h ↦ rw h (delete_found-Kept p _ q.3 kept)
        | inr h ↦ rw h kept
      ]

  delete_address-Kept :
      (request : DeletionRequest) (before : ℤ) (r : Round) (st : Store fs nvs) (addr : Text)
      → Kept st
      → Kept (delete_address lib del fs nvs request before r st addr).1
  unfolding delete_address
  delete_address-Kept request before r st addr v = elim (Option-cases (del.scan_address addr)) [
    | inl e ↦ rw (e, delete_address) v
    | inr ((kind, author, tag), e) ↦
        rw (e, delete_address)
          (elim (Bool-cases (bytes_eq author request.pubkey && r.filter)) [
            | inl h ↦ rw h (delete_query-Kept _ 100 _ r st v)
            | inr h ↦ rw h v
          ])
  ]

  addresses-Kept :
      (request : DeletionRequest) (before : ℤ) (rounds : ℕ → Round) (i : ℕ) (st : Store fs nvs)
      (addrs : List Text)
      → Kept st
      → Kept (delete_by_addresses lib del fs nvs request before rounds i st addrs).1
  unfolding delete_by_addresses
  addresses-Kept request before rounds i st [] v = v
  addresses-Kept request before rounds i st (addr ∷ addrs) v =
      addresses-Kept request before rounds (suc i) _ addrs
        (delete_address-Kept request before (rounds i) st addr v)

  delete_kind-Kept :
      (ev : Event) (r : Round) (st : Store fs nvs) (kind : ℤ)
      → Kept st
      → Kept (delete_kind lib del fs nvs ev r st kind).1
  unfolding delete_kind
  delete_kind-Kept ev r st kind v =
      let filter = author_filter kind (del.bytes_to_hex ev.pubkey) ev.created_at 500 in
      let found = delete_query lib del fs nvs filter 500 (λ (e : Event). true) r st in
      chosen-Kept r.filter found (0, st) (delete_query-Kept filter 500 (λ (e : Event). true) r st v)
        v

  kinds-Kept :
      (ev : Event) (rounds : ℕ → Round) (i : ℕ) (st : Store fs nvs) (kinds : List ℤ)
      → Kept st
      → Kept (delete_kinds lib del fs nvs ev rounds i st kinds).1
  unfolding delete_kinds
  kinds-Kept ev rounds i st [] v = v
  kinds-Kept ev rounds i st (kind ∷ kinds) v =
      kinds-Kept ev rounds (suc i) (delete_kind lib del fs nvs ev (rounds i) st kind).1 kinds
        (delete_kind-Kept ev (rounds i) st kind v)

  -- `deletion_process` keeps a valid index valid, and takes no file number.
  pub process-Kept :
      (rounds : Rounds lib del fs nvs) (st : Store fs nvs) (ev : Event)
      → Kept st
      → Kept (process lib del fs nvs rounds st ev).1
  unfolding process delete_by_kinds
  process-Kept rounds st ev v = elim (Bool-cases (ev.kind == kind_deletion)) [
    | inr h ↦ rw h v
    | inl h ↦ rw h (elim (Option-cases (del.parse_deletion ev)) [
      | inl e ↦ rw (e, process) v
      | inr (request, e) ↦
          rw (e, process)
            (kinds-Kept ev rounds.by_kind 0 _ (take max_kinds (kind_tags del ev.tags)) (
              addresses-Kept request ev.created_at rounds.by_address 0 _ request.addresses
                (ids-Kept request rounds.by_id 0 st request.event_ids v)))
    ])
  ]
