-- ===== src/Deletion.antt =====
-- main/deletion.h and main/deletion.c: NIP-09 deletion on top of the storage engine. Each call of the
-- engine is one step; other tasks of the relay leave the engine alone in between, but for the
-- cleanup.
pub mod Invariant
pub mod Safety
pub mod Guarding
pub mod Authority
use wisp_esp.Base.{
  ℕ, zero, suc, ◌+◌, Bool, true, false, not, ◌&&◌, List, [], ◌∷◌, Option, none, some, take, ◌==◌,
  ltb, if◌then◌else◌, bytes_eq, length,
}
use wisp_esp.Base.Int.{ℤ, pos}
use wisp_esp.Protocol.{Text, Bytes, Event, Filter}
use wisp_esp.Storage.Types.{StorageError, ok, Engine, FilePath, FileSystem, Library, Nvs}
use wisp_esp.Storage.Ops.{get_event, delete_event}
use wisp_esp.Storage.Query.{query_events}

-- `NOSTR_KIND_DELETION`
abbrev pub kind_deletion : ℕ
kind_deletion = 5

-- `nostr_deletion_request_t` of libnostr-c.
pub record DeletionRequest : Type 0 where
  pub event_ids : List Text
  pub addresses : List Text
  pub pubkey : Text

-- What the file calls of libnostr-c and of the C library: `scan_address` is the `sscanf` of an
-- address into a kind, a key and a tag that is empty if it is missing, or `none` for fewer than two.
pub record DeletionLib : Type 0 where
  pub parse_deletion : Event → Option DeletionRequest
  pub authorized : DeletionRequest → Event → Bool
  pub d_tag : Event → Option Text
  pub bytes_to_hex : Bytes → Text
  pub scan_address : Text → Option (ℤ × Text × Text)
  pub atoi : Text → ℤ

-- The answers that one round of a loop gets: the clock, and what can be allocated: the array of
-- results, the buffer of the file of an identifier, those of the files of a query, and the arrays of
-- the filter.
pub record Round : Type 0 where
  pub time : ℕ
  pub room : Bool
  pub buffer : Bool
  pub buffers : FilePath → Bool
  pub filter : Bool

abbrev pub is_success : StorageError → Bool
is_success ok = true
is_success _ = false

-- The filters of the two loops over kinds and authors; `nostr_filter_t filter = {0}` otherwise.
abbrev pub author_filter : ℤ → Text → ℤ → ℕ → Filter
author_filter kind author until limit = record {
  ids = [];
  authors = author ∷ [];
  kinds = kind ∷ [];
  e_tags = [];
  p_tags = [];
  generic_tags = [];
  since = pos 0;
  until = until;
  limit = pos limit;
}

-- The kinds of the `k` tags.
unfoldable pub kind_tags : DeletionLib → List (List Text) → List ℤ
kind_tags del [] = []
kind_tags del ((name ∷ value ∷ more) ∷ tags) =
    let rest = kind_tags del tags in
    if bytes_eq name (b'k' ∷ []) then del.atoi value ∷ rest else rest
kind_tags del (tag ∷ tags) = kind_tags del tags

-- The size of the array `kinds`.
abbrev pub max_kinds : ℕ
max_kinds = 32

-- The engine with its files and its copy in NVS.
pub record Store (fs : FileSystem) (nvs : Nvs) : Type 0 where
  pub engine : Engine
  pub files : fs.Files
  pub saved : nvs.Store

module _ (lib : Library) (del : DeletionLib) (fs : FileSystem) (nvs : Nvs) where
  -- `storage_delete_event`, with whether it counts.
  unfoldable pub delete_counted : Store fs nvs → Bytes → ℕ × Store fs nvs
  delete_counted st id =
      let (result, eng, f, n) = delete_event lib fs nvs st.engine id st.files st.saved in
      ((if is_success result then 1 else 0), record { engine = eng; files = f; saved = n })

  -- The body of the loop of `delete_by_event_ids`; `buffer` is for the file that is read.
  unfoldable pub delete_id : DeletionRequest → Bool → Store fs nvs → Text → ℕ × Store fs nvs
  delete_id request buffer st hex = elim (lib.hex_to_bytes hex 64 32) [
    | none ↦ (0, st)
    | some id ↦ elim (get_event lib fs st.engine id buffer st.files) [
      | none ↦ (0, st)
      | some target ↦ if del.authorized request target then delete_counted st id else (0, st)
    ]
  ]

  -- `delete_by_event_ids`, from round `i` on.
  unfoldable pub delete_by_event_ids :
      DeletionRequest → (ℕ → Round) → ℕ → Store fs nvs → List Text → ℕ × Store fs nvs
  delete_by_event_ids request rounds i st [] = (0, st)
  delete_by_event_ids request rounds i st (hex ∷ hexes) =
      let (d, st') = delete_id request (rounds i).buffer st hex in
      let (n, st'') = delete_by_event_ids request rounds (suc i) st' hexes in (d + n, st'')

  -- The loop over the results of a query, for those that pass a test.
  unfoldable pub delete_found : (Event → Bool) → Store fs nvs → List Event → ℕ × Store fs nvs
  delete_found p st [] = (0, st)
  delete_found p st (ev ∷ evs) =
      let (d, st') = delete_counted st ev.id in
      let (n, st'') = delete_found p (if p ev then st' else st) evs in
      ((if p ev then d + n else n), st'')

  -- A query, and the deletion of the results that pass the test.
  unfoldable pub delete_query :
      Filter → ℕ → (Event → Bool) → Round → Store fs nvs → ℕ × Store fs nvs
  delete_query filter limit p r st =
      let (result, eng, f, found) =
        query_events lib fs st.engine filter limit r.room r.buffers r.time st.files in
      let st' = record st { engine = eng; files = f } in
      if is_success result then delete_found p st' found else (0, st')

  abbrev pub has_tag : Text → Event → Bool
  has_tag tag ev = elim (del.d_tag ev) [ none ↦ bytes_eq [] tag | some d ↦ bytes_eq d tag ]

  -- The body of the loop of `delete_by_addresses`; `r.filter` is for the arrays of the filter.
  unfoldable pub delete_address :
      DeletionRequest → ℤ → Round → Store fs nvs → Text → ℕ × Store fs nvs
  delete_address request before r st addr = elim (del.scan_address addr) [
    | none ↦ (0, st)
    | some (kind, author, tag) ↦
        if bytes_eq author request.pubkey && r.filter
        then delete_query (author_filter kind author before 100) 100 (has_tag tag) r st
        else (0, st)
  ]

  -- `delete_by_addresses`, from round `i` on.
  unfoldable pub delete_by_addresses :
      DeletionRequest → ℤ → (ℕ → Round) → ℕ → Store fs nvs → List Text → ℕ × Store fs nvs
  delete_by_addresses request before rounds i st [] = (0, st)
  delete_by_addresses request before rounds i st (addr ∷ addrs) =
      let (d, st') = delete_address request before (rounds i) st addr in
      let (n, st'') = delete_by_addresses request before rounds (suc i) st' addrs in (d + n, st'')

  -- The body of the loop of `delete_by_kinds` over the kinds.
  unfoldable pub delete_kind : Event → Round → Store fs nvs → ℤ → ℕ × Store fs nvs
  delete_kind ev r st kind =
      if r.filter
      then delete_query (author_filter kind (del.bytes_to_hex ev.pubkey) ev.created_at 500) 500
          (λ found. true) r st
      else (0, st)

  -- That loop, from round `i` on.
  unfoldable pub delete_kinds : Event → (ℕ → Round) → ℕ → Store fs nvs → List ℤ → ℕ × Store fs nvs
  delete_kinds ev rounds i st [] = (0, st)
  delete_kinds ev rounds i st (kind ∷ kinds) =
      let (d, st') = delete_kind ev (rounds i) st kind in
      let (n, st'') = delete_kinds ev rounds (suc i) st' kinds in (d + n, st'')

  -- `delete_by_kinds`
  unfoldable pub delete_by_kinds : Event → (ℕ → Round) → Store fs nvs → ℕ × Store fs nvs
  delete_by_kinds ev rounds st =
      delete_kinds ev rounds 0 st (take max_kinds (kind_tags del ev.tags))

  -- The rounds of the three loops of one request.
  pub record Rounds : Type 0 where
    pub by_id : ℕ → Round
    pub by_address : ℕ → Round
    pub by_kind : ℕ → Round

  -- `deletion_process`, where the engine and the event are not null.
  unfoldable pub process : Rounds → Store fs nvs → Event → ℕ × Store fs nvs
  process rounds st ev =
      if ev.kind == kind_deletion
      then (elim (del.parse_deletion ev) [
        | none ↦ (0, st)
        | some request ↦
            let (a, st1) = delete_by_event_ids request rounds.by_id 0 st request.event_ids in
            let (b, st2) =
              delete_by_addresses request ev.created_at rounds.by_address 0 st1 request.addresses in
            let (c, st3) = delete_by_kinds ev rounds.by_kind st2 in (a + b + c, st3)
      ])
      else (0, st)
