-- ===== src/Handlers.antt =====
-- main/handlers_stub.c: what becomes of an EVENT, a REQ and a CLOSE.
pub mod Answers
pub mod Results
pub mod Requests
pub mod Stored
use wisp_esp.Base.{
  ℕ, suc, Bool, true, false, not, ◌&&◌, ◌||◌, List, [], ◌∷◌, ◌++◌, Option, none, some, ltb, ◌==◌,
  if◌then◌else◌, bytes_eq, length,
}
use wisp_esp.Base.Int.{pos, is_pos, wrap}
use wisp_esp.Base.Text.{codes}
use wisp_esp.Protocol.{Text, Bytes, Event, Filter, RelayError, relay_ok, storage_failed}
use wisp_esp.SubManager.{add, remove}
use wisp_esp.Storage.Types.{StorageError, ok, duplicate, Engine}
use wisp_esp.Storage.Ops.{save_event}
use wisp_esp.Storage.Query.{query_events}
use wisp_esp.Validator.{
  ValidationResult, ValidatorConfig, is_valid, check_event, result_to_relay_error,
}
use wisp_esp.Deletion.{kind_deletion, is_success, Store, Round, process}
use wisp_esp.Router.{event_msg, eose_msg, closed_msg}
use wisp_esp.Relay.{Platform, Relay, RelayConfig, Moment, emit}
use wisp_esp.Broadcaster.{fanout}

abbrev pub max_sent_ids : ℕ
max_sent_ids = 64

-- `STORAGE_OK` or `STORAGE_ERR_DUPLICATE`
abbrev pub is_kept : StorageError → Bool
is_kept ok = true
is_kept duplicate = true
is_kept _ = false

abbrev pub validator_config : RelayConfig → ValidatorConfig
validator_config c = record {
  max_event_age_sec = c.max_event_age_sec;
  max_future_sec = c.max_future_sec;
  min_pow_difficulty = 0;
  check_duplicates = true;
}

-- The limit of a query for a stored filter, in a `uint16_t`.
abbrev pub query_limit : Filter → ℕ
query_limit f = if is_pos f.limit then wrap 16 f.limit else 100

-- The search of an identifier among those that were sent.
abbrev pub was_sent : Bytes → List Bytes → Bool
was_sent id [] = false
was_sent id (s ∷ ss) = bytes_eq s id || was_sent id ss

module _ {p : Platform} where
  -- The validator's verdict on an event.
  abbrev pub verdict : Relay p → Moment p → Event → ValidationResult
  verdict r m ev =
      check_event p.checks m.now ev (validator_config r.config)
        (if r.has_storage then some r.store.engine else none)

  -- The deletion of `handle_event`.
  unfoldable pub apply_deletion : Relay p → Moment p → Event → Relay p
  apply_deletion r m ev =
      if (ev.kind == kind_deletion) && r.has_storage
      then record r { store = (process p.lib p.del p.fs p.nvs m.deletion r.store ev).1 }
      else r

  -- The call of `storage_save_event`.
  unfoldable pub store_event : Relay p → Moment p → Event → StorageError × Relay p
  store_event r m ev =
      let (result, eng, f, n) =
        save_event p.lib p.fs p.nvs r.store.engine ev m.save_buffer m.time r.store.files
          r.store.saved in
      (result, record r { store = record { engine = eng; files = f; saved = n } })

  -- `handle_event`
  unfoldable pub handle_event : Relay p → Moment p → Event → RelayError × Relay p
  handle_event r m ev =
      let result = verdict r m ev in
      let r1 = apply_deletion r m ev in
      let (stored, r2) = store_event r1 m ev in
      if is_valid result
      then (if not (p.checks.is_ephemeral ev.kind) && r.has_storage
          then (if is_kept stored then (relay_ok, fanout r2 ev) else (storage_failed, r2))
          else (relay_ok, fanout r1 ev))
      else (result_to_relay_error result, r)

  -- The loop over the results of a query; `buffer` tells whether `sent_ids` was allocated, and `ids`
  -- are the identifiers in it.
  unfoldable pub send_results :
      Bool → ℕ → Text → Relay p → List Bytes → List Event → List Bytes × Relay p
  send_results buffer fd sub r ids [] = (ids, r)
  send_results buffer fd sub r ids (ev ∷ evs) =
      let known = buffer && was_sent ev.id ids in
      let more = buffer && ltb (length ids) max_sent_ids in
      send_results buffer fd sub (if known then r else emit r fd (event_msg sub ev))
        (if known then ids else (if more then ids ++ ev.id ∷ [] else ids)) evs

  -- The loop over the filters, from filter `i` on.
  unfoldable pub send_stored :
      Moment p → ℕ → Text → ℕ → Relay p → List Bytes → List Filter → Relay p
  send_stored m fd sub i r ids [] = r
  send_stored m fd sub i r ids (f ∷ fs) =
      let q = m.queries i in
      let (result, eng, files, found) =
        query_events p.lib p.fs r.store.engine f (query_limit f) q.room q.buffers q.time
          r.store.files in
      let r1 = record r { store = record r.store { engine = eng; files = files } } in
      let (ids', r2) =
        send_results m.ids_buffer fd sub r1 ids (if is_success result then found else []) in
      send_stored m fd sub (suc i) r2 ids' fs

  -- `handle_req`
  unfoldable pub handle_req : Relay p → Moment p → ℕ → Text → List Filter → Relay p
  handle_req r m fd sub filters =
      let (err, mgr, mem) = add p.grants p.filter_free r.sub_manager fd sub filters r.memory in
      let r1 = record r { sub_manager = mgr; memory = mem } in
      let r2 = if r.has_storage then send_stored m fd sub 0 r1 [] filters else r1 in
      if r.has_subs
      then (elim err [
        | relay_ok ↦ emit r2 fd (eose_msg sub)
        | e ↦ emit r1 fd (closed_msg sub (codes "error: too many subscriptions"))
      ])
      else emit r fd (eose_msg sub)

  -- `handle_close`
  unfoldable pub handle_close : Relay p → ℕ → Text → RelayError × Relay p
  handle_close r fd sub =
      let (err, mgr, mem) = remove p.grants p.filter_free r.sub_manager fd sub r.memory in
      if r.has_subs then (err, record r { sub_manager = mgr; memory = mem }) else (relay_ok, r)
