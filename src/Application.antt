-- ===== src/Application.antt =====
-- main/main.c: the callbacks of the server, the start of the relay, and the clean-up of a start that
-- failed. The handler of frames and the callback of a closed socket of main/ws_server.c stand
-- here with the callbacks that they call.
pub mod Working
pub mod Handling
pub mod Dispatching
pub mod Invariant
pub mod Runs
pub mod Starting
pub mod Failing
pub mod Room
mod Tests
mod AnswerTests
use wisp_esp.Base.{
  ℕ, ◌*◌, Bool, true, false, ◌&&◌, ◌||◌, List, [], Option, none, some, ltb, ◌==◌, if◌then◌else◌,
  length,
}
use wisp_esp.Base.Int.{pos}
use wisp_esp.Base.Text.{codes}
use wisp_esp.Protocol.{Bytes, relay_ok}
use wisp_esp.RateLimiter
use wisp_esp.RateLimiter.{RateConfig, reset}
use wisp_esp.SubManager
use wisp_esp.SubManager.{remove_all}
use wisp_esp.Storage.Sweep.{cleanup_cycle}
use wisp_esp.Storage.Persist.{StorageAnswers, storage_init, destroy}
use wisp_esp.WsServer
use wisp_esp.WsServer.{
  EspErr, is_ok, max_frame_size, Peer, on_open, on_close, is_running, set_disconnect_cb,
}
use wisp_esp.WsServer.Frames.{
  Request, Action, nothing, info_page, close_reply, message, pong, ws_handler,
}
use wisp_esp.Deletion.{Store}
use wisp_esp.Router.{notice_msg, parse}
use wisp_esp.Router.Dispatch.{dispatch}
use wisp_esp.Relay.{Platform, Relay, RelayConfig, Moment, emit}

module _ {p : Platform} where
  -- `on_ws_disconnect`
  unfoldable pub on_ws_disconnect : Relay p → ℕ → Relay p
  on_ws_disconnect r fd =
      let (mgr, mem) = remove_all p.grants p.filter_free r.sub_manager fd r.memory in
      record r { sub_manager = mgr; memory = mem; limiter = reset r.limiter fd }

  -- `on_ws_message`
  unfoldable pub on_ws_message : Relay p → Moment p → ℕ → Bytes → Relay p
  on_ws_message r m fd json =
      let (result, msg) = parse p.codec json in
      if (length json == 0) || ltb max_frame_size (length json) then r else (elim result [
        | relay_ok ↦ dispatch r m fd msg
        | e ↦ emit r fd (notice_msg (codes "error: failed to parse message"))
      ])

  -- The callback `on_open` of the server.
  unfoldable pub socket_opened : Relay p → Peer → ℕ → ℕ → Relay p
  socket_opened r peer micros fd = record r { server = (on_open peer micros r.server fd).1 }

  -- The callback `on_close` of the server: the disconnect callback, then the slot.
  unfoldable pub socket_closed : Relay p → ℕ → Relay p
  socket_closed r fd =
      let (calls, server) = on_close r.server fd in
      let r1 = if calls then on_ws_disconnect r fd else r in record r1 { server = server }

  -- The callback of a text frame, with the request at hand set meanwhile.
  unfoldable pub with_request : Relay p → Moment p → ℕ → Bytes → Relay p
  with_request r m fd json =
      let r1 =
        on_ws_message (record r { server = record r.server { current = some fd } }) m fd json in
      record r1 { server = record r1.server { current = none } }

  -- `ws_handler`, with the callback of a text frame.
  unfoldable pub request_received : Relay p → Moment p → ℕ → Request → EspErr × Relay p
  request_received r m micros req =
      let (result, action, server) = ws_handler micros r.server req in
      let r1 = record r { server = server } in
      elim action [
        | message fd json ↦ (result, with_request r1 m fd json)
        | nothing ↦ (result, r1)
        | info_page ↦ (result, r1)
        | close_reply ↦ (result, r1)
        | pong bytes ↦ (result, r1)
      ]

  -- A round of the cleanup task of the engine, with its counter of rounds.
  unfoldable pub cleanup_round : Relay p → ℕ → ℕ → ℕ × Relay p
  cleanup_round r cycles time =
      let (cycles', eng, f, n) =
        cleanup_cycle p.fs p.nvs cycles r.store.engine time r.store.files r.store.saved in
      (cycles', record r { store = record { engine = eng; files = f; saved = n } })

  -- `cleanup_relay_resources`
  unfoldable pub cleanup : Relay p → Bool → Bool → Bool → Relay p
  cleanup r limiter storage subs =
      let (eng, saved) = destroy p.nvs r.store.engine r.store.saved in
      let (mgr, mem) = SubManager.destroy p.grants p.filter_free r.sub_manager r.memory in
      let drop_storage = storage && r.has_storage in
      let drop_subs = subs && r.has_subs in
      record r {
        has_limiter = if limiter then false else r.has_limiter;
        has_storage = if storage then false else r.has_storage;
        store = if drop_storage then record r.store { engine = eng; saved = saved } else r.store;
        has_subs = if subs then false else r.has_subs;
        sub_manager = if drop_subs then mgr else r.sub_manager;
        memory = if drop_subs then mem else r.memory;
      }

-- What the start is answered: the mutex of the subscriptions, `storage_init`, the cleanup task, and
-- `ws_server_init`.
pub record StartAnswers : Type 0 where
  pub subs_lock : Bool
  pub storage : StorageAnswers
  pub task : Bool
  pub server_lock : Bool
  pub server_started : EspErr
  pub handler_registered : EspErr

abbrev pub relay_config : RelayConfig
relay_config = record {
  port = 4869;
  max_event_age_sec = 21 * 24 * 60 * 60;
  max_future_sec = pos 900;
}

abbrev pub rate_config : RateConfig
rate_config = record { events_per_minute = 30; reqs_per_minute = 60 }

module _ {p : Platform} where
  -- `start_relay_server` once `storage_init` has succeeded.
  unfoldable pub start_storage : Relay p → StartAnswers → Relay p
  start_storage r a =
      let r1 = record r { has_storage = true } in
      let r2 = record r1 { limiter = RateLimiter.init (some rate_config); has_limiter = true } in
      let (result, server) =
        WsServer.init a.server_lock a.server_started a.handler_registered r.server in
      let r3 = record r2 { server = server } in
      if a.task
      then (if is_ok result
          then record r3 { server = set_disconnect_cb server }
          else cleanup r3 true true true)
      else cleanup r1 false true true

  -- `start_relay_server`
  unfoldable pub start : Relay p → StartAnswers → Relay p
  start r a =
      let r1 = record r { config = relay_config; sub_manager = SubManager.init a.subs_lock } in
      let (ready, eng) =
        storage_init p.nvs a.storage relay_config.max_event_age_sec r.store.saved in
      let r2 = record r1 { has_subs = true; store = record r.store { engine = eng } } in
      if is_running r.server
      then r
      else (if a.subs_lock
          then (if ready then start_storage r2 a else cleanup r2 false false true)
          else r1)
