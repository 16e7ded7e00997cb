-- ===== src/Application/Dispatching.antt =====
-- main/router.c, `router_dispatch`, and `on_ws_message` of main/main.c under the invariant.
use wisp_esp.Base.{
  ℕ, ◌+◌, ◌^◌, ◌<◌, ◌≡◌, refl, ◌||◌, ◌==◌, ltb, List, arith, length, if_ind, if_ind_state,
}
use wisp_esp.Base.Text.{codes}
use wisp_esp.Protocol.{Text, Bytes, Event, Filter, RelayError, relay_ok}
use wisp_esp.RateLimiter.{RateType, event, req}
use wisp_esp.RateLimiter.Invariant.{check-IsValid}
use wisp_esp.RateLimiter.View.{check_keeps_others}
use wisp_esp.WsServer.{max_frame_size}
use wisp_esp.Router.{
  RouterMsg, event_in, req_in, close_in, auth_in, unknown_in, invalid_in, notice_msg, max_filters,
  max_sub_id, parse,
}
use wisp_esp.Router.Dispatch.{limited, dispatch_event, dispatch_req, dispatch_close, dispatch}
use wisp_esp.Relay.{Platform, Relay, Moment, emit}
use wisp_esp.Handlers.{handle_event, handle_close}
use wisp_esp.Application.{on_ws_message}
use wisp_esp.Application.Working.{IsWorking, Handled, Handled-refl, Handled-trans, emit-Handled}
use wisp_esp.Application.Handling.{
  Laws, handle_event-Handled, handle_req-Handled, handle_close-Handled,
}

module _ {p : Platform} (base fd : ℕ) (laws : Laws p) (m : Moment p) where
  limited-Handled :
      (r : Relay p) (type : RateType)
      → IsWorking base r
      → Handled base fd r (limited r m fd type).1 × ((limited r m fd type).1.store ≡ r.store)
  unfolding limited
  limited-Handled r type w =
      if_ind_state (λ (r' : Relay p). Handled base fd r r' × (r'.store ≡ r.store)) r.has_limiter _ _
        (λ e. (
          record {
            working = record {
              table = w.table;
              index = w.index;
              buckets = check-IsValid r.limiter fd type m.timer m.timer' w.buckets;
              has_subs = w.has_subs;
              has_storage = w.has_storage;
              has_limiter = w.has_limiter;
            };
            server = refl;
            buckets = λ fd' ne. check_keeps_others r.limiter fd type m.timer m.timer' fd' ne;
            subs = λ fd' ne. omega arith;
          },
          refl,
        ))
        λ e. (Handled-refl base fd r w, refl)

  dispatch_event-Handled :
      (r : Relay p) (ev : Event)
      → r.store.engine.next_file_index + 1 < 2 ^ 32
      → IsWorking base r
      → Handled base fd r (dispatch_event r m fd ev)
  unfolding dispatch_event
  dispatch_event-Handled r ev space w =
      let r1 = (limited r m fd event).1 in
      let (h1, same) = limited-Handled r event w in
      let space1 : r1.store.engine.next_file_index + 1 < 2 ^ 32 = rw same space in
      let out = handle_event r1 m ev in
      let h2 =
        Handled-trans base fd h1 (handle_event-Handled base fd laws m r1 ev space1 h1.working) in
      if_ind (Handled base fd r) (limited r m fd event).0 (λ e. emit-Handled base fd r r1 fd _ h1)
        λ e. emit-Handled base fd r out.1 fd _ h2

  dispatch_req-Handled :
      (r : Relay p) (sub : Text) (fs : List Filter)
      → IsWorking base r
      → Handled base fd r (dispatch_req r m fd sub fs)
  unfolding dispatch_req
  dispatch_req-Handled r sub fs w =
      let r1 = (limited r m fd req).1 in
      let (h1, same) = limited-Handled r req w in
      let Good = Handled base fd r in
      if_ind Good (limited r m fd req).0 (λ e. emit-Handled base fd r r1 fd _ h1)
        λ e.
          if_ind Good ((length sub == 0) || ltb max_sub_id (length sub))
            (λ b. emit-Handled base fd r r1 fd _ h1)
            λ b.
              if_ind Good (ltb max_filters (length fs)) (λ c. emit-Handled base fd r r1 fd _ h1)
                λ c.
                  Handled-trans base fd h1
                    (handle_req-Handled base fd laws m r1 sub fs (ground arith) h1.working)

  dispatch_close-Handled :
      (r : Relay p) (sub : Text) → IsWorking base r → Handled base fd r (dispatch_close r fd sub)
  unfolding dispatch_close
  dispatch_close-Handled r sub w =
      emit-Handled base fd r (handle_close r fd sub).1 fd _
        (handle_close-Handled base fd laws m r sub w)

  dispatch-Handled :
      (r : Relay p) (msg : RouterMsg)
      → r.store.engine.next_file_index + 1 < 2 ^ 32
      → IsWorking base r
      → Handled base fd r (dispatch r m fd msg)
  unfolding dispatch
  dispatch-Handled r (event_in ev) space w = dispatch_event-Handled r ev space w
  dispatch-Handled r (req_in sub fs) space w = dispatch_req-Handled r sub fs w
  dispatch-Handled r (close_in sub) space w = dispatch_close-Handled r sub w
  dispatch-Handled r auth_in space w = emit-Handled base fd r r fd _ (Handled-refl base fd r w)
  dispatch-Handled r unknown_in space w = emit-Handled base fd r r fd _ (Handled-refl base fd r w)
  dispatch-Handled r invalid_in space w = emit-Handled base fd r r fd _ (Handled-refl base fd r w)

  -- A message that cannot be parsed is answered, any other is dispatched.
  parsed-Handled :
      (r : Relay p) (result : RelayError) (msg : RouterMsg)
      → r.store.engine.next_file_index + 1 < 2 ^ 32
      → IsWorking base r
      → Handled base fd r (elim result [
        | relay_ok ↦ dispatch r m fd msg
        | e ↦ emit r fd (notice_msg (codes "error: failed to parse message"))
      ])
  parsed-Handled r relay_ok msg space w = dispatch-Handled r msg space w
  parsed-Handled r e msg space w = emit-Handled base fd r r fd _ (Handled-refl base fd r w)

  -- `on_ws_message` on a relay that works and has a file number left keeps the relay's objects valid,
  -- the connections, and every other connection's bucket, and gives no other connection a
  -- subscription, whatever the bytes are.
  pub on_ws_message-Handled :
      (r : Relay p) (json : Bytes)
      → r.store.engine.next_file_index + 1 < 2 ^ 32
      → IsWorking base r
      → Handled base fd r (on_ws_message r m fd json)
  unfolding on_ws_message
  on_ws_message-Handled r json space w =
      if_ind (Handled base fd r) ((length json == 0) || ltb max_frame_size (length json))
        (λ e. Handled-refl base fd r w)
        λ e. parsed-Handled r (parse p.codec json).0 (parse p.codec json).1 space w
