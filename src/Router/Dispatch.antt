-- ===== src/Router/Dispatch.antt =====
-- main/router.c, `router_dispatch`.
use wisp_esp.Base.{ℕ, Bool, false, not, ◌||◌, List, [], ltb, ◌==◌, if◌then◌else◌, length}
use wisp_esp.Base.Text.{codes}
use wisp_esp.Protocol.{Text, Event, Filter, is_relay_ok}
use wisp_esp.RateLimiter.{RateType, event, req, check}
use wisp_esp.Router.{
  RouterMsg, event_in, req_in, close_in, auth_in, unknown_in, invalid_in, ok_msg, closed_msg,
  notice_msg, max_filters, max_sub_id, rejection_message,
}
use wisp_esp.Relay.{Platform, Relay, Moment, emit}
use wisp_esp.Handlers.{handle_event, handle_req, handle_close}

module _ {p : Platform} where
  -- `ctx->rate_limiter && !rate_limiter_check(…)`: whether the message is refused.
  unfoldable pub limited : Relay p → Moment p → ℕ → RateType → Bool × Relay p
  limited r m fd type =
      let (allowed, limiter) = check r.limiter fd type m.timer m.timer' in
      if r.has_limiter then (not allowed, record r { limiter = limiter }) else (false, r)

  -- The case of an EVENT.
  unfoldable pub dispatch_event : Relay p → Moment p → ℕ → Event → Relay p
  dispatch_event r m fd ev =
      let (refused, r1) = limited r m fd event in
      let (result, r2) = handle_event r1 m ev in
      if refused
      then emit r1 fd (ok_msg (p.id_hex ev) false (codes "rate-limited:"))
      else emit r2 fd (
          ok_msg (p.id_hex ev) (is_relay_ok result)
            (if is_relay_ok result then [] else rejection_message p.prefixes result))

  -- The case of a REQ.
  unfoldable pub dispatch_req : Relay p → Moment p → ℕ → Text → List Filter → Relay p
  dispatch_req r m fd sub filters =
      let (refused, r1) = limited r m fd req in
      if refused
      then emit r1 fd (closed_msg sub (codes "rate-limited:"))
      else (if (length sub == 0) || ltb max_sub_id (length sub)
          then emit r1 fd (closed_msg sub (codes "error: invalid subscription id"))
          else (if ltb max_filters (length filters)
              then emit r1 fd (closed_msg sub (codes "error: too many filters"))
              else handle_req r1 m fd sub filters))

  -- The case of a CLOSE.
  unfoldable pub dispatch_close : Relay p → ℕ → Text → Relay p
  dispatch_close r fd sub =
      let (result, r1) = handle_close r fd sub in
      emit r1 fd (closed_msg sub (if is_relay_ok result then [] else codes "no such subscription"))

  -- `router_dispatch`
  unfoldable pub dispatch : Relay p → Moment p → ℕ → RouterMsg → Relay p
  dispatch r m fd (event_in ev) = dispatch_event r m fd ev
  dispatch r m fd (req_in sub filters) = dispatch_req r m fd sub filters
  dispatch r m fd (close_in sub) = dispatch_close r fd sub
  dispatch r m fd auth_in = emit r fd (notice_msg (codes "AUTH not implemented"))
  dispatch r m fd unknown_in = emit r fd (notice_msg (codes "unknown message type"))
  dispatch r m fd invalid_in = emit r fd (notice_msg (codes "invalid message format"))
