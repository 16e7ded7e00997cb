-- ===== src/Application/Runs.antt =====
-- main/main.c: a request, the round of the cleanup task, and every sequence of what can befall the
-- relay that was started.
use wisp_esp.Base.{
  ℕ, ◌+◌, ◌^◌, ◌<◌, ◌≡◌, refl, sym, inl, inr, ◌∙◌, subst, Option, none, some, arith, count_where,
}
use wisp_esp.Protocol.{Bytes}
use wisp_esp.Storage.Cleanup.{cleanup_cycle-IsValid}
use wisp_esp.WsServer.{EspErr, Peer, is_fd}
use wisp_esp.WsServer.Invariant.{IsOpen}
use wisp_esp.WsServer.Frames.{
  Request, Action, message, nothing, info_page, close_reply, pong, ws_handler,
}
use wisp_esp.WsServer.Attending.{ws_handler-Fair}
use wisp_esp.Relay.{Platform, Relay, Moment}
use wisp_esp.Application.{
  on_ws_message, socket_opened, socket_closed, with_request, request_received, cleanup_round,
}
use wisp_esp.Application.Handling.{Laws}
use wisp_esp.Application.Dispatching.{on_ws_message-Handled}
use wisp_esp.Application.Invariant.{
  IsSound, reserved-IsSound, socket_opened-IsSound, Handled-IsSound, socket_closed-IsSound,
}

module _ {p : Platform} (base : ℕ) (laws : Laws p) where
  -- The request at hand is noted and forgotten.
  noted-IsSound :
      (r : Relay p) (c : Option ℕ)
      → IsSound base r
      → IsSound base (record r { server = record r.server { current = c } })
  noted-IsSound r c v =
      reserved-IsSound base r (record r.server { current = c }) v
        (record { size = v.server.size; counted = v.server.counted; single = v.server.single })
        v.installed v.hook λ fd. omega arith

  with_request-IsSound :
      (r : Relay p) (m : Moment p) (fd : ℕ) (json : Bytes)
      → r.store.engine.next_file_index + 1 < 2 ^ 32
      → IsSound base r
      → IsOpen r.server fd
      → IsSound base (with_request r m fd json)
  unfolding with_request
  with_request-IsSound r m fd json space v here =
      let r0 = record r { server = record r.server { current = some fd } } in
      let v0 = noted-IsSound r (some fd) v in
      let r1 = on_ws_message r0 m fd json in
      noted-IsSound r1 none (
        Handled-IsSound base laws r0 r1 fd v0 here
          (on_ws_message-Handled base fd laws m r0 json space v0.working))

  acted-IsSound :
      (r : Relay p) (m : Moment p) (fd : ℕ) (result : EspErr) (action : Action)
      → r.store.engine.next_file_index + 1 < 2 ^ 32
      → IsSound base r
      → IsOpen r.server fd
      → ((fd' : ℕ) (json : Bytes) → action ≡ message fd' json → fd' ≡ fd)
      → IsSound base
          (elim action as (λ x. EspErr × Relay p) [
            | message fd' json ↦ (result, with_request r m fd' json)
            | nothing ↦ (result, r)
            | info_page ↦ (result, r)
            | close_reply ↦ (result, r)
            | pong bytes ↦ (result, r)
          ]).1
  acted-IsSound r m fd result (message fd' json) space v here target =
      with_request-IsSound r m fd' json space v
        (subst (IsOpen r.server) (sym (target fd' json refl)) here)
  acted-IsSound r m fd result nothing space v here target = v
  acted-IsSound r m fd result info_page space v here target = v
  acted-IsSound r m fd result close_reply space v here target = v
  acted-IsSound r m fd result (pong bytes) space v here target = v

  -- A request or a frame from an open socket keeps the relay sound.
  pub request_received-IsSound :
      (r : Relay p) (m : Moment p) (micros : ℕ) (req : Request)
      → r.store.engine.next_file_index + 1 < 2 ^ 32
      → IsSound base r
      → IsOpen r.server req.fd
      → IsSound base (request_received r m micros req).1
  unfolding request_received
  request_received-IsSound r m micros req space v here =
      let out = ws_handler micros r.server req in
      let fair = ws_handler-Fair micros r.server req v.server in
      let v1 =
        reserved-IsSound base r out.2 v fair.server.valid (fair.server.installed ∙ v.installed)
          (fair.server.hook ∙ v.hook) (λ fd. omega (arith, fair.server.counts fd)) in
      acted-IsSound (record r { server = out.2 }) m req.fd out.0 out.1 space v1
        (omega (arith, here, fair.server.counts req.fd)) fair.target

  -- A round of the cleanup task keeps the relay sound.
  pub cleanup_round-IsSound :
      (r : Relay p) (cycles time : ℕ)
      → IsSound base r
      → IsSound base (cleanup_round r cycles time).1
  unfolding cleanup_round
  cleanup_round-IsSound r cycles time v = record {
    working = record {
      table = v.working.table;
      index =
          cleanup_cycle-IsValid p.lib p.fs p.nvs cycles r.store.engine time r.store.files
            r.store.saved v.working.index;
      buckets = v.working.buckets;
      has_subs = v.working.has_subs;
      has_storage = v.working.has_storage;
      has_limiter = v.working.has_limiter;
    };
    server = v.server;
    installed = v.installed;
    hook = v.hook;
    tracked = λ fd. elim (v.tracked fd) [
      | inl o ↦ inl o
      | inr f ↦ inr (record { bucket = f.bucket; subs = f.subs })
    ];
  }

-- What can befall the relay: a socket that was not open opens, one closes, a request or a frame
-- arrives on an open one while a file number is left, or the cleanup task does its round.
pub data Step {p : Platform} (r : Relay p) : Relay p → Type 1 where
  opens :
      (peer : Peer) (micros fd : ℕ)
      → count_where (is_fd fd) r.server.connections ≡ 0
      → Step r (socket_opened r peer micros fd)
  closes : (fd : ℕ) → Step r (socket_closed r fd)
  receives :
      (m : Moment p) (micros : ℕ) (req : Request)
      → IsOpen r.server req.fd
      → r.store.engine.next_file_index + 1 < 2 ^ 32
      → Step r (request_received r m micros req).1
  cleans : (cycles time : ℕ) → Step r (cleanup_round r cycles time).1

pub data Reach {p : Platform} (r : Relay p) : Relay p → Type 1 where
  here : Reach r r
  then_step : {r' r'' : Relay p} → Reach r r' → Step r' r'' → Reach r r''

pub Step-IsSound :
    {p : Platform} (base : ℕ) (laws : Laws p) (r r' : Relay p)
    → IsSound base r
    → Step r r'
    → IsSound base r'
Step-IsSound base laws r _ v (opens peer micros fd new) =
    socket_opened-IsSound base r peer micros fd v new
Step-IsSound base laws r _ v (closes fd) = (socket_closed-IsSound base laws r fd v).0
Step-IsSound base laws r _ v (receives m micros req on space) =
    request_received-IsSound base laws r m micros req space v on
Step-IsSound base laws r _ v (cleans cycles time) = cleanup_round-IsSound base laws r cycles time v

-- Let the platform keep its laws. A sound relay stays sound through any sequence of these steps: a
-- socket that was not open opens, a socket closes, a request or a frame arrives on an open socket
-- while a file number is left, the cleanup task does its round. Its tables stay valid, the memory of
-- the subscriptions is all accounted for, and only open sockets have a bucket or a subscription.
pub Reach-IsSound :
    {p : Platform} (base : ℕ) (laws : Laws p) (r r' : Relay p)
    → IsSound base r
    → Reach r r'
    → IsSound base r'
Reach-IsSound base laws r _ v here = v
Reach-IsSound base laws r _ v (then_step {r'} {r''} before step) =
    Step-IsSound base laws r' r'' (Reach-IsSound base laws r r' v before) step
