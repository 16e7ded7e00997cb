-- ===== src/WsServer/Attending.antt =====
-- `ws_handler` of main/ws_server.c leaves the connections as they are, but for their time stamps.
use wisp_esp.Base.{
  ℕ, ◌≡◌, refl, Bool, true, false, not, ◌==◌, ltb, arith, if_ind, count_where, if◌then◌else◌,
}
use wisp_esp.Protocol.{Bytes}
use wisp_esp.WsServer.{WsServer, EspErr, is_ok, is_fd, max_frame_size, update_activity}
use wisp_esp.WsServer.Frames.{
  FrameType, text_frame, ping_frame, close_frame, other_frame, Request, Action, nothing, message,
  is_upgrade, on_frame, ws_handler,
}
use wisp_esp.WsServer.Invariant.{IsValid, update_activity-IsValid, update_activity-counts}

-- The same sockets are open.
pub record Attended (s s' : WsServer) : Type 0 where
  pub valid : IsValid s'
  pub installed : s'.installed ≡ s.installed
  pub hook : s'.on_disconnect ≡ s.on_disconnect
  pub counts :
      (fd : ℕ) → count_where (is_fd fd) s'.connections ≡ count_where (is_fd fd) s.connections

Attended-refl : (s : WsServer) → IsValid s → Attended s s
Attended-refl s v = record { valid = v; installed = refl; hook = refl; counts = λ fd. refl }

update_activity-flags :
    (micros : ℕ) (s : WsServer) (fd : ℕ)
    → ((update_activity micros s fd).installed ≡ s.installed)
      × ((update_activity micros s fd).on_disconnect ≡ s.on_disconnect)
unfolding update_activity
update_activity-flags micros s fd = (ground arith, ground arith)

update_activity-Attended :
    (micros : ℕ) (s : WsServer) (fd : ℕ) → IsValid s → Attended s (update_activity micros s fd)
update_activity-Attended micros s fd v =
    let (same, hook) = update_activity-flags micros s fd in
    record {
      valid = update_activity-IsValid micros s fd v;
      installed = same;
      hook = hook;
      counts = λ fd'. update_activity-counts micros s fd fd';
    }

module _ (micros : ℕ) (s : WsServer) (req : Request) (v : IsValid s) where
  -- What holds of an answer: its server, and the socket of a message that it passes on.
  pub record Fair (out : EspErr × Action × WsServer) : Type 0 where
    pub server : Attended s out.2
    pub target : (fd : ℕ) (json : Bytes) → out.1 ≡ message fd json → fd ≡ req.fd

  early :
      (e : EspErr) (a : Action)
      → ((fd : ℕ) (json : Bytes) → a ≡ message fd json → fd ≡ req.fd)
      → Fair (e, a, s)
  early e a t = record { server = Attended-refl s v; target = t }

  passed_target :
      (b : Bool) (fd : ℕ) (json : Bytes)
      → (if b then message req.fd req.payload else nothing) ≡ message fd json
      → fd ≡ req.fd
  passed_target true fd json e = cc
  passed_target false fd json e = cc

  type_target :
      (t : FrameType) (fd : ℕ) (json : Bytes) → (on_frame s req t).1 ≡ message fd json → fd ≡ req.fd
  unfolding on_frame
  type_target text_frame fd json e = passed_target s.on_message fd json e
  type_target ping_frame fd json e = cc
  type_target close_frame fd json e = cc
  type_target other_frame fd json e = cc

  pub ws_handler-Fair : Fair (ws_handler micros s req)
  unfolding ws_handler
  ws_handler-Fair =
      if_ind Fair req.is_get
        (λ g.
          if_ind Fair (is_upgrade req.upgrade) (λ u. early _ _ (λ fd json e. cc))
            λ u. early _ _ λ fd json e. cc)
        λ g.
          if_ind Fair (not (is_ok req.len_answer)) (λ e. early _ _ λ fd json e. cc)
            λ a.
              if_ind Fair (req.len == 0) (λ e. early _ _ λ fd json e. cc)
                λ b.
                  if_ind Fair (ltb max_frame_size req.len) (λ e. early _ _ λ fd json e. cc)
                    λ c.
                      if_ind Fair (not req.buffer) (λ e. early _ _ λ fd json e. cc)
                        λ d.
                          if_ind Fair (not (is_ok req.frame_answer))
                            (λ e. early _ _ λ fd json e. cc)
                            λ f. record {
                              server =
                                  if_ind (Attended s) s.installed
                                    (λ i. update_activity-Attended micros s req.fd v)
                                    λ i. Attended-refl s v;
                              target = type_target req.frame_type;
                            }
