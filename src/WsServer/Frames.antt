-- ===== src/WsServer/Frames.antt =====
-- main/ws_server.c: the handler of requests and frames, and the ways out to a client.
use wisp_esp.Base.{
  ℕ, ◌+◌, Bool, false, not, ◌&&◌, List, [], ◌∷◌, Option, none, some, map, leb, ltb, ◌==◌,
  if◌then◌else◌, length, bytes_eq,
}
use wisp_esp.Base.Text.{codes}
use wisp_esp.Protocol.{Text, Bytes}
use wisp_esp.WsServer.{
  EspErr, esp_ok, esp_fail, esp_no_mem, esp_invalid_state, is_ok, Connection, WsServer,
  max_frame_size, update_activity,
}

pub data FrameType : Type 0 where
  text_frame ping_frame close_frame other_frame : FrameType

-- What the handler learns of a request: the method and the header `Upgrade` (`none` is missing or
-- too long), and for a frame the answers of the two calls that receive it, the allocation
-- between them, and that of the pong.
pub record Request : Type 0 where
  pub is_get : Bool
  pub upgrade : Option Text
  pub fd : ℕ
  pub len_answer : EspErr
  pub len : ℕ
  pub buffer : Bool
  pub frame_answer : EspErr
  pub frame_type : FrameType
  pub payload : Bytes
  pub pong_answer : EspErr
  pub info_answer : EspErr

-- What the handler does besides its result: it passes a message to the callback, or has a frame
-- or the information document sent.
pub data Action : Type 0 where
  nothing info_page close_reply : Action
  message : ℕ → Bytes → Action
  pong : Bytes → Action

abbrev pub to_lower : ℕ → ℕ
to_lower c = if leb b'A' c && leb c b'Z' then c + 32 else c

-- `strcasecmp(…) == 0`
abbrev pub same_caseless : Text → Text → Bool
same_caseless s t = bytes_eq (map to_lower s) (map to_lower t)

abbrev pub is_upgrade : Option Text → Bool
is_upgrade none = false
is_upgrade (some h) = same_caseless h (codes "websocket")

-- The switch on the type of a frame that was received.
unfoldable pub on_frame : WsServer → Request → FrameType → EspErr × Action
on_frame s req text_frame = (esp_ok, (if s.on_message then message req.fd req.payload else nothing))
on_frame s req ping_frame = (req.pong_answer, pong req.payload)
on_frame s req close_frame = (esp_fail, close_reply)
on_frame s req other_frame = (esp_ok, nothing)

-- `ws_handler`
unfoldable pub ws_handler : ℕ → WsServer → Request → EspErr × Action × WsServer
ws_handler micros s req =
    if req.is_get
    then (if is_upgrade req.upgrade then (esp_ok, nothing, s) else (req.info_answer, info_page, s))
    else (if not (is_ok req.len_answer)
        then (req.len_answer, nothing, s)
        else (if req.len == 0
            then (esp_ok, nothing, s)
            else (if ltb max_frame_size req.len
                then (esp_fail, nothing, s)
                else (if not req.buffer
                    then (esp_no_mem, nothing, s)
                    else (if not (is_ok req.frame_answer)
                        then (req.frame_answer, nothing, s)
                        else (let (answer, action) = on_frame s req req.frame_type in
                            (
                              answer,
                              action,
                              (if s.installed then update_activity micros s req.fd else s),
                            )))))))

-- The HTTP server's sockets and work queue, and the allocator. `send_frame` is the call for the
-- request at hand, `queue_work` has `ws_async_send` called later with a copy of the bytes.
pub record Httpd : Type 1 where
  pub Net : Type 0
  pub send_frame : ℕ → Bytes → Net → EspErr × Net
  pub send_frame_async : ℕ → Bytes → Net → EspErr × Net
  pub queue_work : ℕ → Bytes → Net → EspErr × Net
  pub malloc : ℕ → Net → Bool × Net
  pub trigger_close : ℕ → Net → Net

-- The size of `async_send_arg_t` on a 32-bit processor.
abbrev pub arg_size : ℕ
arg_size = 16

abbrev pub is_current : WsServer → ℕ → Bool
is_current s fd = elim s.current [ none ↦ false | some c ↦ c == fd ]

module _ (httpd : Httpd) where
  open httpd use {Net}

  -- `ws_server_send`
  unfoldable pub send : WsServer → ℕ → Bytes → Net → EspErr × Net
  send s fd bytes net =
      let (arg, net1) = httpd.malloc arg_size net in
      let (copy, net2) = httpd.malloc (length bytes) net1 in
      if s.running
      then (if is_current s fd
          then httpd.send_frame fd bytes net
          else (if arg
              then (if copy then httpd.queue_work fd bytes net2 else (esp_no_mem, net2))
              else (esp_no_mem, net1)))
      else (esp_invalid_state, net)

  -- `ws_async_send`, which the HTTP server's task runs; its result is only logged.
  abbrev pub async_send : ℕ → Bytes → Net → Net
  async_send fd bytes net = (httpd.send_frame_async fd bytes net).1

  -- The loop of `ws_server_broadcast`.
  unfoldable pub broadcast_loop : WsServer → List Connection → Bytes → Net → Net
  broadcast_loop s [] bytes net = net
  broadcast_loop s (c ∷ cs) bytes net =
      broadcast_loop s cs bytes (if c.active then (send s c.fd bytes net).1 else net)

  -- `ws_server_broadcast`
  abbrev pub broadcast : WsServer → Bytes → Net → EspErr × Net
  broadcast s bytes net = (esp_ok, broadcast_loop s s.connections bytes net)

  -- `ws_server_close_connection`
  abbrev pub close_connection : WsServer → ℕ → Net → Net
  close_connection s fd net = if s.running then httpd.trigger_close fd net else net
