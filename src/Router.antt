-- ===== src/Router.antt =====
-- main/router.h and main/router.c: the messages of clients and of the relay, and how a reply gets
-- to a client. The relay's messages are printed by libnostr-c.
pub mod Dispatch
pub mod Answers
use wisp_esp.Base.{
  ℕ, Bool, true, false, List, [], ◌++◌, Option, none, some, take, length, if◌then◌else◌,
}
use wisp_esp.Base.Text.{codes}
use wisp_esp.Protocol.{
  Text, Bytes, Event, Filter, RelayError, relay_ok, invalid_sig, sig_mismatch, invalid_id,
  id_mismatch, future_event, expired_event, storage_failed,
}
use wisp_esp.WsServer.{EspErr, esp_no_mem, WsServer}
use wisp_esp.WsServer.Frames.{Httpd, send}

abbrev pub max_filters : ℕ
max_filters = 4

abbrev pub max_sub_id : ℕ
max_sub_id = 64

abbrev pub send_buf_size : ℕ
send_buf_size = 512

abbrev pub event_buf_size : ℕ
event_buf_size = 16384

-- `nostr_relay_msg_t` of libnostr-c, by the constructors that the file calls.
pub data RelayMsg : Type 0 where
  event_msg : Text → Event → RelayMsg
  ok_msg : Text → Bool → Text → RelayMsg
  eose_msg : Text → RelayMsg
  closed_msg : Text → Text → RelayMsg
  notice_msg : Text → RelayMsg

-- `nostr_client_msg_t` of libnostr-c. (The filters of a request are given as a list.)
pub data ClientMsg : Type 0 where
  client_event : Event → ClientMsg
  client_req : Text → List Filter → ClientMsg
  client_close : Text → ClientMsg
  client_auth client_other : ClientMsg

-- `router_msg_t`
pub data RouterMsg : Type 0 where
  event_in : Event → RouterMsg
  req_in : Text → List Filter → RouterMsg
  close_in : Text → RouterMsg
  auth_in unknown_in invalid_in : RouterMsg

-- The functions of libnostr-c for messages: a parse gives a code and, with `NOSTR_RELAY_OK`, a
-- message, and a message is printed if it fits the buffer.
pub record Codec : Type 0 where
  pub parse_client : Bytes → RelayError × ClientMsg
  pub serialize_msg : RelayMsg → ℕ → Option Bytes

-- `strncpy` into the field of 65 bytes.
abbrev pub cut_id : Text → Text
cut_id id = take max_sub_id id

abbrev pub router_msg : ClientMsg → RouterMsg
router_msg (client_event ev) = event_in ev
router_msg (client_req id fs) = req_in (cut_id id) fs
router_msg (client_close id) = close_in (cut_id id)
router_msg client_auth = auth_in
router_msg client_other = unknown_in

-- `router_parse`
unfoldable pub parse : Codec → Bytes → RelayError × RouterMsg
parse codec json =
    let (result, msg) = codec.parse_client json in
    elim result [ relay_ok ↦ (relay_ok, router_msg msg) | e ↦ (e, invalid_in) ]

module _ (codec : Codec) (httpd : Httpd) where
  open httpd use {Net}

  -- `send_relay_msg`
  unfoldable pub send_relay_msg : WsServer → ℕ → RelayMsg → Net → EspErr × Net
  send_relay_msg s fd msg net = elim (codec.serialize_msg msg send_buf_size) [
    | none ↦ (esp_no_mem, net)
    | some bytes ↦ send httpd s fd bytes net
  ]

  -- `router_send_event`
  unfoldable pub send_event : WsServer → ℕ → Text → Event → Net → EspErr × Net
  send_event s fd id ev net =
      let (buf, net') = httpd.malloc event_buf_size net in
      if buf
      then (elim (codec.serialize_msg (event_msg id ev) event_buf_size) [
        | none ↦ (esp_no_mem, net')
        | some bytes ↦ send httpd s fd bytes net'
      ])
      else (esp_no_mem, net')

  -- The function of the file that sends a message: `router_send_event` for an event, and the one
  -- that is named after the message for any other.
  unfoldable pub send_msg : WsServer → ℕ → RelayMsg → Net → EspErr × Net
  send_msg s fd (event_msg id ev) net = send_event s fd id ev net
  send_msg s fd (ok_msg id accepted text) net = send_relay_msg s fd (ok_msg id accepted text) net
  send_msg s fd (eose_msg id) net = send_relay_msg s fd (eose_msg id) net
  send_msg s fd (closed_msg id text) net = send_relay_msg s fd (closed_msg id text) net
  send_msg s fd (notice_msg text) net = send_relay_msg s fd (notice_msg text) net

-- `NOSTR_OK_PREFIX_INVALID` and `NOSTR_OK_PREFIX_ERROR` of libnostr-c.
pub record Prefixes : Type 0 where
  pub invalid : Text
  pub error : Text

-- `get_event_rejection_message`
unfoldable pub rejection_message : Prefixes → RelayError → Text
rejection_message p invalid_sig = p.invalid ++ codes "bad signature"
rejection_message p sig_mismatch = p.invalid ++ codes "bad signature"
rejection_message p invalid_id = p.invalid ++ codes "bad event id"
rejection_message p id_mismatch = p.invalid ++ codes "bad event id"
rejection_message p future_event = p.invalid ++ codes "event too far in future"
rejection_message p expired_event = p.invalid ++ codes "event expired"
rejection_message p storage_failed = p.error ++ codes "could not save event"
rejection_message p _ = p.error ++ codes "internal error"
