-- ===== src/WsServer.antt =====
-- main/ws_server.h and main/ws_server.c: the table of connections, the handler of frames, and what
-- is handed to the HTTP server of ESP-IDF, whose calls are parameters. The table is guarded by
-- the server's mutex, and the callbacks and the handler run in the one task of the HTTP server.
-- The pointer `g_server` is set exactly while the server is installed.
pub mod Frames
pub mod Invariant
pub mod Attending
pub mod Accepting
mod Tests
use wisp_esp.Base.{
  ℕ, ◌+◌, ◌-◌, ◌/◌, ◌%◌, ◌^◌, Bool, true, false, not, ◌&&◌, List, [], ◌∷◌, ◌++◌, Option, none, some,
  leb, ltb, ◌==◌, if◌then◌else◌, to_u32, replicate, set, take, length, find_entry,
}
use wisp_esp.Base.Text.{codes}
use wisp_esp.Protocol.{Text, Bytes}

abbrev pub max_connections : ℕ
max_connections = 8

abbrev pub max_frame_size : ℕ
max_frame_size = 65536

-- `INET6_ADDRSTRLEN`
abbrev pub ip_len : ℕ
ip_len = 46

pub record Connection : Type 0 where
  pub fd : ℕ
  pub active : Bool
  pub connected_at : ℕ
  pub last_activity : ℕ
  pub remote_ip : Text

-- `ws_server_t` with the file's global variables: `running` is `server->server != NULL`,
-- `installed` is `g_server != NULL`, `on_message` and `on_disconnect` tell whether the callbacks
-- are set, and `current` is the socket of `g_current_req`.
pub record WsServer : Type 0 where
  pub running : Bool
  pub connections : List Connection
  pub connection_count : ℕ
  pub installed : Bool
  pub on_message : Bool
  pub on_disconnect : Bool
  pub current : Option ℕ

-- The codes of ESP-IDF that the file names; `esp_other` is any other error.
pub data EspErr : Type 0 where
  esp_ok esp_fail esp_no_mem esp_invalid_state : EspErr
  esp_other : ℕ → EspErr

abbrev pub is_ok : EspErr → Bool
is_ok esp_ok = true
is_ok _ = false

-- `memset` to zero.
abbrev pub zero_connection : Connection
zero_connection = record {
  fd = 0;
  active = false;
  connected_at = 0;
  last_activity = 0;
  remote_ip = [];
}

abbrev pub no_connections : List Connection
no_connections = replicate max_connections zero_connection

-- `esp_timer_get_time() / 1000000` in a `uint32_t`.
abbrev pub uptime : ℕ → ℕ
uptime micros = to_u32 (micros / 1_000_000)

-- The tests of `find_free_slot` and of `find_connection_by_fd`.
abbrev pub is_free : Connection → Bool
is_free c = not c.active

abbrev pub is_fd : ℕ → Connection → Bool
is_fd fd c = c.active && (c.fd == fd)

-- `uint8_t` steps of `connection_count`.
abbrev pub incr8 : ℕ → ℕ
incr8 n = (n + 1) % 2 ^ 8

abbrev pub decr8 : ℕ → ℕ
decr8 n = (n + 2 ^ 8 - 1) % 2 ^ 8

-- `update_connection_activity`
unfoldable pub update_activity : ℕ → WsServer → ℕ → WsServer
update_activity micros s fd = elim (find_entry (is_fd fd) s.connections) [
  | none ↦ s
  | some (i, c) ↦ record s {
    connections = set s.connections i (record c { last_activity = uptime micros });
  }
]

-- `set_unknown_ip`
unfoldable pub unknown_ip : ℕ → Text
unknown_ip buf_len = take (buf_len - 1) (codes "unknown")

-- The answer of `getpeername`, with that of `inet_ntop` for the families of the internet.
pub data Peer : Type 0 where
  no_name other_family : Peer
  inet4 inet6 : Option Text → Peer

-- `get_client_ip`
unfoldable pub client_ip : Peer → ℕ → Text
client_ip no_name buf_len = unknown_ip buf_len
client_ip other_family buf_len = unknown_ip buf_len
client_ip (inet4 none) buf_len = unknown_ip buf_len
client_ip (inet4 (some ip)) buf_len = ip
client_ip (inet6 none) buf_len = unknown_ip buf_len
client_ip (inet6 (some ip)) buf_len = ip

-- What `on_open` writes into a free slot.
abbrev pub opened : Peer → ℕ → ℕ → Connection
opened peer micros fd = record {
  fd = fd;
  active = true;
  connected_at = uptime micros;
  last_activity = uptime micros;
  remote_ip = client_ip peer ip_len;
}

-- `on_open`; a refusal is `ESP_FAIL`.
unfoldable pub on_open : Peer → ℕ → WsServer → ℕ → EspErr × WsServer
on_open peer micros s fd =
    if s.installed
    then (if leb max_connections s.connection_count
        then (esp_fail, s)
        else (elim (find_entry is_free s.connections) [
          | none ↦ (esp_fail, s)
          | some (i, old) ↦ (
            esp_ok,
            record s {
              connections = set s.connections i (opened peer micros fd);
              connection_count = incr8 s.connection_count;
            },
          )
        ]))
    else (esp_fail, s)

-- `on_close` after its call of the disconnect callback.
unfoldable pub drop_connection : WsServer → ℕ → WsServer
drop_connection s fd = elim (find_entry (is_fd fd) s.connections) [
  | none ↦ s
  | some (i, c) ↦ record s {
    connections = set s.connections i zero_connection;
    connection_count = decr8 s.connection_count;
  }
]

-- `on_close`: whether the disconnect callback is called, and the server afterwards.
unfoldable pub on_close : WsServer → ℕ → Bool × WsServer
on_close s fd = if s.installed then (s.on_disconnect, drop_connection s fd) else (false, s)

-- `ws_server_set_disconnect_cb` with a callback.
abbrev pub set_disconnect_cb : WsServer → WsServer
set_disconnect_cb s = record s { on_disconnect = true }

-- `ws_server_is_running`
abbrev pub is_running : WsServer → Bool
is_running s = s.running

-- `ws_server_stop`
unfoldable pub stop : WsServer → WsServer
stop s = record s {
  running = false;
  connections = no_connections;
  connection_count = 0;
  installed = false;
  on_message = false;
  on_disconnect = false;
}

-- `cleanup_server_init`
unfoldable pub cleanup_init : WsServer → Bool → WsServer
cleanup_init s stop_httpd = record s {
  installed = false;
  on_message = false;
  running = if stop_httpd then false else s.running;
}

-- `ws_server_init` with the answers of the mutex, of `httpd_start` and of the registration of the
-- handler. (That of the handler of OPTIONS is only logged.)
unfoldable pub init : Bool → EspErr → EspErr → WsServer → EspErr × WsServer
init lock started registered s =
    let zeroed = record s { running = false; connections = no_connections; connection_count = 0 } in
    let set_up = record zeroed { installed = true; on_message = true } in
    let failed = cleanup_init set_up false in
    let stopped = cleanup_init (record set_up { running = true }) true in
    if s.running
    then (esp_invalid_state, s)
    else (if lock
        then (if is_ok started
            then (if is_ok registered
                then (esp_ok, record set_up { running = true })
                else (registered, stopped))
            else (started, failed))
        else (esp_no_mem, zeroed))
