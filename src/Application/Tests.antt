-- ===== src/Application/Tests.antt =====
-- A run of the relay of main/main.c at concrete inputs, and the theorems on the whole relay there.
-- The store is empty and every allocation succeeds; each frame is a REQ or, if it is longer, an EVENT.
use wisp_esp.Base.{
  ℕ, ◌+◌, ◌-◌, ◌^◌, ◌<◌, ◌≡◌, refl, true, false, ◌==◌, [], ◌∷◌, none, some, arith, length,
  count_where, find_entry, bytes_eq, if◌then◌else◌,
}
use wisp_esp.Base.Text.{codes}
use wisp_esp.Base.Int.{pos}
use wisp_esp.Protocol.{Text, Filter, relay_ok}
use wisp_esp.RateLimiter.{event, check, seconds}
use wisp_esp.RateLimiter.View.{bucket_of, grant}
use wisp_esp.SubManager
use wisp_esp.SubManager.{add, max_per_conn}
use wisp_esp.SubManager.Memory.{blocks, no_filter}
use wisp_esp.SubManager.Connections.{subs_of}
use wisp_esp.Storage.Persist.{no_engine, blank_engine, init_index, load_index}
use wisp_esp.Storage.Invariant.{IsValid}
use wisp_esp.Storage.Tests.{disk, disk_laws, plain, note, blank}
use wisp_esp.Storage.NvsTests.{flash, flash_laws, no_values}
use wisp_esp.Storage.Types.{entries}
use wisp_esp.Storage.Recovery.{no_index, init_index-HasIndex}
use wisp_esp.WsServer.{Peer, inet4, esp_ok, esp_no_mem, is_fd, no_connections, on_open}
use wisp_esp.WsServer.Frames.{Request, text_frame}
use wisp_esp.WsServer.Invariant.{IsOpen}
use wisp_esp.Router.{client_event, client_req}
use wisp_esp.Relay.{Platform, Relay, Moment}
use wisp_esp.Deletion.{DeletionLib, Round}
use wisp_esp.Application.{
  StartAnswers, relay_config, start, socket_opened, socket_closed, request_received, cleanup_round,
  on_ws_message,
}
use wisp_esp.Application.Working.{Handled}
use wisp_esp.Application.Handling.{Laws}
use wisp_esp.Application.Dispatching.{on_ws_message-Handled}
use wisp_esp.Application.Invariant.{
  IsSound, IsForgotten, socket_opened-IsSound, socket_closed-IsSound,
}
use wisp_esp.Application.Runs.{here, then_step, opens, closes, receives, cleans, Reach-IsSound}
use wisp_esp.Application.Starting.{IsUp, started, started-IsSound, start-IsSound}
use wisp_esp.Application.Failing.{IsDown, start-IsDown}
use wisp_esp.Application.Room.{check_has_room, own_or_new, add_has_room}

abbrev pub feed : Text
feed = b'f' ∷ []

abbrev pub deletions : DeletionLib
deletions = record {
  parse_deletion = λ e. some (record { event_ids = feed ∷ []; addresses = []; pubkey = e.pubkey });
  authorized = λ request e. bytes_eq request.pubkey e.pubkey;
  d_tag = λ e. none;
  bytes_to_hex = λ b. b;
  scan_address = λ t. none;
  atoi = λ t. pos 0;
}

abbrev pub notes : Filter
notes = record no_filter { kinds = pos 1 ∷ [] }

abbrev pub board : Platform
board = record {
  lib = plain;
  del = deletions;
  fs = disk;
  nvs = flash;
  checks = record {
    validate_full = λ e m. relay_ok;
    difficulty = λ id. 8;
    is_ephemeral = λ k. false;
  };
  codec = record {
    parse_client = λ json.
        (relay_ok, (if length json == 1 then client_req feed (notes ∷ []) else client_event note));
    serialize_msg = λ msg room. none;
  };
  prefixes = record { invalid = codes "invalid: "; error = codes "error: " };
  id_hex = λ e. e.id;
  filters_match = λ fs e. true;
  grants = λ n. true;
  filter_free = λ f m. record m { live = m.live - blocks f };
}

pub board-Laws : Laws board
board-Laws = record { frees = λ f m. refl; files = disk_laws }

-- Before the first start.
abbrev pub cold : Relay board
cold = record {
  server = record {
    running = false;
    connections = no_connections;
    connection_count = 0;
    installed = false;
    on_message = false;
    on_disconnect = false;
    current = none;
  };
  sub_manager = record { subs = []; active_count = 0; lock = false };
  memory = record { calls = 0; live = 7 };
  store = record { engine = no_engine 0 0; files = blank; saved = no_values };
  limiter = record { config = record { events_per_minute = 0; reqs_per_minute = 0 }; buckets = [] };
  has_subs = false;
  has_storage = false;
  has_limiter = false;
  config = relay_config;
  sent = [];
}

abbrev fine : StartAnswers
fine = record {
  subs_lock = true;
  storage = record { lock = true; large = false; small = true; mounted = true };
  task = true;
  server_lock = true;
  server_started = esp_ok;
  handler_registered = esp_ok;
}

fine-IsUp : IsUp fine
fine-IsUp = record {
  subs_lock = refl;
  ready = refl;
  array = refl;
  mounted = refl;
  task = refl;
  server_lock = refl;
  server_started = refl;
  handler_registered = refl;
}

empty-IsValid :
    IsValid (init_index flash (blank_engine 1000 relay_config.max_event_age_sec) no_values)
empty-IsValid =
    (init_index-HasIndex flash flash_laws relay_config.max_event_age_sec (omega arith)
      (no_index no_values refl)).1

start-IsSound_example : IsSound 7 (start cold fine) × (entries (start cold fine).store.engine ≡ [])
start-IsSound_example =
    start-IsSound cold fine flash_laws [] refl fine-IsUp (no_index no_values refl)

-- The same without a server.
start-IsDown_example : IsDown (start cold (record fine { server_started = esp_no_mem }))
start-IsDown_example =
    start-IsDown cold (record fine { server_started = esp_no_mem })
      (record {
        stopped = refl;
        no_subs = refl;
        no_storage = refl;
        no_limiter = refl;
        subs_lock = refl;
        store = record { off = refl; array = refl; lock = refl; unmounted = refl };
      })
      refl

abbrev pub warm : Relay board
warm = started cold fine

warm-IsSound : IsSound 7 warm
warm-IsSound = started-IsSound cold fine empty-IsValid

-- Socket 5 is opened.
abbrev pub phone : Peer
phone = inet4 (some (codes "10.0.0.5"))

abbrev pub one_open : Relay board
one_open = socket_opened warm phone 3_000_000 5

pub connected : IsOpen one_open.server 5
unfolding socket_opened on_open find_entry count_where
connected = omega arith

pub one_open-IsSound : IsSound 7 one_open
unfolding count_where
one_open-IsSound = socket_opened-IsSound 7 warm phone 3_000_000 5 warm-IsSound refl

abbrev pub round : ℕ → Round
round i = record { time = 1001; room = true; buffer = true; buffers = λ path. true; filter = true }

abbrev pub noon : Moment board
noon = record {
  timer = 4_000_000;
  timer' = 4_000_000;
  now = 1000;
  time = 1000;
  save_buffer = true;
  ids_buffer = true;
  queries = round;
  deletion = record { by_id = round; by_address = round; by_kind = round };
}

-- A text frame of one byte, which is a REQ.
abbrev pub frame : Request
frame = record {
  is_get = false;
  upgrade = none;
  fd = 5;
  len_answer = esp_ok;
  len = 1;
  buffer = true;
  frame_answer = esp_ok;
  frame_type = text_frame;
  payload = b'r' ∷ [];
  pong_answer = esp_ok;
  info_answer = esp_ok;
}

numbers_left : one_open.store.engine.next_file_index + 1 < 2 ^ 32
unfolding socket_opened init_index load_index
numbers_left = omega arith

on_ws_message-Handled_example : Handled 7 5 one_open (on_ws_message one_open noon 5 (b'r' ∷ []))
on_ws_message-Handled_example =
    on_ws_message-Handled 7 5 board-Laws noon one_open (b'r' ∷ []) numbers_left
      one_open-IsSound.working

fresh : count_where (is_fd 5) warm.server.connections ≡ 0
unfolding count_where
fresh = refl

-- The socket opens, sends its REQ and closes, and the cleanup task does a round.
Reach-IsSound_example :
    IsSound 7
      (cleanup_round (socket_closed (request_received one_open noon 4_000_000 frame).1 5) 0 2000).1
Reach-IsSound_example = Reach-IsSound 7 board-Laws warm _ warm-IsSound (
    then_step
      (then_step
        (then_step (then_step here (opens phone 3_000_000 5 fresh))
          (receives noon 4_000_000 frame connected numbers_left))
        (closes 5))
      (cleans 0 2000))

socket_closed-IsSound_example :
    IsSound 7 (socket_closed one_open 5)
    × IsForgotten (socket_closed one_open 5) 5
    × (count_where (is_fd 5) (socket_closed one_open 5).server.connections ≡ 0)
socket_closed-IsSound_example = socket_closed-IsSound 7 board-Laws one_open 5 one_open-IsSound

check_has_room_example :
    (check one_open.limiter 5 event 4_000_000 4_000_000).0
    ≡ (grant one_open.limiter.config
        (own_or_new 5 4_000_000 (bucket_of one_open.limiter 5))
        event
        (seconds 4_000_000)).0
check_has_room_example = check_has_room 7 one_open one_open-IsSound 5 event 4_000_000 4_000_000

pub few : subs_of 5 one_open.sub_manager < max_per_conn
unfolding socket_opened count_where SubManager.init
few = omega arith

add_has_room_example :
    (add board.grants board.filter_free one_open.sub_manager 5 feed (notes ∷ []) one_open.memory).0
    ≡ relay_ok
add_has_room_example =
    add_has_room 7 one_open one_open-IsSound board-Laws 5 feed (notes ∷ []) connected few λ n. refl
