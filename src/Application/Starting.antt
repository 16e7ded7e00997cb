-- ===== src/Application/Starting.antt =====
-- `start_relay_server` of main/main.c: the relay that it sets up, and what a start that fails leaves.
use wisp_esp.Base.{
  List, ◌||◌, ◌≡◌, refl, inr, true, false, some, arith, if_ind, first_where, count_where,
}
use wisp_esp.RateLimiter
use wisp_esp.RateLimiter.Invariant.{init-IsValid}
use wisp_esp.SubManager
use wisp_esp.SubManager.Invariant.{init-Owns}
use wisp_esp.Storage.Types.{IndexEntry, Engine, entries}
use wisp_esp.Storage.Persist.{cells_of, storage_init, init_index, blank_engine}
use wisp_esp.Storage.Chunks.{NvsLaws}
use wisp_esp.Storage.Recovery.{HasIndex, init_index-HasIndex, cells_of-le}
use wisp_esp.Storage.Invariant.{IsValid}
use wisp_esp.WsServer
use wisp_esp.WsServer.{WsServer, EspErr, esp_ok, is_ok, no_connections}
use wisp_esp.WsServer.Invariant.{fresh-IsValid}
use wisp_esp.Relay.{Platform, Relay}
use wisp_esp.Application.{StartAnswers, relay_config, rate_config, start_storage, start}
use wisp_esp.Application.Invariant.{IsSound}

-- Every call that the start makes succeeds, with one of the two arrays of the index.
pub record IsUp (a : StartAnswers) : Type 0 where
  pub subs_lock : a.subs_lock ≡ true
  pub ready : a.storage.lock ≡ true
  pub array : (a.storage.large || a.storage.small) ≡ true
  pub mounted : a.storage.mounted ≡ true
  pub task : a.task ≡ true
  pub server_lock : a.server_lock ≡ true
  pub server_started : is_ok a.server_started ≡ true
  pub handler_registered : is_ok a.handler_registered ≡ true

module _ {p : Platform} (r : Relay p) (a : StartAnswers) where
  abbrev fresh_engine : Engine
  fresh_engine = blank_engine (cells_of a.storage) relay_config.max_event_age_sec

  -- The relay that a start sets up where every call succeeds.
  abbrev pub started : Relay p
  started = record r {
    config = relay_config;
    sub_manager = SubManager.init true;
    has_subs = true;
    store = record r.store { engine = init_index p.nvs fresh_engine r.store.saved };
    has_storage = true;
    limiter = RateLimiter.init (some rate_config);
    has_limiter = true;
    server = record r.server {
      running = true;
      connections = no_connections;
      connection_count = 0;
      installed = true;
      on_message = true;
      on_disconnect = true;
    };
  }

  init_up :
      r.server.running ≡ false
      → IsUp a
      → WsServer.init a.server_lock a.server_started a.handler_registered r.server
        ≡ (esp_ok, record started.server { on_disconnect = r.server.on_disconnect })
  unfolding WsServer.init
  init_up off up =
      let Up = λ (out : EspErr × WsServer).
        out ≡ (esp_ok, record started.server { on_disconnect = r.server.on_disconnect }) in
      if_ind Up r.server.running (λ e. absurd (cc))
        λ e.
          if_ind Up a.server_lock
            (λ l.
              if_ind Up (is_ok a.server_started)
                (λ s.
                  if_ind Up (is_ok a.handler_registered) (λ h. refl)
                    λ h. absurd (let g = up.handler_registered in cc))
                λ s. absurd (let g = up.server_started in cc))
            λ l. absurd (let g = up.server_lock in cc)

  init_ready :
      IsUp a
      → storage_init p.nvs a.storage relay_config.max_event_age_sec r.store.saved
        ≡ (true, started.store.engine)
  unfolding storage_init
  init_ready up = rw (up.ready, up.array, up.mounted) refl

  start-started : r.server.running ≡ false → IsUp a → start r a ≡ started
  unfolding start start_storage
  start-started off up =
      let Up = λ (out : Relay p). out ≡ started in
      if_ind Up r.server.running (λ e. absurd (cc))
        λ e. rw (up.subs_lock, init_ready up, up.task, init_up off up) refl

  pub started-IsSound : IsValid started.store.engine → IsSound r.memory.live started
  unfolding RateLimiter.init SubManager.init first_where count_where
  started-IsSound v = record {
    working = record {
      table = init-Owns true r.memory;
      index = v;
      buckets = init-IsValid (some rate_config) (omega arith);
      has_subs = refl;
      has_storage = refl;
      has_limiter = refl;
    };
    server = fresh-IsValid started.server refl refl;
    installed = refl;
    hook = refl;
    tracked = λ fd. inr (record { bucket = refl; subs = refl });
  }

  -- Where the relay was not running, NVS keeps its laws and holds no index yet or one that a valid
  -- engine of this size has saved with success, and every call of `start_relay_server` succeeds, the
  -- start leaves a sound relay with exactly the entries that were saved, whose subscriptions hold no
  -- memory.
  pub start-IsSound :
      (laws : NvsLaws p.nvs) (es : List IndexEntry)
      → r.server.running ≡ false
      → IsUp a
      → HasIndex p.nvs (cells_of a.storage) es r.store.saved
      → IsSound r.memory.live (start r a) × (entries (start r a).store.engine ≡ es)
  start-IsSound laws es off up has =
      let (same, v) =
        init_index-HasIndex p.nvs laws relay_config.max_event_age_sec (cells_of-le a.storage) has in
      rw (start-started off up) (started-IsSound v, same)
