-- ===== src/Relay.antt =====
-- main/relay_core.h and the global objects of main/main.c: the state of the whole relay. What the
-- relay sends is recorded as the list of its calls of the `router_send_…` functions, in order; no
-- caller looks at their results.
use wisp_esp.Base.{ℕ, Bool, List, [], ◌∷◌, ◌++◌}
use wisp_esp.Base.Int.{ℤ}
use wisp_esp.Protocol.{Text, Event, Filter}
use wisp_esp.RateLimiter.{RateLimiter}
use wisp_esp.SubManager.{SubManager}
use wisp_esp.SubManager.Memory.{Mem}
use wisp_esp.Storage.Types.{FileSystem, Library, Nvs}
use wisp_esp.Validator.{Checks}
use wisp_esp.WsServer.{WsServer}
use wisp_esp.Deletion.{DeletionLib, Store, Round, Rounds}
use wisp_esp.Router.{RelayMsg, Codec, Prefixes}

-- The code below the relay: libnostr-c, the file system, NVS and the allocator.
pub record Platform : Type 1 where
  pub lib : Library
  pub del : DeletionLib
  pub fs : FileSystem
  pub nvs : Nvs
  pub checks : Checks
  pub codec : Codec
  pub prefixes : Prefixes
  pub id_hex : Event → Text
  pub filters_match : List Filter → Event → Bool
  pub grants : ℕ → Bool
  pub filter_free : Filter → Mem → Mem

-- The fields of `ctx->config` that the relay reads.
pub record RelayConfig : Type 0 where
  pub port : ℕ
  pub max_event_age_sec : ℕ
  pub max_future_sec : ℤ

abbrev pub Sent : Type 0
Sent = ℕ × RelayMsg

-- `relay_ctx_t` with the objects that it points at; `has_storage` is `ctx->storage != NULL`, and so
-- for the others.
pub record Relay (p : Platform) : Type 0 where
  pub server : WsServer
  pub sub_manager : SubManager
  pub memory : Mem
  pub store : Store p.fs p.nvs
  pub limiter : RateLimiter
  pub has_subs : Bool
  pub has_storage : Bool
  pub has_limiter : Bool
  pub config : RelayConfig
  pub sent : List Sent

-- A call of a `router_send_…` function.
abbrev pub emit : {p : Platform} → Relay p → ℕ → RelayMsg → Relay p
emit r fd msg = record r { sent = r.sent ++ (fd, msg) ∷ [] }

-- What the clocks and the allocator answer while one message is handled.
pub record Moment (p : Platform) : Type 0 where
  pub timer : ℕ
  pub timer' : ℕ
  pub now : ℕ
  pub time : ℕ
  pub save_buffer : Bool
  pub ids_buffer : Bool
  pub queries : ℕ → Round
  pub deletion : Rounds p.lib p.del p.fs p.nvs
