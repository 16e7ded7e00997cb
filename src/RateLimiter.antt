-- ===== src/RateLimiter.antt =====
-- main/rate_limiter.h and main/rate_limiter.c: one bucket for each connection, with a window of
-- sixty seconds. Each function runs under the limiter's mutex, so a call is one step here. The
-- readings of `esp_timer_get_time()`, in microseconds, are arguments of the calls. Descriptors
-- are the numbers of accepted sockets, which are not negative.
pub mod Invariant
pub mod View
pub mod Window
mod Tests
use wisp_esp.Base.{
  ℕ, ◌+◌, ◌/◌, ◌≡◌, Bool, true, false, not, ◌&&◌, List, Option, none, some, arith, leb, ltb, ◌==◌,
  if◌then◌else◌, to_u16, to_u32, sub32, replicate, set, find_entry,
}

abbrev pub max_buckets : ℕ
max_buckets = 16

pub data RateType : Type 0 where
  event req : RateType

pub record RateConfig : Type 0 where
  pub events_per_minute : ℕ
  pub reqs_per_minute : ℕ

pub record RateBucket : Type 0 where
  pub fd : ℕ
  pub event_count : ℕ
  pub req_count : ℕ
  pub window_start : ℕ
  pub active : Bool

pub record RateLimiter : Type 0 where
  pub config : RateConfig
  pub buckets : List RateBucket

abbrev pub default_config : RateConfig
default_config = record { events_per_minute = 30; reqs_per_minute = 60 }

abbrev pub zero_bucket : RateBucket
zero_bucket = record { fd = 0; event_count = 0; req_count = 0; window_start = 0; active = false }

-- `rate_limiter_init`; `none` is a null `config`.
unfoldable pub init : Option RateConfig → RateLimiter
init (some c) = record { config = c; buckets = replicate max_buckets zero_bucket }
init none = record { config = default_config; buckets = replicate max_buckets zero_bucket }

-- `esp_timer_get_time() / 1000000` in a `uint32_t`.
abbrev pub seconds : ℕ → ℕ
seconds micros = to_u32 (micros / 1_000_000)

-- `bucket.active && bucket.fd == fd`
abbrev pub owns : ℕ → RateBucket → Bool
owns fd b = b.active && (b.fd == fd)

abbrev pub is_free : RateBucket → Bool
is_free b = not b.active

abbrev pub new_bucket : ℕ → ℕ → RateBucket
new_bucket fd micros = record {
  fd = fd;
  event_count = 0;
  req_count = 0;
  window_start = seconds micros;
  active = true;
}

-- `get_bucket`: the connection's bucket, or a free one made its own, or `none` (`NULL`).
pub get_bucket : RateLimiter → ℕ → ℕ → Option (ℕ × RateBucket) × RateLimiter
get_bucket rl fd micros = elim (find_entry (owns fd) rl.buckets) [
  | some found ↦ (some found, rl)
  | none ↦ elim (find_entry is_free rl.buckets) [
    | none ↦ (none, rl)
    | some (i, old) ↦
        let b = new_bucket fd micros in (some (i, b), record rl { buckets = set rl.buckets i b })
  ]
]

-- A window of sixty seconds or more ago is over: `now - window_start >= 60` in `uint32_t`.
pub refresh : RateBucket → ℕ → RateBucket
refresh b now =
    if leb 60 (sub32 now b.window_start)
    then record b { event_count = 0; req_count = 0; window_start = now }
    else b

-- The test against the limit, and the `uint16_t` increment.
pub charge : RateConfig → RateBucket → RateType → Bool × RateBucket
charge c b event =
    if leb c.events_per_minute b.event_count
    then (false, b)
    else (true, record b { event_count = to_u16 (b.event_count + 1) })
charge c b req =
    if leb c.reqs_per_minute b.req_count
    then (false, b)
    else (true, record b { req_count = to_u16 (b.req_count + 1) })

-- `rate_limiter_check`, with the two readings of the timer.
pub check : RateLimiter → ℕ → RateType → ℕ → ℕ → Bool × RateLimiter
check rl fd type micros micros' =
    let (slot, rl') = get_bucket rl fd micros in
    elim slot [
      | none ↦ (false, rl')
      | some (i, b) ↦
          let (allowed, b') = charge rl'.config (refresh b (seconds micros')) type in
          (allowed, record rl' { buckets = set rl'.buckets i b' })
    ]

-- `rate_limiter_reset`
pub reset : RateLimiter → ℕ → RateLimiter
reset rl fd = elim (find_entry (owns fd) rl.buckets) [
  | none ↦ rl
  | some (i, b) ↦ record rl { buckets = set rl.buckets i (record b { active = false }) }
]
