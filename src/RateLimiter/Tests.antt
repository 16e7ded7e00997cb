-- ===== src/RateLimiter/Tests.antt =====
-- Runs of main/rate_limiter.c at concrete inputs, and its theorems there.
use wisp_esp.Base.{◌≡◌, ◌≤◌, refl, List, [], ◌∷◌, some, arith, find_entry, first_where}
use wisp_esp.RateLimiter.{
  event, req, RateConfig, RateLimiter, init, check, reset, get_bucket, charge, refresh,
}
use wisp_esp.RateLimiter.Invariant.{IsValid, init-IsValid, check-IsValid}
use wisp_esp.RateLimiter.View.{bucket_of, spare, spec_check, check_answers}
use wisp_esp.RateLimiter.Window.{Call, checks, resets, granted, granted_within_limit}

abbrev tight : RateConfig
tight = record { events_per_minute = 2; reqs_per_minute = 1 }

abbrev start : RateLimiter
start = init (some tight)

-- Two events of connection 7 pass, the third does not, one of connection 8 does.
abbrev burst : List Call
burst =
    checks 7 event 1_000_000 1_000_000
    ∷ checks 7 event 2_000_000 2_000_000
    ∷ checks 8 event 2_500_000 2_500_000
    ∷ checks 7 event 3_000_000 3_000_000
    ∷ resets 8
    ∷ checks 7 req 4_000_000 4_000_000
    ∷ []

burst-granted : granted 7 event start burst ≡ 2
unfolding granted init check get_bucket charge refresh find_entry reset
burst-granted = refl

start-IsValid : IsValid start
start-IsValid = init-IsValid (some tight) (omega arith)

check_answers_example :
    let out = check start 7 req 5 6 in
    let spec = spec_check start.config 7 (bucket_of start 7) (spare start) req 5 6 in
    (out.0 ≡ spec.0) × (bucket_of out.1 7 ≡ spec.1) × (out.1.config ≡ start.config)
check_answers_example = check_answers start 7 req 5 6

abbrev served : RateLimiter
served = (check start 7 event 1_000_000 1_000_001).1

served-IsValid : IsValid served
served-IsValid = check-IsValid start 7 event 1_000_000 1_000_001 start-IsValid

granted_within_limit_example : granted 7 event start burst ≤ start.config.events_per_minute
unfolding first_where init
granted_within_limit_example =
    granted_within_limit 7 1 event start burst start-IsValid refl (omega arith)
