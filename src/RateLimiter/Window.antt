-- ===== src/RateLimiter/Window.antt =====
-- main/rate_limiter.c over a sequence of calls: how much one connection is granted.
use wisp_esp.Base.{
  ℕ, subst, Bool-cases, ◌+◌, ◌^◌, ◌≤◌, ◌<◌, ◌≡◌, ◌≢◌, refl, ap, sym, ◌∙◌, inl, inr, Bool, true,
  false, ◌&&◌, List, [], ◌∷◌, Option, none, some, arith, ◌==◌, bit,
}
use wisp_esp.RateLimiter.{
  RateType, event, req, RateConfig, RateBucket, RateLimiter, seconds, refresh, charge, check, reset,
  new_bucket,
}
use wisp_esp.RateLimiter.Invariant.{IsValid, check-IsValid, reset-IsValid}
use wisp_esp.RateLimiter.View.{bucket_of, spare, spec_check, check-Refines, reset_lem}

-- The calls that the relay makes: a check, with its two readings of the timer, or a reset.
pub data Call : Type 0 where
  checks : ℕ → RateType → ℕ → ℕ → Call
  resets : ℕ → Call

abbrev pub same_type : RateType → RateType → Bool
same_type event event = true
same_type req req = true
same_type _ _ = false

-- How many of the calls are granted checks of connection `fd` and of this type.
unfoldable pub granted : ℕ → RateType → RateLimiter → List Call → ℕ
granted fd type rl [] = 0
granted fd type rl (checks f t m m' ∷ cs) =
    let (ok, rl') = check rl f t m m' in
    bit (ok && (f == fd) && same_type t type) + granted fd type rl' cs
granted fd type rl (resets f ∷ cs) = granted fd type (reset rl f) cs

-- The clock does not run backwards from second `last` on, all checks fall in the sixty seconds
-- from second `s` on, and `fd` is not disconnected meanwhile.
abbrev pub InWindow : ℕ → ℕ → ℕ → List Call → Type 0
InWindow fd s last [] = Unit {0}
InWindow fd s last (checks f t m m' ∷ cs) =
    (last ≤ seconds m)
    × (seconds m ≤ seconds m')
    × (seconds m' < s + 60)
    × InWindow fd s (seconds m') cs
InWindow fd s last (resets f ∷ cs) = (f ≢ fd) × InWindow fd s last cs

abbrev pub limit_of : RateConfig → RateType → ℕ
limit_of c event = c.events_per_minute
limit_of c req = c.reqs_per_minute

abbrev pub count_of : RateType → Option RateBucket → ℕ
count_of type none = 0
count_of event (some b) = b.event_count
count_of req (some b) = b.req_count

-- The connection's window, if it has one, was started between the seconds `s` and `last`.
abbrev pub Started : ℕ → ℕ → Option RateBucket → Type 0
Started s last none = Unit {0}
Started s last (some b) = (s ≤ b.window_start) × (b.window_start ≤ last)

record Charged (c : RateConfig) (s now : ℕ) (t type : RateType) (b : RateBucket)
    (out : Bool × RateBucket) : Type 0 where
  count : count_of type (some out.1) ≡ count_of type (some b) + bit (out.0 && same_type t type)
  below : count_of type (some out.1) ≤ limit_of c type
  started : Started s now (some out.1)

charge-Charged :
    (c : RateConfig) (s last now : ℕ) (t type : RateType) (b : RateBucket)
    → limit_of c type < 2 ^ 16
    → limit_of c t < 2 ^ 16
    → count_of type (some b) ≤ limit_of c type
    → Started s last (some b)
    → last ≤ now
    → now < s + 60
    → now < 2 ^ 32
    → Charged c s now t type b (charge c (refresh b now) t)
unfolding charge refresh
charge-Charged c s last now event event b l l' h st le lt w = ground arith
charge-Charged c s last now event req b l l' h st le lt w = ground arith
charge-Charged c s last now req event b l l' h st le lt w = ground arith
charge-Charged c s last now req req b l l' h st le lt w = ground arith

-- One check of the connection itself, as `spec_check` makes it.
record Spent (c : RateConfig) (s now : ℕ) (t type : RateType) (v : Option RateBucket)
    (out : Bool × Option RateBucket) : Type 0 where
  count : count_of type out.1 ≡ count_of type v + bit (out.0 && same_type t type)
  below : count_of type out.1 ≤ limit_of c type
  started : Started s now out.1

module _ (c : RateConfig) (fd s last m m' : ℕ) (t type : RateType) (le : last ≤ seconds m)
    (le' : seconds m ≤ seconds m') (lt : seconds m' < s + 60) (l : limit_of c type < 2 ^ 16)
    (l' : limit_of c t < 2 ^ 16) where
  spec_check-Spent :
      (v spare : Option RateBucket)
      → count_of type v ≤ limit_of c type
      → Started s last v
      → s ≤ last
      → Spent c s (seconds m') t type v (spec_check c fd v spare t m m')
  spec_check-Spent (some b) spare h st ord =
      let r =
        charge-Charged c s last (seconds m') t type b l l' h st (omega arith) lt (omega arith) in
      record { count = r.count; below = r.below; started = r.started }
  spec_check-Spent none none h st ord = record {
    count = omega arith;
    below = omega arith;
    started = tt;
  }
  spec_check-Spent none (some old) h st ord =
      let r =
        charge-Charged c s (seconds m) (seconds m') t type (new_bucket fd m) l l'
          (zero_le_limit type) (omega arith) le' lt (omega arith) in
      record { count = r.count ∙ zero_count type _; below = r.below; started = r.started }
    where
      zero_le_limit : (u : RateType) → count_of u (some (new_bucket fd m)) ≤ limit_of c u
      zero_le_limit event = omega arith
      zero_le_limit req = omega arith

      zero_count : (u : RateType) (n : ℕ) → count_of u (some (new_bucket fd m)) + n ≡ 0 + n
      zero_count event n = refl
      zero_count req n = refl

Started-mono :
    (s last now : ℕ) (v : Option RateBucket) → last ≤ now → Started s last v → Started s now v
Started-mono s last now none h st = tt
Started-mono s last now (some b) h st = omega arith

limit-lt : (rl : RateLimiter) (u : RateType) → IsValid rl → limit_of rl.config u < 2 ^ 16
limit-lt rl event v = v.events_u16
limit-lt rl req v = v.reqs_u16

bit_own : (ok same : Bool) (f fd : ℕ) → f ≡ fd → bit (ok && (f == fd) && same) ≡ bit (ok && same)
bit_own ok same f fd e = ground arith

bit_other : (ok same : Bool) (f fd : ℕ) → f == fd ≡ false → bit (ok && (f == fd) && same) ≡ 0
bit_other ok same f fd e = ground arith

-- What the induction over the calls needs of the state that a call leaves.
record Ready (fd s last : ℕ) (type : RateType) (rl : RateLimiter) : Type 0 where
  valid : IsValid rl
  order : s ≤ last
  started : Started s last (bucket_of rl fd)
  below : count_of type (bucket_of rl fd) ≤ limit_of rl.config type

abbrev Budget : ℕ → RateType → RateLimiter → List Call → Type 0
Budget fd type rl calls =
    count_of type (bucket_of rl fd) + granted fd type rl calls ≤ limit_of rl.config type

module _ (fd s last : ℕ) (type : RateType) (rl : RateLimiter) (r : Ready fd s last type rl)
    (cs : List Call) where
  resets-Budget :
      (f : ℕ)
      → f ≢ fd
      → (Ready fd s last type (reset rl f) → Budget fd type (reset rl f) cs)
      → Budget fd type rl (resets f ∷ cs)
  unfolding granted
  resets-Budget f ne ih =
      let (gone, others, same) = reset_lem rl f r.valid in
      let kept = others fd (λ e. ne (sym e)) in
      let after = ih (record {
        valid = reset-IsValid rl f r.valid;
        order = r.order;
        started = rw kept r.started;
        below = rw (kept, same) r.below;
      }) in
      omega (arith, after, ap (count_of type) kept, ap (λ c. limit_of c type) same)

  module _ (f : ℕ) (t : RateType) (m m' : ℕ) (le : last ≤ seconds m) (le' : seconds m ≤ seconds m')
      (lt : seconds m' < s + 60)
      (ih : Ready fd s (seconds m') type (check rl f t m m').1
        → Budget fd type (check rl f t m m').1 cs) where
    checks-Budget_other : f == fd ≡ false → Budget fd type rl (checks f t m m' ∷ cs)
    unfolding granted
    checks-Budget_other e =
        let spec = check-Refines rl f t m m' in
        let kept = spec.others fd (λ same. ground arith) in
        let after = ih (record {
          valid = check-IsValid rl f t m m' r.valid;
          order = omega (arith, r.order);
          started = rw kept (Started-mono s last (seconds m') _ (omega arith) r.started);
          below = rw (kept, spec.config) r.below;
        }) in
        omega (
          arith,
          after,
          bit_other (check rl f t m m').0 (same_type t type) f fd e,
          ap (count_of type) kept,
          ap (λ c. limit_of c type) spec.config,
        )

    checks-Budget_own : f ≡ fd → Budget fd type rl (checks f t m m' ∷ cs)
    unfolding granted
    checks-Budget_own e =
        let spec = check-Refines rl f t m m' in
        let own =
          subst
            (λ k.
              bucket_of (check rl f t m m').1 k
              ≡ (spec_check rl.config f (bucket_of rl k) (spare rl) t m m').1)
            e spec.own in
        let answer =
          subst
            (λ k.
              (check rl f t m m').0 ≡ (spec_check rl.config f (bucket_of rl k) (spare rl) t m m').0)
            e spec.answer in
        let spent =
          spec_check-Spent rl.config f s last m m' t type le le' lt (limit-lt rl type r.valid)
            (limit-lt rl t r.valid) (bucket_of rl fd) (spare rl) r.below r.started r.order in
        let after = ih (record {
          valid = check-IsValid rl f t m m' r.valid;
          order = omega (arith, r.order);
          started = rw own spent.started;
          below = rw (own, spec.config) spent.below;
        }) in
        omega (
          arith,
          after,
          spent.count,
          bit_own (check rl f t m m').0 (same_type t type) f fd e,
          ap (count_of type) own,
          ap (λ b. bit (b && same_type t type)) answer,
          ap (λ c. limit_of c type) spec.config,
        )

granted_lem :
    (fd s last : ℕ) (type : RateType) (rl : RateLimiter) (calls : List Call)
    → Ready fd s last type rl
    → InWindow fd s last calls
    → Budget fd type rl calls
unfolding granted
granted_lem fd s last type rl [] r w = omega (arith, r.below)
granted_lem fd s last type rl (resets f ∷ cs) r w =
    resets-Budget fd s last type rl r cs f w.0
      λ r'. granted_lem fd s last type (reset rl f) cs r' w.1
granted_lem fd s last type rl (checks f t m m' ∷ cs) r (le, le', lt, w) =
    let ih = λ (r' : Ready fd s (seconds m') type (check rl f t m m').1).
      granted_lem fd s (seconds m') type (check rl f t m m').1 cs r' w in
    elim (Bool-cases (f == fd)) [
      | inl e ↦ checks-Budget_own fd s last type rl r cs f t m m' le le' lt ih (ground arith)
      | inr e ↦ checks-Budget_other fd s last type rl r cs f t m m' le le' lt ih e
    ]

-- Let the clock not run backwards. From a valid limiter in which a connection has no bucket yet,
-- no sequence of calls by all connections grants it more checks of a type within sixty seconds
-- than the limit of that type, as long as it stays connected.
pub granted_within_limit :
    (fd s : ℕ) (type : RateType) (rl : RateLimiter) (calls : List Call)
    → IsValid rl
    → bucket_of rl fd ≡ none
    → InWindow fd s s calls
    → granted fd type rl calls ≤ limit_of rl.config type
granted_within_limit fd s type rl calls v e w = omega (
  arith,
  ap (count_of type) e,
  granted_lem fd s s type rl calls
      (record { valid = v; order = omega arith; started = rw e tt; below = rw e (omega arith) }) w,
)
