-- ===== src/RateLimiter/View.antt =====
-- main/rate_limiter.c, seen one connection at a time: the bucket of a connection under
-- `rate_limiter_check` and `rate_limiter_reset`.
use wisp_esp.Base.{
  ℕ, ◌≡◌, ◌≢◌, refl, inl, inr, ◌∙◌, Bool, true, false, Option, none, some, arith, Option-cases,
  find_entry, first_where, find_entry-some, find_entry-none, first_where-set_found,
  first_where-set_other, first_where-set_new, count_where-set, count_where-zero, set, set-set, bit,
  ap,
}
use wisp_esp.RateLimiter.{
  RateType, RateConfig, RateBucket, RateLimiter, owns, is_free, new_bucket, seconds, refresh,
  charge, check, reset,
}
use wisp_esp.RateLimiter.Invariant.{
  IsValid, Lookup-cases, found, opened, full, check-found, check-full, owns-charge,
}

-- The bucket of a connection, if it has one.
abbrev pub bucket_of : RateLimiter → ℕ → Option RateBucket
bucket_of rl fd = first_where (owns fd) rl.buckets

-- A bucket that nobody has.
abbrev pub spare : RateLimiter → Option RateBucket
spare rl = first_where is_free rl.buckets

abbrev pub grant : RateConfig → RateBucket → RateType → ℕ → Bool × Option RateBucket
grant c b type now = ((charge c (refresh b now) type).0, some (charge c (refresh b now) type).1)

-- The check of one connection: its own bucket if it has one, else a new one if any is spare.
abbrev pub spec_check :
    RateConfig
    → ℕ
    → Option RateBucket
    → Option RateBucket
    → RateType
    → ℕ
    → ℕ
    → Bool × Option RateBucket
spec_check c fd (some b) spare type m m' = grant c b type (seconds m')
spec_check c fd none (some old) type m m' = grant c (new_bucket fd m) type (seconds m')
spec_check c fd none none type m m' = (false, none)

owns-ne : (fd fd' : ℕ) (b : RateBucket) → fd' ≢ fd → owns fd b ≡ true → owns fd' b ≡ false
owns-ne fd fd' b ne h = ground arith

-- What a check owes, against the check of the one connection.
pub record Refines (rl : RateLimiter) (fd : ℕ) (out : Bool × RateLimiter)
    (spec : Bool × Option RateBucket) : Type 0 where
  pub answer : out.0 ≡ spec.0
  pub own : bucket_of out.1 fd ≡ spec.1
  pub others : (fd' : ℕ) → fd' ≢ fd → bucket_of out.1 fd' ≡ bucket_of rl fd'
  pub config : out.1.config ≡ rl.config

pub check-Refines :
    (rl : RateLimiter) (fd : ℕ) (type : RateType) (m m' : ℕ)
    → Refines rl fd
        (check rl fd type m m')
        (spec_check rl.config fd (bucket_of rl fd) (spare rl) type m m')
check-Refines rl fd type m m' = elim (Lookup-cases rl fd m) [
  | found i b e g ↦
      let (got, mine, first) = find_entry-some (owns fd) rl.buckets i b e in
      let b' = (charge rl.config (refresh b (seconds m')) type).1 in
      let mine' : owns fd b' ≡ true = owns-charge rl.config b (seconds m') fd type ∙ mine in
      rw (check-found rl fd type m m' i b g, first)
        (record {
          answer = refl;
          own = first_where-set_found (owns fd) rl.buckets i b b' e mine';
          others = λ fd' ne.
              first_where-set_other (owns fd') rl.buckets i b b' got (owns-ne fd fd' b ne mine)
                (owns-ne fd fd' b' ne mine');
          config = refl;
        })
  | opened i old e f g ↦
      let (got, unused, first) = find_entry-some is_free rl.buckets i old f in
      let new = new_bucket fd m in
      let b' = (charge rl.config (refresh new (seconds m')) type).1 in
      let mine' : owns fd b' ≡ true =
        owns-charge rl.config new (seconds m') fd type ∙ ground arith in
      let gone = find_entry-none (owns fd) rl.buckets e in
      rw (check-found rl fd type m m' i new g, first, gone)
        (record {
          answer = refl;
          own = rw set-set (first_where-set_new (owns fd) rl.buckets i old b' got gone mine');
          others = λ fd' ne. rw set-set (
              first_where-set_other (owns fd') rl.buckets i old b' got (ground arith)
                (owns-ne fd fd' b' ne mine'));
          config = refl;
        })
  | full e f g ↦
      rw
        (
          check-full rl fd type m m' g,
          find_entry-none (owns fd) rl.buckets e,
          find_entry-none is_free rl.buckets f,
        )
        (record {
          answer = refl;
          own = find_entry-none (owns fd) rl.buckets e;
          others = λ fd' ne. refl;
          config = refl;
        })
]

pub reset_lem :
    (rl : RateLimiter) (fd : ℕ)
    → IsValid rl
    → (bucket_of (reset rl fd) fd ≡ none)
      × ((fd' : ℕ) → fd' ≢ fd → bucket_of (reset rl fd) fd' ≡ bucket_of rl fd')
      × ((reset rl fd).config ≡ rl.config)
unfolding reset
reset_lem rl fd v = elim (Option-cases (find_entry (owns fd) rl.buckets)) [
  | inl e ↦ rw (e, reset) (find_entry-none (owns fd) rl.buckets e, λ fd' ne. refl, refl)
  | inr ((i, b), e) ↦
      let (got, mine, first) = find_entry-some (owns fd) rl.buckets i b e in
      let b' = record b { active = false } in
      rw (e, reset)
        (
          count_where-zero (owns fd) (set rl.buckets i b') (
              omega
                (arith, count_where-set (owns fd) rl.buckets i b b' got, ap bit mine, v.single fd)),
          λ fd' ne.
              first_where-set_other (owns fd') rl.buckets i b b' got (owns-ne fd fd' b ne mine)
                refl,
          refl,
        )
]

-- `rate_limiter_check` answers as the check of the one connection, leaves that connection with the
-- bucket of that check, and keeps the limits: the connection's own bucket decides if it has one,
-- else a new one does if a bucket is spare, and else the answer is no.
pub check_answers :
    (rl : RateLimiter) (fd : ℕ) (type : RateType) (m m' : ℕ)
    → let out = check rl fd type m m' in
      let spec = spec_check rl.config fd (bucket_of rl fd) (spare rl) type m m' in
      (out.0 ≡ spec.0) × (bucket_of out.1 fd ≡ spec.1) × (out.1.config ≡ rl.config)
check_answers rl fd type m m' = let r = check-Refines rl fd type m m' in (r.answer, r.own, r.config)

-- `rate_limiter_check` of one connection leaves the bucket of every other connection as it was.
pub check_keeps_others :
    (rl : RateLimiter) (fd : ℕ) (type : RateType) (m m' fd' : ℕ)
    → fd' ≢ fd
    → bucket_of (check rl fd type m m').1 fd' ≡ bucket_of rl fd'
check_keeps_others rl fd type m m' fd' ne = (check-Refines rl fd type m m').others fd' ne

-- After `rate_limiter_reset` on a valid limiter the connection has no bucket, so that its next
-- check starts from zero, and the limits are as before.
pub reset_forgets :
    (rl : RateLimiter) (fd : ℕ)
    → IsValid rl
    → (bucket_of (reset rl fd) fd ≡ none) × ((reset rl fd).config ≡ rl.config)
reset_forgets rl fd v = let (gone, others, same) = reset_lem rl fd v in (gone, same)

-- `rate_limiter_reset` on a valid limiter leaves the bucket of every other connection as it was.
pub reset_keeps_others :
    (rl : RateLimiter) (fd fd' : ℕ)
    → IsValid rl
    → fd' ≢ fd
    → bucket_of (reset rl fd) fd' ≡ bucket_of rl fd'
reset_keeps_others rl fd fd' v ne = (reset_lem rl fd v).1 fd' ne
