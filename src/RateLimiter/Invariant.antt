-- ===== src/RateLimiter/Invariant.antt =====
-- The invariant of the table of main/rate_limiter.c under each function.
use wisp_esp.Base.{
  ℕ, ◌^◌, ◌≤◌, ◌<◌, ◌≡◌, refl, Bool, true, false, Option, none, some, arith, length, All,
  length-set, length-replicate, All-set, All-get, All-replicate, Option-cases, bit, find_entry,
  count_where, find_entry-some, find_entry-none, count_where-set, first_where-none,
  count_where-replicate, get_elem?, set, get_elem?-set_self, get_elem?_bound, replicate, sym, ◌⊎◌,
  inl, inr, Bool-cases, ◌∙◌, ap,
}
use wisp_esp.RateLimiter.{
  RateType, event, req, RateConfig, RateBucket, RateLimiter, max_buckets, default_config,
  zero_bucket, init, owns, is_free, new_bucket, seconds, get_bucket, refresh, charge, check, reset,
}

-- The counts of a bucket stay within the limits.
pub record IsBounded (c : RateConfig) (b : RateBucket) : Type 0 where
  pub events : b.event_count ≤ c.events_per_minute
  pub reqs : b.req_count ≤ c.reqs_per_minute

-- The limits are `uint16_t`, there are sixteen buckets, no connection has two of them, and no
-- count has passed its limit.
pub record IsValid (rl : RateLimiter) : Type 0 where
  pub events_u16 : rl.config.events_per_minute < 2 ^ 16
  pub reqs_u16 : rl.config.reqs_per_minute < 2 ^ 16
  pub size : length rl.buckets ≡ max_buckets
  pub single : (fd : ℕ) → count_where (owns fd) rl.buckets ≤ 1
  pub bounded : All (IsBounded rl.config) rl.buckets

-- A null configuration, or one whose limits are `uint16_t`.
abbrev pub FitsU16 : Option RateConfig → Type 0
FitsU16 none = Unit {0}
FitsU16 (some c) = (c.events_per_minute < 2 ^ 16) × (c.reqs_per_minute < 2 ^ 16)

fresh-IsValid :
    (c : RateConfig)
    → FitsU16 (some c)
    → IsValid (record { config = c; buckets = replicate max_buckets zero_bucket })
fresh-IsValid c h = record {
  events_u16 = h.0;
  reqs_u16 = h.1;
  size = length-replicate max_buckets zero_bucket;
  single = λ fd. omega (arith, count_where-replicate (owns fd) max_buckets zero_bucket refl);
  bounded = All-replicate (IsBounded c) max_buckets zero_bucket (omega arith);
}

-- A limiter that was just set up is valid.
pub init-IsValid : (c : Option RateConfig) → FitsU16 c → IsValid (init c)
unfolding init
init-IsValid none h = fresh-IsValid default_config (omega arith)
init-IsValid (some c) h = fresh-IsValid c h

-- A bucket may be overwritten by one of the same connection, or of one that had none.
pub put-IsValid :
    (rl : RateLimiter) (i : ℕ) (x y : RateBucket)
    → IsValid rl
    → get_elem? rl.buckets i ≡ some x
    → IsBounded rl.config y
    → ((fd : ℕ) → owns fd y ≡ true → (owns fd x ≡ true) ⊎ (count_where (owns fd) rl.buckets ≡ 0))
    → IsValid (record rl { buckets = set rl.buckets i y })
put-IsValid rl i x y v got fits same = record {
  events_u16 = v.events_u16;
  reqs_u16 = v.reqs_u16;
  size = length-set rl.buckets i y ∙ v.size;
  single = λ fd.
      let moved = count_where-set (owns fd) rl.buckets i x y got in
      let one = v.single fd in
      elim (Bool-cases (owns fd y)) [
        | inl e ↦ elim (same fd e) [
          | inl o ↦ omega (arith, ap bit e, ap bit o)
          | inr z ↦ omega (arith, ap bit e)
        ]
        | inr e ↦ omega (arith, ap bit e)
      ];
  bounded = All-set (IsBounded rl.config) rl.buckets i y v.bounded fits;
}

-- The three ways out of `get_bucket`.
pub data Lookup (rl : RateLimiter) (fd micros : ℕ) : Type 0 where
  found :
      (i : ℕ) (b : RateBucket)
      → find_entry (owns fd) rl.buckets ≡ some (i, b)
      → get_bucket rl fd micros ≡ (some (i, b), rl)
      → Lookup rl fd micros
  opened :
      (i : ℕ) (old : RateBucket)
      → find_entry (owns fd) rl.buckets ≡ none
      → find_entry is_free rl.buckets ≡ some (i, old)
      → get_bucket rl fd micros ≡ (
        some (i, new_bucket fd micros),
        record rl { buckets = set rl.buckets i (new_bucket fd micros) },
      )
      → Lookup rl fd micros
  full :
      find_entry (owns fd) rl.buckets ≡ none
      → find_entry is_free rl.buckets ≡ none
      → get_bucket rl fd micros ≡ (none, rl)
      → Lookup rl fd micros

pub Lookup-cases : (rl : RateLimiter) (fd micros : ℕ) → Lookup rl fd micros
unfolding get_bucket
Lookup-cases rl fd micros = elim (Option-cases (find_entry (owns fd) rl.buckets)) [
  | inr ((i, b), e) ↦ found i b e (rw (e, get_bucket))
  | inl e ↦ elim (Option-cases (find_entry is_free rl.buckets)) [
    | inl f ↦ full e f (rw (e, get_bucket) (rw (f, get_bucket)))
    | inr ((i, old), f) ↦ opened i old e f (rw (e, get_bucket) (rw (f, get_bucket)))
  ]
]

owns-new_bucket : (fd fd' micros : ℕ) → owns fd' (new_bucket fd micros) ≡ true → fd' ≡ fd
owns-new_bucket fd fd' micros h = ground arith

pub opened-IsValid :
    (rl : RateLimiter) (fd micros i : ℕ) (old : RateBucket)
    → IsValid rl
    → find_entry (owns fd) rl.buckets ≡ none
    → get_elem? rl.buckets i ≡ some old
    → IsValid (record rl { buckets = set rl.buckets i (new_bucket fd micros) })
opened-IsValid rl fd micros i old v e got =
    put-IsValid rl i old (new_bucket fd micros) v got (omega arith) λ fd' h. inr (
      rw (owns-new_bucket fd fd' micros h)
        (first_where-none (owns fd) rl.buckets (find_entry-none (owns fd) rl.buckets e)))

-- Neither step on a bucket takes it from its connection, or past a limit.
pub owns-charge :
    (c : RateConfig) (b : RateBucket) (now fd : ℕ) (type : RateType)
    → owns fd (charge c (refresh b now) type).1 ≡ owns fd b
unfolding charge refresh
owns-charge c b now fd event = ground arith
owns-charge c b now fd req = ground arith

pub charge-IsBounded :
    (c : RateConfig) (b : RateBucket) (now : ℕ) (type : RateType)
    → c.events_per_minute < 2 ^ 16
    → c.reqs_per_minute < 2 ^ 16
    → IsBounded c b
    → IsBounded c (charge c (refresh b now) type).1
unfolding charge refresh
charge-IsBounded c b now event he hr h = ground arith
charge-IsBounded c b now req he hr h = ground arith

-- What `check` does to the table once it has its bucket.
abbrev pub charged : RateLimiter → ℕ → RateBucket → RateType → ℕ → Bool × RateLimiter
charged rl i b type micros =
    let (allowed, b') = charge rl.config (refresh b (seconds micros)) type in
    (allowed, record rl { buckets = set rl.buckets i b' })

pub charged-IsValid :
    (rl : RateLimiter) (i : ℕ) (b : RateBucket) (type : RateType) (micros : ℕ)
    → IsValid rl
    → get_elem? rl.buckets i ≡ some b
    → IsValid (charged rl i b type micros).1
charged-IsValid rl i b type micros v got =
    put-IsValid rl i b _ v got
      (charge-IsBounded rl.config b (seconds micros) type v.events_u16 v.reqs_u16
        (All-get (IsBounded rl.config) rl.buckets i b v.bounded got))
      λ fd h. inl (sym (owns-charge rl.config b (seconds micros) fd type) ∙ h)

-- The three ways through `check`.
pub check-found :
    (rl : RateLimiter) (fd : ℕ) (type : RateType) (m m' i : ℕ) (b : RateBucket) {rl' : RateLimiter}
    → get_bucket rl fd m ≡ (some (i, b), rl')
    → check rl fd type m m' ≡ charged rl' i b type m'
unfolding check
check-found rl fd type m m' i b e = simp (e, check)

pub check-full :
    (rl : RateLimiter) (fd : ℕ) (type : RateType) (m m' : ℕ)
    → get_bucket rl fd m ≡ (none, rl)
    → check rl fd type m m' ≡ (false, rl)
unfolding check
check-full rl fd type m m' e = simp (e, check)

-- `rate_limiter_check` keeps a valid table valid: sixteen buckets, at most one for a connection,
-- and no count above its limit.
pub check-IsValid :
    (rl : RateLimiter) (fd : ℕ) (type : RateType) (m m' : ℕ)
    → IsValid rl
    → IsValid (check rl fd type m m').1
check-IsValid rl fd type m m' v = elim (Lookup-cases rl fd m) [
  | found i b e g ↦
      rw (check-found rl fd type m m' i b g)
        (charged-IsValid rl i b type m' v (find_entry-some (owns fd) rl.buckets i b e).0)
  | opened i old e f g ↦
      let got = (find_entry-some is_free rl.buckets i old f).0 in
      rw (check-found rl fd type m m' i (new_bucket fd m) g) (
        charged-IsValid _ i (new_bucket fd m) type m' (opened-IsValid rl fd m i old v e got)
          (get_elem?-set_self rl.buckets i _ (get_elem?_bound rl.buckets i got)))
  | full e f g ↦ rw (check-full rl fd type m m' g) v
]

-- `rate_limiter_reset` keeps a valid table valid.
pub reset-IsValid : (rl : RateLimiter) (fd : ℕ) → IsValid rl → IsValid (reset rl fd)
unfolding reset
reset-IsValid rl fd v = elim (Option-cases (find_entry (owns fd) rl.buckets)) [
  | inl e ↦ rw (e, reset) v
  | inr ((i, b), e) ↦
      let got = (find_entry-some (owns fd) rl.buckets i b e).0 in
      rw (e, reset)
        (put-IsValid rl i b (record b { active = false }) v got
          (let fits = All-get (IsBounded rl.config) rl.buckets i b v.bounded got in omega arith)
          λ fd' h. absurd (cc))
]
