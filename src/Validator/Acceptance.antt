-- ===== src/Validator/Acceptance.antt =====
-- `validator_check_event`: which events it accepts.
use wisp_esp.Base.{
  ℕ, ◌≤◌, ◌≡◌, ◌≢◌, ◌⊎◌, ◌↔◌, refl, inl, inr, false, not, ◌&&◌, Option, none, some, arith, ◌==◌,
  Bool-cases,
}
use wisp_esp.Protocol.{
  Event, RelayError, relay_ok, missing_field, invalid_id, invalid_pubkey, invalid_created_at,
  invalid_kind, invalid_tags, invalid_content, id_mismatch, sig_mismatch, invalid_sig, future_event,
  expired_event, invalid_json, invalid_subscription_id, too_many_filters, out_of_memory,
  storage_failed, other,
}
use wisp_esp.Storage.Types.{Engine}
use wisp_esp.Validator.{
  ValidationResult, valid, duplicate, weak_pow, too_old, ValidatorConfig, map_relay_error, is_older,
  check_event_age, Checks, check_pow, check_duplicate, check_policy, check_event,
}

-- The verdict on an error of libnostr-c.
data Verdict (e : RelayError) : Type 0 where
  passed : e ≡ relay_ok → Verdict e
  rejected :
      e ≢ relay_ok
      → map_relay_error e ≢ valid
      → map_relay_error e ≢ duplicate
      → ((r : ValidationResult)
          → (elim e [ relay_ok ↦ r | x ↦ map_relay_error x ]) ≡ map_relay_error e)
      → Verdict e

verdict : (e : RelayError) → Verdict e
unfolding map_relay_error
verdict relay_ok = passed refl
verdict missing_field = rejected (λ h. cc) (λ h. cc) (λ h. cc) (λ r. refl)
verdict (other n) = rejected (λ h. cc) (λ h. cc) (λ h. cc) (λ r. refl)
verdict invalid_id = rejected (λ h. cc) (λ h. cc) (λ h. cc) (λ r. refl)
verdict invalid_pubkey = rejected (λ h. cc) (λ h. cc) (λ h. cc) (λ r. refl)
verdict invalid_created_at = rejected (λ h. cc) (λ h. cc) (λ h. cc) (λ r. refl)
verdict invalid_kind = rejected (λ h. cc) (λ h. cc) (λ h. cc) (λ r. refl)
verdict invalid_tags = rejected (λ h. cc) (λ h. cc) (λ h. cc) (λ r. refl)
verdict invalid_content = rejected (λ h. cc) (λ h. cc) (λ h. cc) (λ r. refl)
verdict id_mismatch = rejected (λ h. cc) (λ h. cc) (λ h. cc) (λ r. refl)
verdict sig_mismatch = rejected (λ h. cc) (λ h. cc) (λ h. cc) (λ r. refl)
verdict invalid_sig = rejected (λ h. cc) (λ h. cc) (λ h. cc) (λ r. refl)
verdict future_event = rejected (λ h. cc) (λ h. cc) (λ h. cc) (λ r. refl)
verdict expired_event = rejected (λ h. cc) (λ h. cc) (λ h. cc) (λ r. refl)
verdict invalid_json = rejected (λ h. cc) (λ h. cc) (λ h. cc) (λ r. refl)
verdict invalid_subscription_id = rejected (λ h. cc) (λ h. cc) (λ h. cc) (λ r. refl)
verdict too_many_filters = rejected (λ h. cc) (λ h. cc) (λ h. cc) (λ r. refl)
verdict out_of_memory = rejected (λ h. cc) (λ h. cc) (λ h. cc) (λ r. refl)
verdict storage_failed = rejected (λ h. cc) (λ h. cc) (λ h. cc) (λ r. refl)

module _ (lib : Checks) (now : ℕ) (ev : Event) (config : ValidatorConfig)
    (storage : Option Engine) where
  -- The event is not older than the configured age, if there is one.
  abbrev pub Recent : Type 0
  Recent =
      (config.max_event_age_sec ≡ 0) ⊎ (is_older now ev.created_at config.max_event_age_sec ≡ false)

  -- The identifier shows the configured work, if there is any.
  abbrev pub Worked : Type 0
  Worked = (config.min_pow_difficulty ≡ 0) ⊎ (config.min_pow_difficulty ≤ lib.difficulty ev.id)

  age-Recent :
      (check_event_age now ev config.max_event_age_sec ≡ valid × Recent)
      ⊎ ((check_event_age now ev config.max_event_age_sec ≡ too_old) × ¬ Recent)
  unfolding check_event_age
  age-Recent = elim (Bool-cases (config.max_event_age_sec == 0)) [
    | inl z ↦ rw z (inl (refl, inl (ground arith)))
    | inr z ↦ elim (Bool-cases (is_older now ev.created_at config.max_event_age_sec)) [
      | inl o ↦ rw (z, o) (inr (refl, λ r. elim r [ inl e ↦ ground arith | inr e ↦ absurd (cc) ]))
      | inr o ↦ rw (z, o) (inl (refl, inr refl))
    ]
  ]

  pow-Worked :
      (check_pow lib ev config.min_pow_difficulty ≡ valid × Worked)
      ⊎ ((check_pow lib ev config.min_pow_difficulty ≡ weak_pow) × ¬ Worked)
  unfolding check_pow
  pow-Worked = ground arith

  check_duplicate-valid : (s : Option Engine) → check_duplicate s ≡ valid
  unfolding check_duplicate
  check_duplicate-valid none = refl
  check_duplicate-valid (some s) = refl

  policy :
      ((check_policy lib now ev config storage ≡ valid) ↔ (Recent × Worked))
      × (check_policy lib now ev config storage ≢ duplicate)
  unfolding check_policy
  policy = elim age-Recent [
    | inr (a, old) ↦ rw a ((λ h. absurd (cc), λ (r, w). absurd (old r)), λ h. cc)
    | inl (a, recent) ↦ elim pow-Worked [
      | inr (p, weak) ↦ rw (a, p) ((λ h. absurd (cc), λ (r, w). absurd (weak w)), λ h. cc)
      | inl (p, worked) ↦
          rw (a, p, check_duplicate-valid storage)
            (elim (Bool-cases (config.check_duplicates && not (lib.is_ephemeral ev.kind))) [
              | inl c ↦ rw c ((λ h. (recent, worked), λ all. refl), λ h. cc)
              | inr c ↦ rw c ((λ h. (recent, worked), λ all. refl), λ h. cc)
            ])
    ]
  ]

  -- `validator_check_event` accepts an event exactly if libnostr-c does, it is not older than the
  -- configured age, and its identifier shows the configured work, where an age or a work of zero
  -- asks for nothing. It never returns `VALIDATION_ERR_DUPLICATE`, whatever the configuration says
  -- of duplicates.
  pub check_event-accepts :
      ((check_event lib now ev config storage ≡ valid)
        ↔ ((lib.validate_full ev config.max_future_sec ≡ relay_ok) × Recent × Worked))
      × (check_event lib now ev config storage ≢ duplicate)
  unfolding check_event
  check_event-accepts = elim (verdict (lib.validate_full ev config.max_future_sec)) [
    | passed e ↦
        let (accepts, never) = policy in
        rw (e, check_event)
          ((λ h. let (r, w) = accepts.0 h in (refl, r, w), λ (ok, r, w). accepts.1 (r, w)), never)
    | rejected bad no_valid no_dup same ↦
        rw (same (check_policy lib now ev config storage))
          ((λ h. absurd (no_valid h), λ (ok, r, w). absurd (bad ok)), no_dup)
  ]
