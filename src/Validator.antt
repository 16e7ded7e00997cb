-- ===== src/Validator.antt =====
-- main/validator.h and main/validator.c: whether an event may enter the relay, and what a refusal
-- is called. The checks of libnostr-c, its kinds and its measure of work are parameters.
pub mod Acceptance
mod Tests
use wisp_esp.Base.{
  ℕ, suc, ◌+◌, ◌-◌, ◌≡◌, ◌≢◌, ◌↔◌, refl, Bool, true, false, not, ◌&&◌, Option, none, some, arith,
  ltb, ◌==◌, if◌then◌else◌,
}
use wisp_esp.Base.Int.{ℤ, pos, negsuc}
use wisp_esp.Protocol.{
  Bytes, Event, RelayError, relay_ok, missing_field, invalid_id, invalid_pubkey, invalid_created_at,
  invalid_kind, invalid_tags, invalid_content, id_mismatch, sig_mismatch, invalid_sig, future_event,
  expired_event, invalid_json,
}
use wisp_esp.Storage.Types.{Engine}

pub data ValidationResult : Type 0 where
  valid bad_schema bad_id bad_sig expired future duplicate weak_pow blocked too_old :
      ValidationResult

pub record ValidatorConfig : Type 0 where
  pub max_event_age_sec : ℕ
  pub max_future_sec : ℤ
  pub min_pow_difficulty : ℕ
  pub check_duplicates : Bool

-- `map_relay_error`
unfoldable pub map_relay_error : RelayError → ValidationResult
map_relay_error relay_ok = valid
map_relay_error id_mismatch = bad_id
map_relay_error sig_mismatch = bad_sig
map_relay_error invalid_sig = bad_sig
map_relay_error future_event = future
map_relay_error expired_event = expired
map_relay_error _ = bad_schema

-- `now - created_at > max`, where the difference fits 64 bits.
abbrev pub is_older : ℕ → ℤ → ℕ → Bool
is_older now (pos t) max_age = ltb max_age (now - t)
is_older now (negsuc t) max_age = ltb max_age (now + suc t)

-- `check_event_age`; `now` is `nostr_timestamp_now()`.
unfoldable pub check_event_age : ℕ → Event → ℕ → ValidationResult
check_event_age now ev max_age =
    if max_age == 0 then valid else (if is_older now ev.created_at max_age then too_old else valid)

-- The functions of libnostr-c that the validator calls.
pub record Checks : Type 0 where
  pub validate_full : Event → ℤ → RelayError
  pub difficulty : Bytes → ℕ
  pub is_ephemeral : ℕ → Bool

-- `validator_check_pow`
unfoldable pub check_pow : Checks → Event → ℕ → ValidationResult
check_pow lib ev min_difficulty =
    if min_difficulty == 0
    then valid
    else (if ltb (lib.difficulty ev.id) min_difficulty then weak_pow else valid)

-- `check_duplicate`, where `none` is a null pointer.
unfoldable pub check_duplicate : Option Engine → ValidationResult
check_duplicate none = valid
check_duplicate (some storage) = valid

abbrev pub is_valid : ValidationResult → Bool
is_valid valid = true
is_valid _ = false

-- `validator_check_event` once libnostr-c has passed the event.
unfoldable pub check_policy :
    Checks → ℕ → Event → ValidatorConfig → Option Engine → ValidationResult
check_policy lib now ev config storage =
    let age = check_event_age now ev config.max_event_age_sec in
    let pow = check_pow lib ev config.min_pow_difficulty in
    let fresh = check_duplicate storage in
    if is_valid age
    then (if is_valid pow
        then (if config.check_duplicates && not (lib.is_ephemeral ev.kind) then fresh else valid)
        else pow)
    else age

-- `validator_check_event`
unfoldable pub check_event : Checks → ℕ → Event → ValidatorConfig → Option Engine → ValidationResult
check_event lib now ev config storage = elim (lib.validate_full ev config.max_future_sec) [
  | relay_ok ↦ check_policy lib now ev config storage
  | e ↦ map_relay_error e
]

-- `validator_result_to_relay_error`
unfoldable pub result_to_relay_error : ValidationResult → RelayError
result_to_relay_error valid = relay_ok
result_to_relay_error bad_sig = sig_mismatch
result_to_relay_error bad_id = id_mismatch
result_to_relay_error future = future_event
result_to_relay_error expired = expired_event
result_to_relay_error too_old = expired_event
result_to_relay_error _ = invalid_json
