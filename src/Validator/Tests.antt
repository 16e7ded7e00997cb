-- ===== src/Validator/Tests.antt =====
-- Runs of main/validator.c at concrete inputs, and its theorem there. The library of these runs
-- passes every event, and finds eight bits of work in it.
use wisp_esp.Base.{◌≡◌, ◌≢◌, ◌↔◌, refl, true, false, none, []}
use wisp_esp.Base.Int.{pos}
use wisp_esp.Protocol.{Event, relay_ok}
use wisp_esp.Validator.{
  valid, duplicate, too_old, ValidatorConfig, Checks, check_event_age, check_pow, check_duplicate,
  check_policy, check_event,
}
use wisp_esp.Validator.Acceptance.{Recent, Worked, check_event-accepts}

abbrev lib : Checks
lib = record { validate_full = λ e m. relay_ok; difficulty = λ id. 8; is_ephemeral = λ k. false }

abbrev config : ValidatorConfig
config = record {
  max_event_age_sec = 100;
  max_future_sec = pos 900;
  min_pow_difficulty = 4;
  check_duplicates = true;
}

abbrev note : Event
note = record {
  id = [];
  pubkey = [];
  created_at = pos 900;
  kind = 1;
  tags = [];
  content = [];
  sig = [];
}

note_valid : check_event lib 1000 note config none ≡ valid
unfolding check_event check_policy check_event_age check_pow check_duplicate
note_valid = refl

note_old : check_event lib 1001 note config none ≡ too_old
unfolding check_event check_policy check_event_age check_pow
note_old = refl

check_event-accepts_example :
    ((check_event lib 1000 note config none ≡ valid) ↔ (
      (lib.validate_full note config.max_future_sec ≡ relay_ok)
      × Recent lib 1000 note config none
      × Worked lib 1000 note config none))
    × (check_event lib 1000 note config none ≢ duplicate)
check_event-accepts_example = check_event-accepts lib 1000 note config none
