-- ===== src/Protocol.antt =====
-- What the relay takes from libnostr-c (`nostr_relay_protocol.h`): the fields of an event and of a
-- filter that the sources read, and the error codes that they name. The library's functions are
-- parameters of the modules that call them.
use wisp_esp.Base.{ℕ, Bool, true, false, List}
use wisp_esp.Base.Int.{ℤ}

-- A C string without its final zero, and an array of bytes.
abbrev pub Text : Type 0
Text = List ℕ

abbrev pub Bytes : Type 0
Bytes = List ℕ

pub record Event : Type 0 where
  pub id : Bytes
  pub pubkey : Bytes
  pub created_at : ℤ
  pub kind : ℕ
  pub tags : List (List Text)
  pub content : Text
  pub sig : Bytes

pub record GenericTag : Type 0 where
  pub tag_name : ℕ
  pub values : List Text

-- An array and its count are one list; a null pointer is the empty list.
pub record Filter : Type 0 where
  pub ids : List Text
  pub authors : List Text
  pub kinds : List ℤ
  pub e_tags : List Text
  pub p_tags : List Text
  pub generic_tags : List GenericTag
  pub since : ℤ
  pub until : ℤ
  pub limit : ℤ

-- `nostr_relay_error_t`; `other` is a code that the sources do not name.
pub data RelayError : Type 0 where
  relay_ok : RelayError
  missing_field invalid_id invalid_pubkey invalid_created_at invalid_kind : RelayError
  invalid_tags invalid_content id_mismatch sig_mismatch invalid_sig : RelayError
  future_event expired_event invalid_json invalid_subscription_id : RelayError
  too_many_filters out_of_memory storage_failed : RelayError
  other : ℕ → RelayError

-- `result == NOSTR_RELAY_OK`
abbrev pub is_relay_ok : RelayError → Bool
is_relay_ok relay_ok = true
is_relay_ok _ = false
