-- ===== src/Handlers/Answers.antt =====
-- main/handlers_stub.c and main/broadcaster.c: what the handlers send.
use mathlib.Core.List.{append_assoc, append-nil}
use wisp_esp.Base.{
  ◌≡◌, refl, sym, ap, ◌∙◌, inl, inr, false, not, ◌&&◌, ◌==◌, List, [], ◌∷◌, ◌++◌, map, if_ind,
  if◌then◌else◌, Bool-cases,
}
use wisp_esp.Protocol.{Event, RelayError, is_relay_ok}
use wisp_esp.SubManager.{MatchEntry, matching}
use wisp_esp.Validator.{
  ValidationResult, is_valid, result_to_relay_error, valid, bad_schema, bad_id, bad_sig, expired,
  future, duplicate, weak_pow, blocked, too_old,
}
use wisp_esp.Deletion.{kind_deletion}
use wisp_esp.Router.{event_msg}
use wisp_esp.Relay.{Platform, Relay, Moment, Sent, emit}
use wisp_esp.Broadcaster.{fanout_loop, fanout}
use wisp_esp.Handlers.{apply_deletion, store_event, handle_event, verdict, is_kept}

pub not_ok :
    (v : ValidationResult) → is_valid v ≡ false → is_relay_ok (result_to_relay_error v) ≡ false
unfolding result_to_relay_error
not_ok valid e = cc
not_ok bad_schema e = refl
not_ok bad_id e = refl
not_ok bad_sig e = refl
not_ok expired e = refl
not_ok future e = refl
not_ok duplicate e = refl
not_ok weak_pow e = refl
not_ok blocked e = refl
not_ok too_old e = refl

-- The calls that bring an event to the subscriptions that it matches.
abbrev pub to_entry : Event → MatchEntry → Sent
to_entry ev e = (e.match_fd, event_msg e.match_id ev)

module _ {p : Platform} where
  abbrev pub broadcasts : Relay p → Event → List Sent
  broadcasts r ev =
      if r.has_subs then map (to_entry ev) (matching p.filters_match r.sub_manager ev) else []

  fanout_loop-sent :
      (ev : Event) (r : Relay p) (es : List MatchEntry)
      → (fanout_loop ev r es).sent ≡ r.sent ++ map (to_entry ev) es
  unfolding fanout_loop
  fanout_loop-sent ev r [] = sym (append-nil r.sent)
  fanout_loop-sent ev r (e ∷ es) =
      fanout_loop-sent ev (emit r e.match_fd (event_msg e.match_id ev)) es
      ∙ append_assoc r.sent (to_entry ev e ∷ []) (map (to_entry ev) es)

  fanout-sent : (r : Relay p) (ev : Event) → (fanout r ev).sent ≡ r.sent ++ broadcasts r ev
  unfolding fanout
  fanout-sent r ev = elim (Bool-cases r.has_subs) [
    | inl e ↦
        if_ind (λ (r' : Relay p). r'.sent ≡ r.sent ++ broadcasts r ev) r.has_subs
          (λ h.
            fanout_loop-sent ev r (matching p.filters_match r.sub_manager ev)
            ∙ ap (λ l. r.sent ++ l) (simp h refl))
          λ h. absurd (cc)
    | inr e ↦
        if_ind (λ (r' : Relay p). r'.sent ≡ r.sent ++ broadcasts r ev) r.has_subs (λ h. absurd (cc))
          λ h. sym (append-nil r.sent) ∙ ap (λ l. r.sent ++ l) (simp h refl)
  ]

  -- Neither the deletion nor the save sends, or changes the subscriptions.
  apply_deletion-same :
      (r : Relay p) (m : Moment p) (ev : Event)
      → ((apply_deletion r m ev).sent ≡ r.sent)
        × (broadcasts (apply_deletion r m ev) ev ≡ broadcasts r ev)
  unfolding apply_deletion
  apply_deletion-same r m ev =
      if_ind (λ (r' : Relay p). (r'.sent ≡ r.sent) × (broadcasts r' ev ≡ broadcasts r ev))
        ((ev.kind == kind_deletion) && r.has_storage) (λ e. (refl, refl)) λ e. (refl, refl)

  store_event-same :
      (r : Relay p) (m : Moment p) (ev : Event)
      → ((store_event r m ev).1.sent ≡ r.sent)
        × (broadcasts (store_event r m ev).1 ev ≡ broadcasts r ev)
  unfolding store_event
  store_event-same r m ev = (refl, refl)

  -- An event that is accepted goes to each subscription that it matches, and one that is refused to
  -- none.
  pub handle_event-sent :
      (r : Relay p) (m : Moment p) (ev : Event)
      → let out = handle_event r m ev in
        out.1.sent ≡ r.sent ++ (if is_relay_ok out.0 then broadcasts r ev else [])
  unfolding handle_event
  handle_event-sent r m ev =
      let r1 = apply_deletion r m ev in
      let stored = store_event r1 m ev in
      let (sent1, same1) = apply_deletion-same r m ev in
      let (sent2, same2) = store_event-same r1 m ev in
      let Tells = λ (out : RelayError × Relay p).
        out.1.sent ≡ r.sent ++ (if is_relay_ok out.0 then broadcasts r ev else []) in
      let ephemeral : (fanout r1 ev).sent ≡ r.sent ++ broadcasts r ev =
        fanout-sent r1 ev ∙ rw (sent1, same1) refl in
      let kept : (fanout stored.1 ev).sent ≡ r.sent ++ broadcasts r ev =
        fanout-sent stored.1 ev ∙ rw (sent2, same2, sent1, same1) refl in
      if_ind Tells (is_valid (verdict r m ev))
        (λ v.
          if_ind Tells (not (p.checks.is_ephemeral ev.kind) && r.has_storage)
            (λ s.
              if_ind Tells (is_kept stored.0) (λ k. kept)
                λ k. sent2 ∙ sent1 ∙ sym (append-nil r.sent))
            λ s. ephemeral)
        λ v. sym (append-nil r.sent) ∙ rw (not_ok (verdict r m ev) v) refl
