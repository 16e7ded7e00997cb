-- ===== src/Router/Answers.antt =====
-- main/router.c, `router_dispatch`: every message gets its one answer.
use mathlib.Core.List.{append-nil}
use wisp_esp.Base.{
  ℕ, ◌≡◌, refl, ap, inl, inr, Bool, true, false, not, Option, none, some, ◌&&◌, ◌||◌, ◌==◌, ltb,
  List, [], ◌∷◌, ◌++◌, subst, length, if_ind_state, if◌then◌else◌, Bool-cases,
}
use wisp_esp.Base.Text.{codes}
use wisp_esp.Protocol.{Text, Event, Filter, RelayError, relay_ok, is_relay_ok}
use wisp_esp.RateLimiter.{RateType, event, req}
use wisp_esp.Router.{ok_msg, eose_msg, closed_msg, max_filters, max_sub_id, rejection_message}
use wisp_esp.Router.Dispatch.{limited, dispatch_event, dispatch_req}
use wisp_esp.SubManager.{add}
use wisp_esp.Relay.{Platform, Relay, Moment, Sent, emit}
use wisp_esp.Handlers.{handle_event, handle_req, send_stored}
use wisp_esp.Handlers.Answers.{broadcasts, handle_event-sent}
use wisp_esp.Handlers.Requests.{Answered, stored_results, Answered-by}

module _ {p : Platform} (r : Relay p) (m : Moment p) (fd : ℕ) where
  limited-same :
      (type : RateType) (ev : Event)
      → ((limited r m fd type).1.sent ≡ r.sent)
        × (broadcasts (limited r m fd type).1 ev ≡ broadcasts r ev)
  unfolding limited
  limited-same type ev =
      if_ind_state (λ (x : Relay p). (x.sent ≡ r.sent) × (broadcasts x ev ≡ broadcasts r ev))
        r.has_limiter _ _ (λ e. (refl, refl)) λ e. (refl, refl)

  limited-sent : (type : RateType) → (limited r m fd type).1.sent ≡ r.sent
  unfolding limited
  limited-sent type =
      if_ind_state (λ (x : Relay p). x.sent ≡ r.sent) r.has_limiter _ _ (λ e. refl) λ e. refl

  -- Whether an EVENT is within the limits of its connection and the handler accepts it.
  abbrev pub accepted : Event → Bool
  accepted ev =
      let (refused, r1) = limited r m fd event in
      not refused && is_relay_ok (handle_event r1 m ev).0

  -- `router_dispatch` answers an EVENT with exactly one OK for its identifier, whose flag tells
  -- whether the event was accepted; before it, an event that was accepted has gone to exactly the
  -- subscriptions that it matches, and one that was not to none.
  pub dispatch_event_answer :
      (ev : Event)
      → (text : Text) × ((dispatch_event r m fd ev).sent
          ≡ r.sent
            ++ (if accepted ev then broadcasts r ev else [])
            ++ (fd, ok_msg (p.id_hex ev) (accepted ev) text) ∷ [])
  unfolding dispatch_event
  dispatch_event_answer ev =
      let out = limited r m fd event in
      let (sent1, same1) = limited-same event ev in
      let done = handle_event out.1 m ev in
      elim (Bool-cases out.0) [
        | inl refused ↦ (codes "rate-limited:", simp (refused, sent1, append-nil))
        | inr admitted ↦ (
          (if is_relay_ok done.0 then [] else rejection_message p.prefixes done.0),
          simp (admitted, handle_event-sent out.1 m ev, sent1, same1),
        )
      ]

  -- What a REQ meets at `r1`, the relay after the test of the limits, by the first test that it fails:
  -- the text of its CLOSED, or `none`.
  abbrev pub req_refusal : Text → List Filter → Option Text
  req_refusal sub fs =
      let (refused, r1) = limited r m fd req in
      let result = (add p.grants p.filter_free r1.sub_manager fd sub fs r1.memory).0 in
      if refused
      then some (codes "rate-limited:")
      else (if (length sub == 0) || ltb max_sub_id (length sub)
          then some (codes "error: invalid subscription id")
          else (if ltb max_filters (length fs)
              then some (codes "error: too many filters")
              else (if r1.has_subs && not (is_relay_ok result)
                  then some (codes "error: too many subscriptions")
                  else none)))

  -- The stored events that a REQ is owed: the results of its queries, where there is a table of
  -- subscriptions and an engine.
  abbrev pub req_found : List Filter → List Event
  req_found fs =
      let r1 = (limited r m fd req).1 in
      if r1.has_subs && r1.has_storage then stored_results m 0 r1.store fs else []

  -- The answer that is owed: a CLOSED alone with the text of the refusal, or events and an EOSE.
  abbrev pub Owed : Text → List Event → Option Text → Relay p → Type 0
  Owed sub found (some text) out = out.sent ≡ r.sent ++ (fd, closed_msg sub text) ∷ []
  Owed sub found none out = Answered fd sub m.ids_buffer found r.sent (eose_msg sub) out

  closed_at_once :
      (sub text : Text) (x : Relay p)
      → x.sent ≡ r.sent
      → (emit x fd (closed_msg sub text)).sent ≡ r.sent ++ (fd, closed_msg sub text) ∷ []
  closed_at_once sub text x same = ap (λ l. l ++ (fd, closed_msg sub text) ∷ []) same

  nothing_found :
      (sub : Text) (x : Relay p)
      → x.sent ≡ r.sent
      → Answered fd sub m.ids_buffer [] r.sent (eose_msg sub) (emit x fd (eose_msg sub))
  unfolding send_stored
  nothing_found sub x same =
      subst (λ l. Answered fd sub m.ids_buffer [] l (eose_msg sub) (emit x fd (eose_msg sub))) same
        (Answered-by fd sub m x [] (eose_msg sub))

  by_test :
      (P : Bool → Relay p → Type 0) (x y : Relay p) (b : Bool)
      → P true x
      → P false y
      → P b (if b then x else y)
  by_test P x y true px py = px
  by_test P x y false px py = py

  by_error :
      (P : Bool → Relay p → Type 0) (x y : Relay p) (err : RelayError)
      → P true x
      → P false y
      → P (is_relay_ok err) (elim err [ relay_ok ↦ x | e ↦ y ])
  by_error P x y relay_ok px py = px
  by_error P x y e px py = py

  -- The answer of `handle_req` on the relay after the test of the limits.
  handle_req-Owed :
      (sub : Text) (fs : List Filter)
      → let x = (limited r m fd req).1 in
        let result = (add p.grants p.filter_free x.sub_manager fd sub fs x.memory).0 in
        Owed sub
          (req_found fs)
          (if x.has_subs && not (is_relay_ok result)
            then some (codes "error: too many subscriptions")
            else none)
          (handle_req x m fd sub fs)
  unfolding handle_req
  handle_req-Owed sub fs =
      let x = (limited r m fd req).1 in
      let same = limited-sent req in
      let out = add p.grants p.filter_free x.sub_manager fd sub fs x.memory in
      let x1 = record x { sub_manager = out.1; memory = out.2 } in
      let all = stored_results m 0 x.store fs in
      let refused =
        λ (b : Bool). if b then some (codes "error: too many subscriptions") else none in
      let answered = λ (l : List Sent).
        Answered fd sub m.ids_buffer all l (eose_msg sub)
          (emit (send_stored m fd sub 0 x1 [] fs) fd (eose_msg sub)) in
      by_test
        (λ b y.
          Owed sub (if b && x.has_storage then all else []) (refused (b && not (is_relay_ok out.0)))
            y)
        _ _ x.has_subs
        (by_error (λ ok y. Owed sub (if x.has_storage then all else []) (refused (not ok)) y) _ _
          out.0
          (by_test (λ k y. Owed sub (if k then all else []) none (emit y fd (eose_msg sub))) _ _
            x.has_storage (subst answered same (Answered-by fd sub m x1 fs (eose_msg sub)))
            (nothing_found sub x1 same))
          (closed_at_once sub _ x1 same))
        (nothing_found sub x same)

  -- `router_dispatch` answers a REQ, on every path, in one of two ways. Where the limiter refuses it,
  -- its identifier is empty or too long, it has too many filters, or its subscription is not accepted,
  -- the answer is one CLOSED with the text for the first of these. Otherwise it is one EOSE, after events
  -- that its queries found, if there are a table of subscriptions and an engine: in their order, no
  -- identifier twice among the first 64 (if their buffer could be allocated), and each result is sent,
  -- or another event with its identifier.
  pub dispatch_req_answer :
      (sub : Text) (fs : List Filter)
      → Owed sub (req_found fs) (req_refusal sub fs) (dispatch_req r m fd sub fs)
  unfolding dispatch_req
  dispatch_req_answer sub fs =
      let out = limited r m fd req in
      let same = limited-sent req in
      elim (Bool-cases out.0) [
        | inl e ↦ rw e (closed_at_once sub _ out.1 same)
        | inr e ↦ elim (Bool-cases ((length sub == 0) || ltb max_sub_id (length sub))) [
          | inl b ↦ rw (e, b) (closed_at_once sub _ out.1 same)
          | inr b ↦ elim (Bool-cases (ltb max_filters (length fs))) [
            | inl c ↦ rw (e, b, c) (closed_at_once sub _ out.1 same)
            | inr c ↦ rw (e, b, c) (handle_req-Owed sub fs)
          ]
        ]
      ]
