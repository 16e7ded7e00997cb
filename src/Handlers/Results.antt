-- ===== src/Handlers/Results.antt =====
-- `handle_req` of main/handlers_stub.c: the stored events that a subscription is sent, against the
-- results of its queries.
use mathlib.Core.List.{append_assoc, append-nil}
use wisp_esp.Base.{
  ℕ, ◌≤◌, ◌<◌, ◌≡◌, refl, sym, ap, ◌∙◌, subst, inl, inr, Bool, true, false, ◌&&◌, ◌||◌, ltb, List,
  [], ◌∷◌, ◌++◌, map, take, arith, length, All, All-append, if◌then◌else◌, Bool-cases, bit,
  bytes_eq, bytes_eq_refl, bytes_eq_sound, take-take_append, count_where, count_where-append,
  length-append, take_all, take-append,
}
use wisp_esp.Protocol.{Text, Bytes, Event}
use wisp_esp.Router.{event_msg}
use wisp_esp.Relay.{Platform, Relay, Sent, emit}
use wisp_esp.Handlers.{send_results, was_sent, max_sent_ids}

-- The call that sends an event to a subscription.
abbrev pub to_sub : ℕ → Text → Event → Sent
to_sub fd sub ev = (fd, event_msg sub ev)

abbrev pub id_of : Event → Bytes
id_of ev = ev.id

-- No identifier twice.
abbrev pub IsDistinct : List Bytes → Type 0
IsDistinct ids = (x : Bytes) → count_where (bytes_eq x) ids ≤ 1

was_sent-append :
    (x : Bytes) (xs ys : List Bytes) → was_sent x (xs ++ ys) ≡ (was_sent x xs || was_sent x ys)
was_sent-append x [] ys = refl
was_sent-append x (z ∷ xs) ys = elim (Bool-cases (bytes_eq z x)) [
  | inl e ↦ rw e refl
  | inr e ↦ rw e (was_sent-append x xs ys)
]

bytes_eq-sym : (x y : Bytes) → bytes_eq x y ≡ true → bytes_eq y x ≡ true
bytes_eq-sym x y e = subst (λ z. bytes_eq z x ≡ true) (bytes_eq_sound x y e) (bytes_eq_refl x)

was_sent-count :
    (x : Bytes) (xs : List Bytes) → was_sent x xs ≡ false → count_where (bytes_eq x) xs ≡ 0
unfolding count_where
was_sent-count x [] e = refl
was_sent-count x (z ∷ xs) e = elim (Bool-cases (bytes_eq z x)) [
  | inl h ↦ absurd (let bad : true ≡ false = rw h at e in cc)
  | inr h ↦ elim (Bool-cases (bytes_eq x z)) [
    | inl k ↦ absurd (let bad = bytes_eq-sym x z k in cc)
    | inr k ↦
        rw k (
          omega (arith, was_sent-count x xs (let rest : was_sent x xs ≡ false = rw h at e in rest)))
  ]
]

IsDistinct-append :
    (ids : List Bytes) (x : Bytes)
    → was_sent x ids ≡ false
    → IsDistinct ids
    → IsDistinct (ids ++ x ∷ [])
unfolding count_where
IsDistinct-append ids x new d y = elim (Bool-cases (bytes_eq y x)) [
  | inl e ↦
      let same = bytes_eq_sound y x e in
      let absent : count_where (bytes_eq y) ids ≡ 0 =
        subst (λ z. count_where (bytes_eq z) ids ≡ 0) (sym same) (was_sent-count x ids new) in
      omega (arith, count_where-append (bytes_eq y) ids (x ∷ []), absent, ap bit e)
  | inr e ↦ omega (arith, count_where-append (bytes_eq y) ids (x ∷ []), ap bit e, d y)
]

map-append {ℓ ℓ'} :
    {A : Type ℓ} {B : Type ℓ'}
    → (f : A → B) (xs ys : List A) → map f (xs ++ ys) ≡ map f xs ++ map f ys
map-append f [] ys = refl
map-append f (x ∷ xs) ys = ap (λ l. f x ∷ l) (map-append f xs ys)

-- Some elements of a list, in their order.
pub data Picked {ℓ} {A : Type ℓ} : List A → List A → Type ℓ where
  picked_nil : Picked [] []
  picked : {x : A} {xs ys : List A} → Picked xs ys → Picked (x ∷ xs) (x ∷ ys)
  passed : {y : A} {xs ys : List A} → Picked xs ys → Picked xs (y ∷ ys)

Picked-append {ℓ} :
    {A : Type ℓ} {xs ys xs' ys' : List A}
    → Picked xs ys
    → Picked xs' ys'
    → Picked (xs ++ xs') (ys ++ ys')
Picked-append picked_nil q = q
Picked-append (picked p) q = picked (Picked-append p q)
Picked-append (passed p) q = passed (Picked-append p q)

or_true : (b c : Bool) → c ≡ true → (b || c) ≡ true
or_true true c e = refl
or_true false c e = e

or_left : (b c : Bool) → b ≡ true → (b || c) ≡ true
or_left true c e = refl
or_left false c e = cc

was_sent_last : (x : Bytes) (ids : List Bytes) → was_sent x (ids ++ x ∷ []) ≡ true
was_sent_last x ids =
    was_sent-append x ids (x ∷ [])
    ∙ or_true (was_sent x ids) (was_sent x (x ∷ []))
        (or_left (bytes_eq x x) false (bytes_eq_refl x))

All-mono {ℓ κ κ'} :
    {A : Type ℓ} {P : A → Type κ} {Q : A → Type κ'}
    → (xs : List A) → ((x : A) → P x → Q x)
    → All P xs
    → All Q xs
All-mono [] f h = tt
All-mono (x ∷ xs) f h = (f x h.0, All-mono xs f h.1)

module _ {p : Platform} (fd : ℕ) (sub : Text) where
  -- What sending the results `found` has done, where `ids` were the identifiers that were noted.
  pub record Sends (buffer : Bool) (ids : List Bytes) (found : List Event) (before : List Sent)
      (out : List Bytes × Relay p) : Type 0 where
    pub events : List Event
    pub sent : out.1.sent ≡ before ++ map (to_sub fd sub) events
    pub noted : buffer ≡ true → out.0 ≡ take max_sent_ids (ids ++ map id_of events)
    pub few : length ids ≤ max_sent_ids → length out.0 ≤ max_sent_ids
    pub distinct : IsDistinct ids → IsDistinct out.0
    pub within : (x : Bytes) → was_sent x out.0 ≡ true → was_sent x (ids ++ map id_of events) ≡ true
    pub chosen : Picked events found
    pub complete : All (λ ev. was_sent ev.id (ids ++ map id_of events) ≡ true) found

  -- The body of the loop.
  abbrev step : Bool → List Bytes → Relay p → Event → List Bytes × Relay p
  step buffer ids r ev =
      let known = buffer && was_sent ev.id ids in
      let more = buffer && ltb (length ids) max_sent_ids in
      (
        if known then ids else (if more then ids ++ ev.id ∷ [] else ids),
        if known then r else emit r fd (event_msg sub ev),
      )

  step-Sends :
      (buffer : Bool) (ids : List Bytes) (r : Relay p) (ev : Event)
      → length ids ≤ max_sent_ids
      → Sends buffer ids (ev ∷ []) r.sent (step buffer ids r ev)
  step-Sends buffer ids r ev le = elim (Bool-cases (buffer && was_sent ev.id ids)) [
    | inl known ↦
        let there : was_sent ev.id ids ≡ true = ground arith in
        simp known (record {
          events = [];
          sent = sym (append-nil r.sent);
          noted = λ b. sym (ap (take max_sent_ids) (append-nil ids) ∙ take_all max_sent_ids ids le);
          few = λ l. l;
          distinct = λ d. d;
          within = λ x h. ap (was_sent x) (append-nil ids) ∙ h;
          chosen = passed picked_nil;
          complete = (ap (was_sent ev.id) (append-nil ids) ∙ there, tt);
        })
    | inr unknown ↦ elim (Bool-cases (buffer && ltb (length ids) max_sent_ids)) [
      | inl more ↦
          let new : was_sent ev.id ids ≡ false = ground arith in
          let room : length ids < max_sent_ids = ground arith in
          let longer = length-append ids (ev.id ∷ []) in
          simp (unknown, more)
            (record {
              events = ev ∷ [];
              sent = refl;
              noted = λ b. sym (take_all max_sent_ids (ids ++ ev.id ∷ []) (omega (arith, longer)));
              few = λ l. omega (arith, longer);
              distinct = IsDistinct-append ids ev.id new;
              within = λ x h. h;
              chosen = picked picked_nil;
              complete = (was_sent_last ev.id ids, tt);
            })
      | inr full ↦
          simp (unknown, full)
            (record {
              events = ev ∷ [];
              sent = refl;
              noted = λ b. sym (take-append max_sent_ids ids (ev.id ∷ []) (ground arith));
              few = λ l. l;
              distinct = λ d. d;
              within = λ x h. was_sent-append x ids (ev.id ∷ []) ∙ or_left (was_sent x ids) _ h;
              chosen = picked picked_nil;
              complete = (was_sent_last ev.id ids, tt);
            })
    ]
  ]

  module _ (buffer : Bool) (ids : List Bytes) (before : List Sent) (found found' : List Event)
      (mid out : List Bytes × Relay p) (a : Sends buffer ids found before mid)
      (b : Sends buffer mid.0 found' mid.1.sent out) where
    both_ids :
        ids ++ map id_of (a.events ++ b.events) ≡ (ids ++ map id_of a.events) ++ map id_of b.events
    both_ids =
        ap (λ l. ids ++ l) (map-append id_of a.events b.events)
        ∙ sym (append_assoc ids (map id_of a.events) (map id_of b.events))

    widen_left :
        (x : Bytes)
        → was_sent x (ids ++ map id_of a.events) ≡ true
        → was_sent x (ids ++ map id_of (a.events ++ b.events)) ≡ true
    widen_left x h =
        ap (was_sent x) both_ids
        ∙ was_sent-append x (ids ++ map id_of a.events) (map id_of b.events)
        ∙ or_left (was_sent x (ids ++ map id_of a.events)) _ h

    widen :
        (x : Bytes)
        → was_sent x (mid.0 ++ map id_of b.events) ≡ true
        → was_sent x (ids ++ map id_of (a.events ++ b.events)) ≡ true
    widen x h = elim (Bool-cases (was_sent x mid.0)) [
      | inl e ↦ widen_left x (a.within x e)
      | inr e ↦
          let split = sym (was_sent-append x mid.0 (map id_of b.events)) ∙ h in
          let late : was_sent x (map id_of b.events) ≡ true = rw e at split in
          ap (was_sent x) both_ids
          ∙ was_sent-append x (ids ++ map id_of a.events) (map id_of b.events)
          ∙ or_true (was_sent x (ids ++ map id_of a.events)) _ late
    ]

    pub Sends-trans : Sends buffer ids (found ++ found') before out
    Sends-trans = record {
      events = a.events ++ b.events;
      sent =
          b.sent
          ∙ ap (λ l. l ++ map (to_sub fd sub) b.events) a.sent
          ∙ append_assoc before (map (to_sub fd sub) a.events) (map (to_sub fd sub) b.events)
          ∙ ap (λ l. before ++ l) (sym (map-append (to_sub fd sub) a.events b.events));
      noted = λ on.
          b.noted on
          ∙ ap (λ l. take max_sent_ids (l ++ map id_of b.events)) (a.noted on)
          ∙ take-take_append max_sent_ids (ids ++ map id_of a.events) (map id_of b.events)
          ∙ ap (take max_sent_ids) (sym both_ids);
      few = λ l. b.few (a.few l);
      distinct = λ d. b.distinct (a.distinct d);
      within = λ x h. widen x (b.within x h);
      chosen = Picked-append a.chosen b.chosen;
      complete =
          All-append _ found found'
            (All-mono found (λ (ev : Event) h. widen_left ev.id h) a.complete)
            (All-mono found' (λ (ev : Event) h. widen ev.id h) b.complete);
    }

  pub send_results-Sends :
      (buffer : Bool) (ids : List Bytes) (r : Relay p) (evs : List Event)
      → length ids ≤ max_sent_ids
      → Sends buffer ids evs r.sent (send_results buffer fd sub r ids evs)
  unfolding send_results
  send_results-Sends buffer ids r [] le = record {
    events = [];
    sent = sym (append-nil r.sent);
    noted = λ b. sym (ap (take max_sent_ids) (append-nil ids) ∙ take_all max_sent_ids ids le);
    few = λ l. l;
    distinct = λ d. d;
    within = λ x h. ap (was_sent x) (append-nil ids) ∙ h;
    chosen = picked_nil;
    complete = tt;
  }
  send_results-Sends buffer ids r (ev ∷ evs) le =
      let one = step-Sends buffer ids r ev le in
      let (ids', r') = step buffer ids r ev in
      Sends-trans buffer ids r.sent (ev ∷ []) evs (ids', r')
        (send_results buffer fd sub r' ids' evs) one
        (send_results-Sends buffer ids' r' evs (one.few le))
