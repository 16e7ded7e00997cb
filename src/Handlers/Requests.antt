-- ===== src/Handlers/Requests.antt =====
-- `handle_req` of main/handlers_stub.c: the whole answer to a REQ.
use wisp_esp.Base.{
  ℕ, suc, ◌≤◌, ◌≡◌, refl, ap, ◌∙◌, subst, Bool, true, false, ◌&&◌, ltb, List, [], ◌∷◌, ◌++◌, map,
  take, arith, length, All, if_ind, if◌then◌else◌, count_where,
}
use wisp_esp.Protocol.{Text, Bytes, Event, Filter, RelayError, relay_ok}
use wisp_esp.SubManager.{add}
use wisp_esp.Storage.Query.{query_events}
use wisp_esp.Deletion.{Store, is_success}
use wisp_esp.Router.{RelayMsg, event_msg, eose_msg}
use wisp_esp.Relay.{Platform, Relay, Moment, Sent, emit}
use wisp_esp.Handlers.{send_results, send_stored, handle_req, was_sent, max_sent_ids, query_limit}
use wisp_esp.Handlers.Results.{
  to_sub, id_of, IsDistinct, Picked, Sends, Sends-trans, send_results-Sends,
}

-- The results of the queries of a REQ, one query after the other, from filter `i` on.
abbrev pub stored_results :
    {p : Platform} → Moment p → ℕ → Store p.fs p.nvs → List Filter → List Event
stored_results m i st [] = []
stored_results {p} m i st (f ∷ fs) =
    let q = m.queries i in
    let (result, eng, files, found) =
      query_events p.lib p.fs st.engine f (query_limit f) q.room q.buffers q.time st.files in
    (if is_success result then found else [])
    ++ stored_results m (suc i) (record st { engine = eng; files = files }) fs

-- How many of the events that were sent are kept to be compared with.
abbrev pub compared : Bool → ℕ
compared buffer = if buffer then max_sent_ids else 0

module _ {p : Platform} (fd : ℕ) (sub : Text) where
  send_results-store :
      (buffer : Bool) (r : Relay p) (ids : List Bytes) (evs : List Event)
      → (send_results buffer fd sub r ids evs).1.store ≡ r.store
  unfolding send_results
  send_results-store buffer r ids [] = refl
  send_results-store buffer r ids (ev ∷ evs) =
      let known = buffer && was_sent ev.id ids in
      let more = buffer && ltb (length ids) max_sent_ids in
      let r' = if known then r else emit r fd (event_msg sub ev) in
      send_results-store buffer r'
        (if known then ids else (if more then ids ++ ev.id ∷ [] else ids)) evs
      ∙ if_ind (λ (x : Relay p). x.store ≡ r.store) known (λ e. refl) λ e. refl

  send_stored-Sends :
      (m : Moment p) (i : ℕ) (r : Relay p) (ids : List Bytes) (fs : List Filter)
      → length ids ≤ max_sent_ids
      → (ids' : List Bytes) × Sends fd sub m.ids_buffer ids
          (stored_results m i r.store fs)
          r.sent
          (ids', send_stored m fd sub i r ids fs)
  unfolding send_stored send_results
  send_stored-Sends m i r ids [] le = (ids, send_results-Sends fd sub m.ids_buffer ids r [] le)
  send_stored-Sends m i r ids (f ∷ fs) le =
      let q = m.queries i in
      let out =
        query_events p.lib p.fs r.store.engine f (query_limit f) q.room q.buffers q.time
          r.store.files in
      let st = record r.store { engine = out.1; files = out.2 } in
      let r1 = record r { store = st } in
      let found = if is_success out.0 then out.3 else [] in
      let mid = send_results m.ids_buffer fd sub r1 ids found in
      let a = send_results-Sends fd sub m.ids_buffer ids r1 found le in
      let (ids', b) = send_stored-Sends m (suc i) mid.1 mid.0 fs (a.few le) in
      let same = send_results-store m.ids_buffer r1 ids found in
      let b' =
        subst
          (λ s.
            Sends fd sub m.ids_buffer mid.0 (stored_results m (suc i) s fs) mid.1.sent
              (ids', send_stored m fd sub (suc i) mid.1 mid.0 fs))
          same b in
      (
        ids',
        Sends-trans fd sub m.ids_buffer ids r.sent found (stored_results m (suc i) st fs) mid
            (ids', send_stored m fd sub (suc i) mid.1 mid.0 fs) a b',
      )

  -- The whole answer: some events that were found, in their order, each once as far as they are
  -- compared, none left out but for one with the same identifier, and then the last message.
  pub record Answered (buffer : Bool) (found : List Event) (before : List Sent) (last : RelayMsg)
      (out : Relay p) : Type 0 where
    pub events : List Event
    pub sent : out.sent ≡ before ++ map (to_sub fd sub) events ++ (fd, last) ∷ []
    pub chosen : Picked events found
    pub distinct : IsDistinct (take (compared buffer) (map id_of events))
    pub full : All (λ ev. was_sent ev.id (map id_of events) ≡ true) found

  IsDistinct-start :
      (buffer : Bool) (ids : List Bytes) (found : List Event) (before : List Sent)
      (out : List Bytes × Relay p) (s : Sends fd sub buffer [] found before out)
      → IsDistinct (take (compared buffer) (map id_of s.events))
  unfolding count_where
  IsDistinct-start true ids found before out s x =
      subst IsDistinct (s.noted refl) (s.distinct λ y. omega arith) x
  IsDistinct-start false ids found before out s x = omega arith

  pub Answered-by :
      (m : Moment p) (r : Relay p) (fs : List Filter) (last : RelayMsg)
      → Answered m.ids_buffer
          (stored_results m 0 r.store fs)
          r.sent
          last
          (emit (send_stored m fd sub 0 r [] fs) fd last)
  Answered-by m r fs last =
      let (ids, s) = send_stored-Sends m 0 r [] fs (omega arith) in
      record {
        events = s.events;
        sent = ap (λ l. l ++ (fd, last) ∷ []) s.sent;
        chosen = s.chosen;
        distinct = IsDistinct-start m.ids_buffer ids _ r.sent _ s;
        full = s.complete;
      }

  accepted_end :
      (P : Relay p → Type 0) {x : Relay p} (y : Relay p) (err : RelayError)
      → err ≡ relay_ok
      → P x
      → P (elim err [ relay_ok ↦ x | e ↦ y ])
  accepted_end P y relay_ok h px = px
  accepted_end P y e h px = absurd (cc)

  -- Where the table of subscriptions and the engine are there and the subscription is accepted,
  -- `handle_req` sends stored events and then one EOSE. The events are results of the queries, in
  -- their order; no identifier is twice among the first 64 (if their buffer could be allocated); and
  -- each result is sent, or another event with its identifier.
  pub handle_req_answers :
      (r : Relay p) (m : Moment p) (fs : List Filter)
      → r.has_subs ≡ true
      → r.has_storage ≡ true
      → (add p.grants p.filter_free r.sub_manager fd sub fs r.memory).0 ≡ relay_ok
      → Answered m.ids_buffer
          (stored_results m 0 r.store fs)
          r.sent
          (eose_msg sub)
          (handle_req r m fd sub fs)
  unfolding handle_req
  handle_req_answers r m fs subs storage accepted =
      let out = add p.grants p.filter_free r.sub_manager fd sub fs r.memory in
      let r1 = record r { sub_manager = out.1; memory = out.2 } in
      let Good = λ (x : Relay p).
        Answered m.ids_buffer (stored_results m 0 r.store fs) r.sent (eose_msg sub) x in
      if_ind Good r.has_subs
        (λ h. accepted_end Good (emit r1 fd _) out.0 accepted (
          if_ind (λ (x : Relay p). Good (emit x fd (eose_msg sub))) r.has_storage
            (λ k. Answered-by m r1 fs (eose_msg sub)) λ k. absurd (cc)))
        λ h. absurd (cc)
