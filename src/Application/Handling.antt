-- ===== src/Application/Handling.antt =====
-- main/handlers_stub.c and main/broadcaster.c under the invariant of main/main.c's objects.
use wisp_esp.Base.{
  ℕ, suc, ◌+◌, ◌-◌, ◌^◌, ◌≤◌, ◌<◌, ◌≡◌, ◌≢◌, refl, Bool, not, ◌&&◌, ◌==◌, ltb, List, [], ◌∷◌, ◌++◌,
  arith, length, if_ind, if_ind_state, if◌then◌else◌,
}
use wisp_esp.Protocol.{Text, Bytes, Event, Filter, RelayError, relay_ok}
use wisp_esp.Base.Text.{codes}
use wisp_esp.SubManager.{SubManager, max_id_len, MatchEntry, matching, add, remove}
use wisp_esp.SubManager.Memory.{Mem, blocks}
use wisp_esp.SubManager.Invariant.{Owns}
use wisp_esp.SubManager.Ownership.{add-Owns, remove-Owns}
use wisp_esp.SubManager.Connections.{subs_of, subs_of-add, subs_of-remove}
use wisp_esp.Storage.Types.{FileLaws}
use wisp_esp.Storage.Query.{query_events}
use wisp_esp.Storage.Saving.{save_event-IsValid}
use wisp_esp.Storage.Invariant.{IsValid}
use wisp_esp.Storage.Keeping.{query_events-Keeps}
use wisp_esp.Validator.{is_valid}
use wisp_esp.Deletion.{Store, is_success, kind_deletion}
use wisp_esp.Deletion.Invariant.{process-Kept}
use wisp_esp.Router.{event_msg, eose_msg, closed_msg}
use wisp_esp.Relay.{Platform, Relay, Moment, emit}
use wisp_esp.Broadcaster.{fanout_loop, fanout}
use wisp_esp.Handlers.{
  apply_deletion, store_event, handle_event, send_results, send_stored, handle_req, handle_close,
  query_limit, was_sent, max_sent_ids, is_kept, verdict,
}
use wisp_esp.Application.Working.{IsWorking, Handled, Handled-refl, emit-Handled}

-- What the allocator and the file system keep to.
pub record Laws (p : Platform) : Type 0 where
  pub frees : (f : Filter) (m : Mem) → (p.filter_free f m).live ≡ m.live - blocks f
  pub files : FileLaws p.fs

module _ {p : Platform} (base fd : ℕ) where
  fanout_loop-Handled :
      (ev : Event) (r r' : Relay p) (es : List MatchEntry)
      → Handled base fd r r'
      → Handled base fd r (fanout_loop ev r' es)
  unfolding fanout_loop
  fanout_loop-Handled ev r r' [] h = h
  fanout_loop-Handled ev r r' (e ∷ es) h =
      fanout_loop-Handled ev r (emit r' e.match_fd (event_msg e.match_id ev)) es
        (emit-Handled base fd r r' e.match_fd (event_msg e.match_id ev) h)

  pub fanout-Handled :
      (r r' : Relay p) (ev : Event) → Handled base fd r r' → Handled base fd r (fanout r' ev)
  unfolding fanout
  fanout-Handled r r' ev h =
      if_ind (Handled base fd r) r'.has_subs
        (λ e. fanout_loop-Handled ev r r' (matching p.filters_match r'.sub_manager ev) h) λ e. h

  -- A step on the engine alone.
  restore-Handled :
      (r r' : Relay p) (st : Store p.fs p.nvs)
      → Handled base fd r r'
      → IsValid st.engine
      → Handled base fd r (record r' { store = st })
  restore-Handled r r' st h v = record {
    working = record {
      table = h.working.table;
      index = v;
      buckets = h.working.buckets;
      has_subs = h.working.has_subs;
      has_storage = h.working.has_storage;
      has_limiter = h.working.has_limiter;
    };
    server = h.server;
    buckets = h.buckets;
    subs = h.subs;
  }

  -- A step on the table of subscriptions alone.
  retable-Handled :
      (r r' : Relay p)
      → Handled base fd r r'
      → (mgr : SubManager) (mem : Mem) → Owns base mgr mem
      → ((fd' : ℕ) → fd' ≢ fd → subs_of fd' mgr ≤ subs_of fd' r.sub_manager)
      → Handled base fd r (record r' { sub_manager = mgr; memory = mem })
  retable-Handled r r' h mgr mem owns fewer = record {
    working = record {
      table = owns;
      index = h.working.index;
      buckets = h.working.buckets;
      has_subs = h.working.has_subs;
      has_storage = h.working.has_storage;
      has_limiter = h.working.has_limiter;
    };
    server = h.server;
    buckets = h.buckets;
    subs = fewer;
  }

  -- The answer to a REQ.
  answered-Handled :
      (r r1 : Relay p) (sub : Text) {r2 : Relay p} (err : RelayError)
      → Handled base fd r r2
      → Handled base fd r r1
      → Handled base fd r (elim err [
        | relay_ok ↦ emit r2 fd (eose_msg sub)
        | e ↦ emit r1 fd (closed_msg sub (codes "error: too many subscriptions"))
      ])
  answered-Handled r r1 sub {r2} relay_ok h2 h1 = emit-Handled base fd r r2 fd (eose_msg sub) h2
  answered-Handled r r1 sub {r2} e h2 h1 =
      emit-Handled base fd r r1 fd (closed_msg sub (codes "error: too many subscriptions")) h1

  send_results-Handled :
      (buffer : Bool) (to : ℕ) (sub : Text) (r r' : Relay p) (ids : List Bytes) (evs : List Event)
      → Handled base fd r r'
      → Handled base fd r (send_results buffer to sub r' ids evs).1
  unfolding send_results
  send_results-Handled buffer to sub r r' ids [] h = h
  send_results-Handled buffer to sub r r' ids (ev ∷ evs) h =
      let known = buffer && was_sent ev.id ids in
      let more = buffer && ltb (length ids) max_sent_ids in
      send_results-Handled buffer to sub r (if known then r' else emit r' to (event_msg sub ev))
        (if known then ids else (if more then ids ++ ev.id ∷ [] else ids)) evs
        (if_ind (Handled base fd r) known (λ e. h)
          λ e. emit-Handled base fd r r' to (event_msg sub ev) h)

  module _ (laws : Laws p) (m : Moment p) where
    send_stored-Handled :
        (to : ℕ) (sub : Text) (i : ℕ) (r r' : Relay p) (ids : List Bytes) (fs : List Filter)
        → Handled base fd r r'
        → Handled base fd r (send_stored m to sub i r' ids fs)
    unfolding send_stored
    send_stored-Handled to sub i r r' ids [] h = h
    send_stored-Handled to sub i r r' ids (f ∷ fs) h =
        let q = m.queries i in
        let out =
          query_events p.lib p.fs r'.store.engine f (query_limit f) q.room q.buffers q.time
            r'.store.files in
        let st = record r'.store { engine = out.1; files = out.2 } in
        let r1 = record r' { store = st } in
        let found = if is_success out.0 then out.3 else [] in
        let kept =
          query_events-Keeps p.lib p.fs laws.files r'.store.engine.next_file_index r'.store.engine f
            (query_limit f) q.room q.buffers q.time r'.store.files
            (record { valid = h.working.index; same = refl }) in
        let sent = send_results m.ids_buffer to sub r1 ids found in
        send_stored-Handled to sub (suc i) r sent.1 sent.0 fs (
          send_results-Handled m.ids_buffer to sub r r1 ids found
            (restore-Handled r r' st h kept.valid))

    -- The deletion takes no file number, so that the event itself can still be stored.
    apply_deletion-Handled :
        (r : Relay p) (ev : Event)
        → IsWorking base r
        → Handled base fd r (apply_deletion r m ev)
          × ((apply_deletion r m ev).store.engine.next_file_index ≡ r.store.engine.next_file_index)
    unfolding apply_deletion
    apply_deletion-Handled r ev w =
        let h = Handled-refl base fd r w in
        if_ind
          (λ (r' : Relay p).
            Handled base fd r r'
            × (r'.store.engine.next_file_index ≡ r.store.engine.next_file_index))
          ((ev.kind == kind_deletion) && r.has_storage)
          (λ e.
            let kept =
              process-Kept p.lib p.del p.fs laws.files p.nvs r.store.engine.next_file_index
                m.deletion r.store ev (record { valid = w.index; same = refl }) in
            (restore-Handled r r _ h kept.valid, kept.same))
          λ e. (h, refl)

    store_event-Handled :
        (r r' : Relay p) (ev : Event)
        → r'.store.engine.next_file_index + 1 < 2 ^ 32
        → Handled base fd r r'
        → Handled base fd r (store_event r' m ev).1
    unfolding store_event
    store_event-Handled r r' ev space h = restore-Handled r r' _ h (
        save_event-IsValid p.lib p.fs p.nvs r'.store.engine ev m.save_buffer m.time r'.store.files
          r'.store.saved h.working.index space)

    -- `handle_event`
    pub handle_event-Handled :
        (r : Relay p) (ev : Event)
        → r.store.engine.next_file_index + 1 < 2 ^ 32
        → IsWorking base r
        → Handled base fd r (handle_event r m ev).1
    unfolding handle_event
    handle_event-Handled r ev space w =
        let r1 = apply_deletion r m ev in
        let stored = store_event r1 m ev in
        let (h1, same) = apply_deletion-Handled r ev w in
        let h2 = store_event-Handled r (apply_deletion r m ev) ev (omega (arith, same, space)) h1 in
        let Good = Handled base fd r in
        if_ind_state Good (is_valid (verdict r m ev)) _ _
          (λ e.
            if_ind_state Good (not (p.checks.is_ephemeral ev.kind) && r.has_storage) _ _
              (λ e'.
                if_ind_state Good (is_kept stored.0) _ _ (λ k. fanout-Handled r stored.1 ev h2)
                  λ k. h2)
              λ e'. fanout-Handled r r1 ev h1)
          λ e. Handled-refl base fd r w

    -- `handle_req`, for an identifier that fits.
    pub handle_req-Handled :
        (r : Relay p) (sub : Text) (fs : List Filter)
        → length sub ≤ max_id_len
        → IsWorking base r
        → Handled base fd r (handle_req r m fd sub fs)
    unfolding handle_req
    handle_req-Handled r sub fs fits w =
        let out = add p.grants p.filter_free r.sub_manager fd sub fs r.memory in
        let r1 = record r { sub_manager = out.1; memory = out.2 } in
        let owns =
          add-Owns base r.sub_manager r.memory w.table p.grants p.filter_free laws.frees fd sub fs
            fits in
        let h1 = retable-Handled r r (Handled-refl base fd r w) out.1 out.2 owns (λ fd' ne. omega (
          arith,
          subs_of-add p.grants p.filter_free laws.frees base r.sub_manager r.memory w.table fd sub
              fs fd' ne,
        )) in
        let Good = Handled base fd r in
        if_ind Good r.has_subs
          (λ e.
            answered-Handled r r1 sub out.0
              (if_ind Good r.has_storage (λ e'. send_stored-Handled fd sub 0 r r1 [] fs h1)
                λ e'. h1)
              h1)
          λ e. emit-Handled base fd r r fd (eose_msg sub) (Handled-refl base fd r w)

    -- `handle_close`
    pub handle_close-Handled :
        (r : Relay p) (sub : Text) → IsWorking base r → Handled base fd r (handle_close r fd sub).1
    unfolding handle_close
    handle_close-Handled r sub w =
        let out = remove p.grants p.filter_free r.sub_manager fd sub r.memory in
        let owns =
          remove-Owns base r.sub_manager r.memory w.table p.grants p.filter_free laws.frees fd
            sub in
        let h = Handled-refl base fd r w in
        if_ind_state (Handled base fd r) r.has_subs _ _
          (λ e. retable-Handled r r h out.1 out.2 owns λ fd' ne.
            subs_of-remove p.grants p.filter_free laws.frees base r.sub_manager r.memory w.table fd
              sub fd')
          λ e. h
