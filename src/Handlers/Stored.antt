-- ===== src/Handlers/Stored.antt =====
-- `handle_event` of main/handlers_stub.c: what has been accepted is stored.
use wisp_esp.Base.{
  some, ◌≡◌, refl, ap, ◌∙◌, ◌⊎◌, inl, inr, true, false, not, ◌&&◌, ◌==◌, List, [], ◌∷◌, if_ind,
}
use wisp_esp.Protocol.{Event, RelayError, relay_ok}
use wisp_esp.SubManager.{MatchEntry, matching}
use wisp_esp.Storage.Types.{StorageError, ok, duplicate, IndexEntry, FileLaws}
use wisp_esp.Storage.Invariant.{IsValid}
use wisp_esp.Storage.Content.{lookup}
use wisp_esp.Storage.Presence.{save_event_present}
use wisp_esp.Validator.{is_valid}
use wisp_esp.Deletion.{kind_deletion}
use wisp_esp.Deletion.Invariant.{process-Kept}
use wisp_esp.Router.{event_msg}
use wisp_esp.Relay.{Platform, Relay, Moment, emit}
use wisp_esp.Broadcaster.{fanout_loop, fanout}
use wisp_esp.Handlers.{apply_deletion, store_event, handle_event, verdict, is_kept}
use wisp_esp.Handlers.Answers.{not_ok}

is_kept_cases : (s : StorageError) → is_kept s ≡ true → (s ≡ ok) ⊎ (s ≡ duplicate)
is_kept_cases ok e = inl refl
is_kept_cases duplicate e = inr refl
is_kept_cases s e = absurd (cc)

module _ {p : Platform} where
  fanout_loop-store :
      (ev : Event) (r : Relay p) (es : List MatchEntry) → (fanout_loop ev r es).store ≡ r.store
  unfolding fanout_loop
  fanout_loop-store ev r [] = refl
  fanout_loop-store ev r (e ∷ es) =
      fanout_loop-store ev (emit r e.match_fd (event_msg e.match_id ev)) es

  fanout-store : (r : Relay p) (ev : Event) → (fanout r ev).store ≡ r.store
  unfolding fanout
  fanout-store r ev =
      if_ind (λ (x : Relay p). x.store ≡ r.store) r.has_subs
        (λ e. fanout_loop-store ev r (matching p.filters_match r.sub_manager ev)) λ e. refl

  module _ (laws : FileLaws p.fs) (r : Relay p) (m : Moment p) (ev : Event)
      (v : IsValid r.store.engine) where
    apply_deletion-IsValid : IsValid (apply_deletion r m ev).store.engine
    unfolding apply_deletion
    apply_deletion-IsValid =
        if_ind (λ (x : Relay p). IsValid x.store.engine)
          ((ev.kind == kind_deletion) && r.has_storage)
          (λ e.
            (process-Kept p.lib p.del p.fs laws p.nvs r.store.engine.next_file_index m.deletion
              r.store ev (record { valid = v; same = refl })).valid)
          λ e. v

    store_event_present :
        is_kept (store_event (apply_deletion r m ev) m ev).0 ≡ true
        → (e : IndexEntry) × (lookup (store_event (apply_deletion r m ev) m ev).1.store.engine ev.id
            ≡ some e)
    unfolding store_event
    store_event_present k =
        let st = (apply_deletion r m ev).store in
        save_event_present p.lib p.fs laws p.nvs st.engine ev m.save_buffer m.time st.files st.saved
          apply_deletion-IsValid (is_kept_cases _ k)

    -- Where the engine is there and valid, an event that `handle_event` accepts and that is not
    -- ephemeral has a live entry in the index afterwards, also if it is a deletion request itself.
    pub handle_event_stores :
        r.has_storage ≡ true
        → p.checks.is_ephemeral ev.kind ≡ false
        → (handle_event r m ev).0 ≡ relay_ok
        → (e : IndexEntry) × (lookup (handle_event r m ev).1.store.engine ev.id ≡ some e)
    unfolding handle_event
    handle_event_stores there lasting =
        let r1 = apply_deletion r m ev in
        let stored = store_event r1 m ev in
        let Good = λ (out : RelayError × Relay p).
          out.0 ≡ relay_ok → (e : IndexEntry) × (lookup out.1.store.engine ev.id ≡ some e) in
        if_ind Good (is_valid (verdict r m ev))
          (λ a.
            if_ind Good (not (p.checks.is_ephemeral ev.kind) && r.has_storage)
              (λ s.
                if_ind Good (is_kept stored.0)
                  (λ k h.
                    let (e, found) = store_event_present k in
                    (e, ap (λ st. lookup st.engine ev.id) (fanout-store stored.1 ev) ∙ found))
                  λ k h. absurd (cc))
              λ s h. absurd (let no_skip = rw (lasting, there) at s in cc))
          λ a h. absurd (let refusal = not_ok (verdict r m ev) a in cc)
