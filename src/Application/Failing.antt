-- ===== src/Application/Failing.antt =====
-- `start_relay_server` and `cleanup_relay_resources` of main/main.c, where a start fails.
use wisp_esp.Base.{
  ℕ, ◌≡◌, refl, sym, ◌∙◌, inl, inr, Bool, true, false, ◌&&◌, ◌||◌, [], some, arith, if_ind,
  Option-cases, if◌then◌else◌,
}
use wisp_esp.RateLimiter
use wisp_esp.SubManager
use wisp_esp.WsServer
use wisp_esp.WsServer.{WsServer, EspErr, is_ok}
use wisp_esp.Deletion.{Store}
use wisp_esp.Relay.{Platform, Relay}
use wisp_esp.Storage.Types.{Engine, Nvs, small_index}
use wisp_esp.Storage.Persist.{
  StorageAnswers, storage_init, cells_of, no_engine, init_index, load_index, destroy,
}
use wisp_esp.Application.{relay_config, rate_config, StartAnswers, start_storage, start, cleanup}

-- Whether every call that the start makes succeeds.
abbrev pub all_succeed : StartAnswers → Bool
all_succeed a =
    a.subs_lock
    && a.storage.lock
    && (a.storage.large || a.storage.small)
    && a.storage.mounted
    && a.task
    && a.server_lock
    && is_ok a.server_started
    && is_ok a.handler_registered

rest :
    (a : StartAnswers)
    → a.subs_lock ≡ true
    → (a.storage.lock && (a.storage.large || a.storage.small) && a.storage.mounted) ≡ true
    → all_succeed a ≡ false
    → (a.task && a.server_lock && is_ok a.server_started && is_ok a.handler_registered) ≡ false
rest a l k bad = ground arith

-- The engine holds nothing: no array, no mutex, and LittleFS is not mounted.
pub record IsEmpty (eng : Engine) : Type 0 where
  pub off : eng.initialized ≡ false
  pub array : eng.index ≡ []
  pub lock : eng.lock ≡ false
  pub unmounted : eng.mounted ≡ false

-- The server does not run; no object is set up, and the mutex of the subscriptions and all that the
-- engine held are given back.
pub record IsDown {p : Platform} (r : Relay p) : Type 0 where
  pub stopped : r.server.running ≡ false
  pub no_subs : r.has_subs ≡ false
  pub no_storage : r.has_storage ≡ false
  pub no_limiter : r.has_limiter ≡ false
  pub subs_lock : r.sub_manager.lock ≡ false
  pub store : IsEmpty r.store.engine

abbrev Left : Bool × Engine → Type 0
Left out = (out.0 ≡ true → out.1.initialized ≡ true) × (out.0 ≡ false → IsEmpty out.1)

no_engine-Left : (cells ttl : ℕ) → Left (false, no_engine cells ttl)
no_engine-Left cells ttl =
    (λ h. absurd (cc), λ h. record { off = refl; array = refl; lock = refl; unmounted = refl })

init-succeeded :
    (lock : Bool) (started registered : EspErr) (s : WsServer)
    → is_ok (WsServer.init lock started registered s).0 ≡ true
    → (lock && is_ok started && is_ok registered) ≡ true
unfolding WsServer.init
init-succeeded lock started registered s =
    let Fine = λ (out : EspErr × WsServer).
      is_ok out.0 ≡ true → (lock && is_ok started && is_ok registered) ≡ true in
    if_ind Fine s.running (λ e k. absurd (cc))
      λ e.
        if_ind Fine lock
          (λ l.
            if_ind Fine (is_ok started)
              (λ b. if_ind Fine (is_ok registered) (λ c k. rw (l, b, c) refl) λ c k. absurd (cc))
              λ b k. absurd (cc))
          λ l k. absurd (cc)

init-failed :
    (lock : Bool) (started registered : EspErr) (s : WsServer)
    → s.running ≡ false
    → is_ok (WsServer.init lock started registered s).0 ≡ false
    → (WsServer.init lock started registered s).1.running ≡ false
unfolding WsServer.init WsServer.cleanup_init
init-failed lock started registered s off =
    let Fine = λ (out : EspErr × WsServer). is_ok out.0 ≡ false → out.1.running ≡ false in
    if_ind Fine s.running (λ e k. off)
      λ e.
        if_ind Fine lock
          (λ l.
            if_ind Fine (is_ok started)
              (λ b. if_ind Fine (is_ok registered) (λ c k. absurd (cc)) λ c k. refl) λ b k. refl)
          λ l k. refl

module _ (nvs : Nvs) where
  destroy-IsEmpty :
      (eng : Engine) (n : nvs.Store) → eng.initialized ≡ true → IsEmpty (destroy nvs eng n).0
  unfolding destroy
  destroy-IsEmpty eng n on =
      rw on (record { off = refl; array = refl; lock = refl; unmounted = refl })

  init_index-initialized :
      (eng : Engine) (n : nvs.Store) → (init_index nvs eng n).initialized ≡ true
  unfolding init_index
  init_index-initialized eng n = elim (Option-cases (load_index nvs eng n)) [
    | inl e ↦ rw (e, init_index) refl
    | inr (loaded, e) ↦ rw (e, init_index) refl
  ]

  -- A `storage_init` that succeeds leaves an engine that is set up, and one that fails an empty one.
  storage_init-Left :
      (a : StorageAnswers) (ttl : ℕ) (n : nvs.Store) → Left (storage_init nvs a ttl n)
  unfolding storage_init
  storage_init-Left a ttl n =
      if_ind Left a.lock
        (λ l.
          if_ind Left (a.large || a.small)
            (λ c.
              if_ind Left a.mounted (λ k. (λ h. init_index-initialized _ n, λ h. absurd (cc)))
                λ k. no_engine-Left (cells_of a) ttl)
            λ c. no_engine-Left small_index ttl)
        λ l. no_engine-Left 0 ttl

  storage_init-succeeded :
      (a : StorageAnswers) (ttl : ℕ) (n : nvs.Store)
      → (storage_init nvs a ttl n).0 ≡ (a.lock && (a.large || a.small) && a.mounted)
  unfolding storage_init
  storage_init-succeeded a ttl n = ground arith

module _ {p : Platform} where
  cleanup-IsDown :
      (r : Relay p) (limiter storage : Bool)
      → r.server.running ≡ false
      → r.has_subs ≡ true
      → (if limiter then false else r.has_limiter) ≡ false
      → (if storage then false else r.has_storage) ≡ false
      → ((storage && r.has_storage) ≡ true → r.store.engine.initialized ≡ true)
      → ((storage && r.has_storage) ≡ false → IsEmpty r.store.engine)
      → IsDown (cleanup r limiter storage true)
  unfolding cleanup SubManager.destroy
  cleanup-IsDown r limiter storage off on l s set_up empty = record {
    stopped = off;
    no_subs = refl;
    no_storage = s;
    no_limiter = l;
    subs_lock =
        if_ind (λ (mgr : SubManager.SubManager). mgr.lock ≡ false) r.has_subs (λ e. refl)
          λ e. absurd (cc);
    store =
        if_ind (λ (st : Store p.fs p.nvs). IsEmpty st.engine) (storage && r.has_storage)
          (λ e. destroy-IsEmpty p.nvs r.store.engine r.store.saved (set_up e)) empty;
  }

  start_storage-IsDown :
      (r : Relay p) (a : StartAnswers)
      → (a.task && a.server_lock && is_ok a.server_started && is_ok a.handler_registered) ≡ false
      → r.server.running ≡ false
      → r.has_subs ≡ true
      → r.has_limiter ≡ false
      → r.store.engine.initialized ≡ true
      → IsDown (start_storage r a)
  unfolding start_storage
  start_storage-IsDown r a bad off on no_limiter set_up =
      let init = WsServer.init a.server_lock a.server_started a.handler_registered r.server in
      let r1 = record r { has_storage = true } in
      if_ind IsDown a.task
        (λ t.
          if_ind IsDown (is_ok init.0)
            (λ k.
              let good =
                init-succeeded a.server_lock a.server_started a.handler_registered r.server k in
              absurd (let no : (true && true) ≡ false = rw (t, good) at bad in cc))
            λ k.
              cleanup-IsDown
                (record r1 {
                  limiter = RateLimiter.init (some rate_config);
                  has_limiter = true;
                  server = init.1;
                })
                true true
                (init-failed a.server_lock a.server_started a.handler_registered r.server off k) on
                refl refl (λ e. set_up) λ e. absurd (cc))
        λ t. cleanup-IsDown r1 false true off on no_limiter refl (λ e. set_up) λ e. absurd (cc)

  -- Where the relay is down and some call of `start_relay_server` fails, whichever it was, the relay is
  -- down afterwards: the server does not run, no object is set up, the mutex of the subscriptions is
  -- deleted, and the engine has no index, no mutex and no mounted LittleFS.
  pub start-IsDown :
      (r : Relay p) (a : StartAnswers) → IsDown r → all_succeed a ≡ false → IsDown (start r a)
  unfolding start SubManager.init
  start-IsDown r a d bad =
      let ttl = relay_config.max_event_age_sec in
      let ready = storage_init-succeeded p.nvs a.storage ttl r.store.saved in
      let (set_up, empty) = storage_init-Left p.nvs a.storage ttl r.store.saved in
      if_ind IsDown r.server.running (λ e. d)
        λ e.
          if_ind IsDown a.subs_lock
            (λ l.
              if_ind IsDown (storage_init p.nvs a.storage ttl r.store.saved).0
                (λ k.
                  start_storage-IsDown _ a (rest a l (sym ready ∙ k) bad) d.stopped refl
                    d.no_limiter (set_up k))
                λ k.
                  cleanup-IsDown _ false false d.stopped refl d.no_limiter d.no_storage
                    (λ h. absurd (cc)) λ h. empty k)
            λ l. record {
              stopped = d.stopped;
              no_subs = d.no_subs;
              no_storage = d.no_storage;
              no_limiter = d.no_limiter;
              subs_lock = l;
              store = d.store;
            }
