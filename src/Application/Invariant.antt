-- ===== src/Application/Invariant.antt =====
-- main/main.c: the invariant of the relay under the callbacks of the server.
use wisp_esp.Base.{
  ℕ, ◌≤◌, ◌≡◌, ◌≢◌, refl, sym, ap, ◌∙◌, subst, ◌⊎◌, inl, inr, true, ◌==◌, none, arith, count_where,
  Bool-cases,
}
use wisp_esp.RateLimiter.Invariant.{reset-IsValid}
use wisp_esp.RateLimiter.View.{bucket_of, reset_lem}
use wisp_esp.SubManager.Connections.{subs_of}
use wisp_esp.SubManager.RemoveAll.{remove_all-Owns, remove_all_ends, remove_all_fewer}
use wisp_esp.WsServer
use wisp_esp.WsServer.{WsServer, Peer, is_fd, on_open, on_close, drop_connection, esp_ok}
use wisp_esp.WsServer.Invariant.{
  IsOpen, on_open-IsValid, on_open-counts, drop_connection-IsValid, drop_connection-others,
  drop_connection-flags,
}
use wisp_esp.Relay.{Platform, Relay}
use wisp_esp.Application.{on_ws_disconnect, socket_opened, socket_closed}
use wisp_esp.Application.Working.{IsWorking, Handled}
use wisp_esp.Application.Handling.{Laws}

-- Nothing is kept for a socket.
pub record IsForgotten {p : Platform} (r : Relay p) (fd : ℕ) : Type 0 where
  pub bucket : bucket_of r.limiter fd ≡ none
  pub subs : subs_of fd r.sub_manager ≡ 0

-- The relay between two callbacks: its objects are valid, the callbacks are set, and only sockets
-- that are open have a bucket or subscriptions.
pub record IsSound {p : Platform} (base : ℕ) (r : Relay p) : Type 0 where
  pub working : IsWorking base r
  pub server : WsServer.Invariant.IsValid r.server
  pub installed : r.server.installed ≡ true
  pub hook : r.server.on_disconnect ≡ true
  pub tracked : (fd : ℕ) → IsOpen r.server fd ⊎ IsForgotten r fd

module _ {p : Platform} (base : ℕ) where
  -- The table of connections changes, and no socket is closed.
  pub reserved-IsSound :
      (r : Relay p) (s : WsServer)
      → IsSound base r
      → WsServer.Invariant.IsValid s
      → s.installed ≡ true
      → s.on_disconnect ≡ true
      → ((fd : ℕ)
          → count_where (is_fd fd) r.server.connections ≤ count_where (is_fd fd) s.connections)
      → IsSound base (record r { server = s })
  reserved-IsSound r s v valid i h more = record {
    working = record {
      table = v.working.table;
      index = v.working.index;
      buckets = v.working.buckets;
      has_subs = v.working.has_subs;
      has_storage = v.working.has_storage;
      has_limiter = v.working.has_limiter;
    };
    server = valid;
    installed = i;
    hook = h;
    tracked = λ fd. elim (v.tracked fd) [
      | inl o ↦ inl (omega (arith, more fd))
      | inr f ↦ inr (record { bucket = f.bucket; subs = f.subs })
    ];
  }

  -- `on_open` for a socket that is not open keeps the relay sound.
  pub socket_opened-IsSound :
      (r : Relay p) (peer : Peer) (micros fd : ℕ)
      → IsSound base r
      → count_where (is_fd fd) r.server.connections ≡ 0
      → IsSound base (socket_opened r peer micros fd)
  unfolding socket_opened
  socket_opened-IsSound r peer micros fd v new =
      let (i, h, more) = on_open-counts r.server peer micros fd in
      reserved-IsSound r (on_open peer micros r.server fd).1 v
        (on_open-IsValid r.server peer micros fd v.server new) (i ∙ v.installed) (h ∙ v.hook) more

  module _ (laws : Laws p) where
    -- Every socket but `fd` keeps what it had or lost a subscription, and so stays tracked.
    pub Handled-IsSound :
        (r r' : Relay p) (fd : ℕ)
        → IsSound base r
        → IsOpen r.server fd
        → Handled base fd r r'
        → IsSound base r'
    Handled-IsSound r r' fd v here h = record {
      working = h.working;
      server = subst WsServer.Invariant.IsValid (sym h.server) v.server;
      installed = ap (λ (s : WsServer). s.installed) h.server ∙ v.installed;
      hook = ap (λ (s : WsServer). s.on_disconnect) h.server ∙ v.hook;
      tracked = λ fd'. elim (Bool-cases (fd' == fd)) [
        | inl e ↦
            let same : fd ≡ fd' = ground arith in
            inl (subst (λ s. IsOpen s fd') (sym h.server) (subst (IsOpen r.server) same here))
        | inr e ↦
            let other : fd' ≢ fd = ground arith in
            elim (v.tracked fd') [
              | inl o ↦ inl (subst (λ s. IsOpen s fd') (sym h.server) o)
              | inr f ↦ inr (record {
                bucket = h.buckets fd' other ∙ f.bucket;
                subs = omega (arith, h.subs fd' other, f.subs);
              })
            ]
      ];
    }

    -- The callback of a closed socket, past the test that it is set up.
    closed_lem :
        (r : Relay p) (fd : ℕ)
        → IsSound base r
        → socket_closed r fd
          ≡ record (on_ws_disconnect r fd) { server = drop_connection r.server fd }
    unfolding socket_closed on_close on_ws_disconnect
    closed_lem r fd v = rw (v.installed, v.hook) refl

    disconnected-IsWorking :
        (r : Relay p) (fd : ℕ) (s : WsServer)
        → IsWorking base r
        → IsWorking base (record (on_ws_disconnect r fd) { server = s })
    unfolding on_ws_disconnect
    disconnected-IsWorking r fd s w = record {
      table =
          remove_all-Owns p.grants p.filter_free laws.frees fd base r.sub_manager r.memory w.table;
      index = w.index;
      buckets = reset-IsValid r.limiter fd w.buckets;
      has_subs = w.has_subs;
      has_storage = w.has_storage;
      has_limiter = w.has_limiter;
    }

    -- `on_ws_disconnect` leaves nothing of the socket, and nothing new for another.
    disconnected-IsForgotten :
        (r : Relay p) (fd : ℕ) (s : WsServer)
        → IsWorking base r
        → IsForgotten (record (on_ws_disconnect r fd) { server = s }) fd
          × ((fd' : ℕ)
              → fd' ≢ fd
              → IsForgotten r fd'
              → IsForgotten (record (on_ws_disconnect r fd) { server = s }) fd')
    unfolding on_ws_disconnect
    disconnected-IsForgotten r fd s w =
        let (gone, others, same) = reset_lem r.limiter fd w.buckets in
        let ends =
          remove_all_ends p.grants p.filter_free laws.frees fd base r.sub_manager r.memory
            w.table in
        let fewer =
          remove_all_fewer p.grants p.filter_free laws.frees fd base r.sub_manager r.memory
            w.table in
        (
          record { bucket = gone; subs = ends },
          λ fd' ne f. record {
            bucket = others fd' ne ∙ f.bucket;
            subs = omega (arith, fewer fd', f.subs);
          },
        )

    -- `on_close` keeps the relay sound, and then nothing is kept for the socket.
    pub socket_closed-IsSound :
        (r : Relay p) (fd : ℕ)
        → IsSound base r
        → IsSound base (socket_closed r fd)
          × IsForgotten (socket_closed r fd) fd
          × (count_where (is_fd fd) (socket_closed r fd).server.connections ≡ 0)
    socket_closed-IsSound r fd v =
        let s = drop_connection r.server fd in
        let (valid, dropped) = drop_connection-IsValid r.server fd v.server in
        let (installed, hook) = drop_connection-flags r.server fd in
        let (gone, others) = disconnected-IsForgotten r fd s v.working in
        rw (closed_lem r fd v) (
          record {
            working = disconnected-IsWorking r fd s v.working;
            server = valid;
            installed = installed ∙ v.installed;
            hook = hook ∙ v.hook;
            tracked = λ fd'. elim (Bool-cases (fd' == fd)) [
              | inl e ↦
                  inr (subst (IsForgotten _) (let same : fd ≡ fd' = ground arith in same) gone)
              | inr e ↦
                  let ne : fd' ≢ fd = ground arith in
                  elim (v.tracked fd') [
                    | inl o ↦ inl (omega (arith, o, drop_connection-others r.server fd fd' ne))
                    | inr f ↦ inr (others fd' ne f)
                  ]
            ];
          },
          gone,
          dropped,
        )
