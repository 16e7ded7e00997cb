-- ===== src/WsServer/Invariant.antt =====
-- The invariant of the table of connections of main/ws_server.c under each callback.
use wisp_esp.Base.{
  ℕ, ◌≤◌, ◌<◌, ◌≡◌, ◌≢◌, refl, sym, ap, ◌∙◌, inl, inr, Bool, true, false, some, arith, length, leb,
  Bool-cases, Option-cases, bit, find_entry, count_where, find_entry-some, find_entry-none,
  count_where-set, count_where-le_length, count_where-replicate, first_where-none, length-set,
  length-replicate, set,
}
use wisp_esp.WsServer.{
  max_connections, Connection, WsServer, EspErr, esp_ok, esp_fail, zero_connection, no_connections,
  is_free, is_fd, incr8, Peer, opened, on_open, drop_connection, update_activity, uptime,
}

abbrev pub is_active : Connection → Bool
is_active c = c.active

-- Eight slots, the right count of the active ones, and at most one for a socket.
pub record IsValid (s : WsServer) : Type 0 where
  pub size : length s.connections ≡ max_connections
  pub counted : s.connection_count ≡ count_where is_active s.connections
  pub single : (fd : ℕ) → count_where (is_fd fd) s.connections ≤ 1

-- Whether a socket has a connection.
abbrev pub IsOpen : WsServer → ℕ → Type 0
IsOpen s fd = 0 < count_where (is_fd fd) s.connections

pub fresh-IsValid :
    (s : WsServer) → s.connections ≡ no_connections → s.connection_count ≡ 0 → IsValid s
fresh-IsValid s e n = record {
  size = ap length e ∙ length-replicate max_connections zero_connection;
  counted =
      n
      ∙ sym (
          ap (count_where is_active) e
          ∙ count_where-replicate is_active max_connections zero_connection refl);
  single = λ fd. omega (
    arith,
    ap (count_where (is_fd fd)) e,
    count_where-replicate (is_fd fd) max_connections zero_connection refl,
  );
}

-- The ways through `on_open`.
pub data Opened (s : WsServer) (peer : Peer) (micros fd : ℕ) (out : EspErr × WsServer)
    : Type 0 where
  denied : out ≡ (esp_fail, s) → Opened s peer micros fd out
  accepted :
      (i : ℕ) (old : Connection)
      → find_entry is_free s.connections ≡ some (i, old)
      → s.connection_count < max_connections
      → out ≡ (
        esp_ok,
        record s {
          connections = set s.connections i (opened peer micros fd);
          connection_count = incr8 s.connection_count;
        },
      )
      → Opened s peer micros fd out

pub on_open-Opened :
    (s : WsServer) (peer : Peer) (micros fd : ℕ)
    → Opened s peer micros fd (on_open peer micros s fd)
unfolding on_open
on_open-Opened s peer micros fd = elim (Bool-cases s.installed) [
  | inr e ↦ denied (ground arith)
  | inl e ↦ elim (Bool-cases (leb max_connections s.connection_count)) [
    | inl h ↦ denied (ground arith)
    | inr h ↦ elim (Option-cases (find_entry is_free s.connections)) [
      | inl f ↦ denied (ground arith)
      | inr ((i, old), f) ↦ accepted i old f (ground arith) (ground arith)
    ]
  ]
]

opened-is_fd :
    (peer : Peer) (micros fd fd' : ℕ) → is_fd fd' (opened peer micros fd) ≡ true → fd ≡ fd'
opened-is_fd peer micros fd fd' e = ground arith

free-is_fd : (fd : ℕ) (c : Connection) → is_free c ≡ true → is_fd fd c ≡ false
free-is_fd fd c e = ground arith

-- `on_open` for a socket that has no connection keeps a valid table valid: eight slots, the right
-- count of the active ones, and at most one for a socket.
pub on_open-IsValid :
    (s : WsServer) (peer : Peer) (micros fd : ℕ)
    → IsValid s
    → count_where (is_fd fd) s.connections ≡ 0
    → IsValid (on_open peer micros s fd).1
on_open-IsValid s peer micros fd v new = elim (on_open-Opened s peer micros fd) [
  | denied e ↦ rw e v
  | accepted i old f room e ↦
      let (got, free, first) = find_entry-some is_free s.connections i old f in
      let c = opened peer micros fd in
      let off : old.active ≡ false = ground arith in
      rw e (record {
        size = length-set s.connections i c ∙ v.size;
        counted = omega (
          arith,
          count_where-set is_active s.connections i old c got,
          ap bit off,
          v.counted,
          count_where-le_length is_active s.connections,
          v.size,
        );
        single = λ fd'.
            let moved = count_where-set (is_fd fd') s.connections i old c got in
            let before = free-is_fd fd' old free in
            elim (Bool-cases (is_fd fd' c)) [
              | inl hit ↦
                  let same = opened-is_fd peer micros fd fd' hit in
                  omega (
                    arith,
                    moved,
                    ap bit before,
                    ap bit hit,
                    new,
                    ap (λ k. count_where (is_fd k) s.connections) same,
                  )
              | inr miss ↦ omega (arith, moved, ap bit before, ap bit miss, v.single fd')
            ];
      })
]

-- `on_close` keeps a valid table valid, and afterwards the socket has no connection.
pub drop_connection-IsValid :
    (s : WsServer) (fd : ℕ)
    → IsValid s
    → IsValid (drop_connection s fd)
      × (count_where (is_fd fd) (drop_connection s fd).connections ≡ 0)
unfolding drop_connection
drop_connection-IsValid s fd v = elim (Option-cases (find_entry (is_fd fd) s.connections)) [
  | inl e ↦
      rw (e, drop_connection)
        (v, first_where-none (is_fd fd) s.connections (find_entry-none (is_fd fd) s.connections e))
  | inr ((i, c), e) ↦
      let (got, hit, first) = find_entry-some (is_fd fd) s.connections i c e in
      let on : c.active ≡ true = ground arith in
      let moved = λ (fd' : ℕ). count_where-set (is_fd fd') s.connections i c zero_connection got in
      rw (e, drop_connection)
        (
          record {
            size = length-set s.connections i zero_connection ∙ v.size;
            counted = omega (
              arith,
              count_where-set is_active s.connections i c zero_connection got,
              ap bit on,
              v.counted,
              count_where-le_length is_active s.connections,
              v.size,
            );
            single = λ fd'. omega (arith, moved fd', v.single fd');
          },
          omega (arith, moved fd, ap bit hit, v.single fd),
        )
]

pub drop_connection-flags :
    (s : WsServer) (fd : ℕ)
    → ((drop_connection s fd).installed ≡ s.installed)
      × ((drop_connection s fd).on_disconnect ≡ s.on_disconnect)
unfolding drop_connection
drop_connection-flags s fd = (ground arith, ground arith)

-- Other sockets keep their connections.
pub drop_connection-others :
    (s : WsServer) (fd fd' : ℕ)
    → fd' ≢ fd
    → count_where (is_fd fd') (drop_connection s fd).connections
      ≡ count_where (is_fd fd') s.connections
unfolding drop_connection
drop_connection-others s fd fd' ne = elim (Option-cases (find_entry (is_fd fd) s.connections)) [
  | inl e ↦ rw (e, drop_connection) refl
  | inr ((i, c), e) ↦
      let (got, hit, first) = find_entry-some (is_fd fd) s.connections i c e in
      let off : is_fd fd' c ≡ false = ground arith in
      let moved = count_where-set (is_fd fd') s.connections i c zero_connection got in
      rw (e, drop_connection) (omega (arith, moved, ap bit off))
]

-- `update_connection_activity` changes no count.
pub update_activity-counts :
    (micros : ℕ) (s : WsServer) (fd fd' : ℕ)
    → count_where (is_fd fd') (update_activity micros s fd).connections
      ≡ count_where (is_fd fd') s.connections
unfolding update_activity
update_activity-counts micros s fd fd' = elim (Option-cases (find_entry (is_fd fd) s.connections)) [
  | inl e ↦ rw (e, update_activity) refl
  | inr ((i, c), e) ↦
      let (got, hit, first) = find_entry-some (is_fd fd) s.connections i c e in
      let c' = record c { last_activity = uptime micros } in
      rw (e, update_activity) (omega (arith, count_where-set (is_fd fd') s.connections i c c' got))
]

pub update_activity-IsValid :
    (micros : ℕ) (s : WsServer) (fd : ℕ) → IsValid s → IsValid (update_activity micros s fd)
unfolding update_activity
update_activity-IsValid micros s fd v = elim (Option-cases (find_entry (is_fd fd) s.connections)) [
  | inl e ↦ rw (e, update_activity) v
  | inr ((i, c), e) ↦
      let (got, hit, first) = find_entry-some (is_fd fd) s.connections i c e in
      let c' = record c { last_activity = uptime micros } in
      rw (e, update_activity)
        (record {
          size = length-set s.connections i c' ∙ v.size;
          counted = omega (arith, count_where-set is_active s.connections i c c' got, v.counted);
          single = λ fd'.
              omega (arith, count_where-set (is_fd fd') s.connections i c c' got, v.single fd');
        })
]

-- `on_open` closes no socket and leaves the callbacks.
pub on_open-counts :
    (s : WsServer) (peer : Peer) (micros fd : ℕ)
    → let s' = (on_open peer micros s fd).1 in
      (s'.installed ≡ s.installed)
      × (s'.on_disconnect ≡ s.on_disconnect)
      × ((fd' : ℕ) → count_where (is_fd fd') s.connections ≤ count_where (is_fd fd') s'.connections)
on_open-counts s peer micros fd = elim (on_open-Opened s peer micros fd) [
  | denied e ↦ rw e (refl, refl, λ fd'. omega arith)
  | accepted i old f room e ↦
      let (got, free, first) = find_entry-some is_free s.connections i old f in
      let c = opened peer micros fd in
      rw e (
        refl,
        refl,
        λ fd'. omega (
          arith,
          count_where-set (is_fd fd') s.connections i old c got,
          ap bit (free-is_fd fd' old free),
        ),
      )
]
