-- ===== src/WsServer/Accepting.antt =====
-- `on_open` of main/ws_server.c: when a connection is accepted.
use wisp_esp.Base.{
  ℕ, ◌<◌, ◌≡◌, inl, inr, true, arith, ltb, leb, Bool-cases, Option-cases, find_entry,
  find_entry-none, first_where-none, count_where,
}
use wisp_esp.Base.Capacity.{count-complement}
use wisp_esp.WsServer.{max_connections, WsServer, is_ok, is_free, Peer, on_open}
use wisp_esp.WsServer.Invariant.{IsValid, is_active}

-- With fewer than eight connections a slot is free.
some_free :
    (s : WsServer)
    → IsValid s
    → s.connection_count < max_connections
    → 0 < count_where is_free s.connections
some_free s v few = omega (arith, count-complement is_active s.connections, v.size, v.counted)

-- On a valid server that is set up, `on_open` accepts a connection exactly while there are fewer than
-- eight.
pub on_open_accepts :
    (s : WsServer) (peer : Peer) (micros fd : ℕ)
    → IsValid s
    → s.installed ≡ true
    → is_ok (on_open peer micros s fd).0 ≡ ltb s.connection_count max_connections
unfolding on_open
on_open_accepts s peer micros fd v up = elim (Bool-cases (leb max_connections s.connection_count)) [
  | inl full ↦ ground arith
  | inr room ↦
      let few : s.connection_count < max_connections = ground arith in
      elim (Option-cases (find_entry is_free s.connections)) [
        | inl none_free ↦
            let free = some_free s v few in
            absurd (
              omega (
                arith,
                free,
                first_where-none is_free s.connections
                    (find_entry-none is_free s.connections none_free),
              ))
        | inr ((i, old), f) ↦ ground arith
      ]
]
