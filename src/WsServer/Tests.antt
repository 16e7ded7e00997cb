-- ===== src/WsServer/Tests.antt =====
-- Runs of main/ws_server.c at concrete inputs, and its theorems there.
use wisp_esp.Base.{ℕ, ◌≡◌, refl, true, none, some, ltb, count_where, find_entry}
use wisp_esp.Base.Text.{codes}
use wisp_esp.WsServer.{
  max_connections, WsServer, is_ok, no_connections, is_fd, Peer, inet4, no_name, on_open,
  drop_connection,
}
use wisp_esp.WsServer.Invariant.{IsValid, fresh-IsValid, on_open-IsValid, drop_connection-IsValid}
use wisp_esp.WsServer.Accepting.{on_open_accepts}

abbrev fresh : WsServer
fresh = record {
  running = true;
  connections = no_connections;
  connection_count = 0;
  installed = true;
  on_message = true;
  on_disconnect = true;
  current = none;
}

abbrev phone : Peer
phone = inet4 (some (codes "10.0.0.5"))

abbrev one_open : WsServer
one_open = (on_open phone 3_000_000 fresh 5).1

IsValid-fresh : IsValid fresh
IsValid-fresh = fresh-IsValid fresh refl refl

absent : (fd : ℕ) → count_where (is_fd fd) fresh.connections ≡ 0
unfolding count_where
absent fd = refl

IsValid-open : IsValid one_open
IsValid-open = on_open-IsValid fresh phone 3_000_000 5 IsValid-fresh (absent 5)

other_absent : count_where (is_fd 6) one_open.connections ≡ 0
unfolding on_open find_entry count_where
other_absent = refl

still_installed : one_open.installed ≡ true
unfolding on_open find_entry
still_installed = refl

on_open-IsValid_example : IsValid (on_open no_name 4_000_000 one_open 6).1
on_open-IsValid_example = on_open-IsValid one_open no_name 4_000_000 6 IsValid-open other_absent

on_open_accepts_example :
    is_ok (on_open no_name 4_000_000 one_open 6).0 ≡ ltb one_open.connection_count max_connections
on_open_accepts_example = on_open_accepts one_open no_name 4_000_000 6 IsValid-open still_installed

drop_connection-IsValid_example :
    IsValid (drop_connection one_open 5)
    × (count_where (is_fd 5) (drop_connection one_open 5).connections ≡ 0)
drop_connection-IsValid_example = drop_connection-IsValid one_open 5 IsValid-open
