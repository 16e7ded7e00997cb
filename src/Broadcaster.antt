-- ===== src/Broadcaster.antt =====
-- main/broadcaster.c: an event goes to each subscription that it matches.
use wisp_esp.Base.{List, [], ◌∷◌, if◌then◌else◌}
use wisp_esp.Protocol.{Event}
use wisp_esp.SubManager.{MatchEntry, matching}
use wisp_esp.Router.{event_msg}
use wisp_esp.Relay.{Platform, Relay, emit}

module _ {p : Platform} where
  -- The loop over the matches.
  unfoldable pub fanout_loop : Event → Relay p → List MatchEntry → Relay p
  fanout_loop ev r [] = r
  fanout_loop ev r (e ∷ es) = fanout_loop ev (emit r e.match_fd (event_msg e.match_id ev)) es

  -- `broadcaster_fanout`
  unfoldable pub fanout : Relay p → Event → Relay p
  fanout r ev =
      if r.has_subs then fanout_loop ev r (matching p.filters_match r.sub_manager ev) else r
