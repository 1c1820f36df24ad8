-- ===== src/Server/Heartbeat.antt =====
-- The liveness check that runs every 30 seconds (src/server/server.js, lines 739-758).
pub mod Liveness
use nonetchat_web.Prelude.{
  ℕ, String, Option, none, some, Bool, true, false, List, [], ◌∷◌, ◌++◌, if◌then◌else◌,
}
use nonetchat_web.Prelude.Dict
use nonetchat_web.Server.State.{Server, Client, World, Effect, terminated, pinged, log_effect, shut}
use nonetchat_web.Server.Discovery.{Chance, rebuild_geo_tree, broadcast_peer_updates}

abbrev pub terminate : World → Chance → String → Client → Server → Server
terminate w h id c s =
    let gone = log_effect (terminated c.ws) (shut c.ws s) in
    broadcast_peer_updates w h
      (rebuild_geo_tree (record gone { clients = Dict.delete id gone.clients }))

abbrev pub ping : String → Client → Server → Server
ping id c s =
    log_effect (pinged c.ws)
      (record s { clients = Dict.set id (record c { is_alive = false }) s.clients })

abbrev pub check_found : World → Chance → String → Server → Option Client → Server
check_found w h id s none = s
check_found w h id s (some c) = if c.is_alive then ping id c s else terminate w h id c s

-- A client that has not answered since the last check is cut off; every other one is asked.
unfoldable pub check_client : World → Chance → String → Server → Server
check_client w h id s = check_found w h id s (Dict.get id s.clients)

unfoldable pub check_clients : World → Chance → List String → Server → Server
unfolding check_client
check_clients w h [] s = s
check_clients w h (id ∷ ids) s = check_clients w h ids (check_client w h id s)

-- The clients are walked in the order in which they came.
unfoldable pub heartbeat_tick : World → Chance → Server → Server
unfolding check_clients Dict.keys
heartbeat_tick w h s = check_clients w h (Dict.keys s.clients) s
