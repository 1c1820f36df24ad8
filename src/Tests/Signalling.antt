-- ===== src/Tests/Signalling.antt =====
-- Examples for the signalling server: two devices that are registered, one of them with a session.
use nonetchat_web.Prelude.{
  ◌≡◌, inl, inr, ◌+◌, ◌⊎◌, ◌≤◌, refl, none, some, true, false, [], ◌∷◌, arith, length,
}
use nonetchat_web.Prelude.Dict
use nonetchat_web.Server.State.{
  Server, Client, Session, World, geo, km, Location, accepted, client_id,
}
use nonetchat_web.Server.Sessions.{
  get_session_info, auth_session, issued, refused, is_expired, get_stored_auth_hash,
}
use nonetchat_web.Server.Sessions.Issued.{SessionRequest, ask_all, auth_session_first_key}
use nonetchat_web.Server.Discovery.{Chance, broadcast_peer_updates, km_room_id}
use nonetchat_web.Server.Discovery.Rooms.{sees-km_room_id}
use nonetchat_web.Server.Reach.{start, done, next, logs_in, connects, says}
use nonetchat_web.Server.Reach.Clients.{edit, unedited, reached-broadcast_peer_updates}
use nonetchat_web.Server.Discovery.Fair.{IsBroadcast}
use nonetchat_web.Auth.{Auth, ensure_session, is_session_valid, compute_auth_key}
use nonetchat_web.Auth.Accepted.{ask_server, ensure_session-get_session_info}
use nonetchat_web.Server.Signalling.{
  ProfileClaim, chat, register, on_connection, on_client_message, on_register, on_close, on_pong,
}
use nonetchat_web.Server.Signalling.Identity.{Adds, on_client_message-stamps}
use nonetchat_web.Server.Signalling.Registration.{
  on_register-authenticates, on_close_superseded, client_for,
}
use nonetchat_web.Server.Heartbeat.{heartbeat_tick}
use nonetchat_web.Server.Heartbeat.Liveness.{heartbeat_tick_twice, heartbeat_tick-on_pong}
use nonetchat_web.Server.Agent.{Called, answered, call_fuel, call_mistral, first_retries}
use nonetchat_web.Server.Agent.Limits.{allowed, check_ai_rate_limit_lets_ten}
use nonetchat_web.Server.Agent.Retries.{sum, call_mistral_bounded}
use nonetchat_web.Peer.Room.{sees}

abbrev a_place : Location
a_place = record {
  latitude = 1;
  longitude = 2;
  timestamp = 900;
  accuracy_meters = none;
  method = "gps";
}

abbrev a_world : World
a_world = record {
  session_ttl = 60;
  push_enabled = true;
  sha256 = λ t. t;
  trim = λ t. t;
  normalize_city = λ t. t;
  avatar_url = λ id version size. id;
  geohash = λ x y p. "u09";
  print_number = λ n. "n";
  geoip = λ ip. none;
  send_notification = λ sub p. accepted;
  retrieve = λ l radius points. "d2" ∷ [];
  reach = λ l radius l'. some (0, "0 m");
}

abbrev a_client : Client
a_client = record {
  ws = 1;
  ip = some "10.0.0.1";
  is_alive = true;
  radius = km 10;
  location = some a_place;
  discovery_mode = geo;
  country_code = some "FR";
  city_name = none;
  country_name = none;
  normalized_city_name = none;
  profile = record { name = "Ann"; avatar_version = 1; avatar = "a" };
  session_token = "token";
}

abbrev a_server : Server
a_server = record {
  clients = ("d1", a_client) ∷ ("d2", record a_client { ws = 2 }) ∷ [];
  ids = (1, "d1") ∷ (2, "d2") ∷ [];
  open_sockets = 1 ∷ 2 ∷ [];
  geo_tree = [];
  device_auth = [];
  sessions = ("token", record { device_id = "d1"; expires_at = 5000 }) ∷ [];
  push_subscriptions = [];
  ai_rate_limits = [];
  log = [];
}

abbrev a_chance : Chance
a_chance = record { now = 1000; random = λ id i. 0 }

abbrev a_claim : ProfileClaim
a_claim = record { name = some "Ann"; display_name = none; avatar_version = none; avatar = none }

on_client_message-stamps_example : Adds "d1" a_server (
    on_client_message a_world a_chance 1 none
      (chat (some "d2") (some "d2") (some "hi") none none none)
      a_server)
unfolding client_id
on_client_message-stamps_example =
    on_client_message-stamps "d1" a_world a_chance 1 none
      (chat (some "d2") (some "d2") (some "hi") none none none) a_server refl

on_register-authenticates_example :
    (Dict.get "d1"
        (on_register a_world a_chance 3 none none (some "token") a_claim a_server).clients
      ≡ Dict.get "d1" a_server.clients)
    ⊎ ((r : Session) × (Dict.get "token" a_server.sessions ≡ some r)
        × (is_expired 1000 r ≡ false)
        × (r.device_id ≡ "d1"))
on_register-authenticates_example =
    on_register-authenticates a_world a_chance 3 none a_claim none (some "token") a_server "d1"

on_close_superseded_example :
    let t = on_register a_world a_chance 3 none none (some "token") a_claim a_server in
    (Dict.get "d1" t.clients ≡ some (client_for a_world a_chance 3 none a_claim "token" "d1"))
    × (Dict.get "d1" (on_close a_world a_chance 1 t).clients ≡ none)
unfolding client_id get_session_info Dict.get
on_close_superseded_example =
    on_close_superseded a_world a_chance 3 none a_claim none (some "token") a_server "d1" 1 a_chance
      (record { device_id = "d1"; expires_at = 5000 }) refl refl refl refl refl refl

heartbeat_tick_twice_example :
    Dict.get "d1"
      (heartbeat_tick a_world a_chance (heartbeat_tick a_world a_chance a_server)).clients
    ≡ none
heartbeat_tick_twice_example = heartbeat_tick_twice a_world a_chance a_chance a_server "d1"

heartbeat_tick-on_pong_example :
    let t = heartbeat_tick a_world a_chance a_server in
    Dict.get "d1" (heartbeat_tick a_world a_chance (on_pong 1 t)).clients
    ≡ some (record a_client { is_alive = false })
unfolding Dict.get client_id
heartbeat_tick-on_pong_example =
    heartbeat_tick-on_pong a_world a_chance a_chance a_server 1 "d1" a_client (refl, (refl, tt))
      refl refl refl refl

abbrev an_auth : Auth
an_auth = record { device_secret = "secret"; session_token = none; session_expires_at = none }

ensure_session-get_session_info_example :
    let first =
      ensure_session
        (λ t. "0123456789abcdef")
        (ask_server a_world 1000 "t3")
        1000
        "device-3"
        an_auth
        a_server in
    let again =
      ensure_session
        (λ t. "0123456789abcdef")
        (ask_server a_world 20000 "t4")
        20000
        "device-3"
        first.1.0
        first.1.1 in
    (first.0 ≡ some "t3")
    × (again.0 ≡ some "t3")
    × ((get_session_info "t3" 20000 again.1.1).0
        ≡ some (record { device_id = "device-3"; expires_at = 61000 }))
unfolding is_session_valid compute_auth_key get_stored_auth_hash Dict.get
ensure_session-get_session_info_example =
    ensure_session-get_session_info a_world (λ t. "0123456789abcdef") "device-3" an_auth a_server
      "t3" 1000 20000 20000 "t4" refl refl refl refl refl (omega arith)

-- A device logs in, connects and registers.
abbrev a_run : Server
a_run = on_client_message a_world a_chance 1 none (register none (some "t1") a_claim) (
    on_connection false none 1
      (auth_session a_world 900 "t1" (some "device-1") (some "0123456789abcdef") start).1)

-- Another client has been entered.
abbrev an_edit : Server
an_edit = record a_run { clients = Dict.set "d2" a_client a_run.clients }

reached-broadcast_peer_updates_example :
    IsBroadcast an_edit an_edit.clients an_edit (broadcast_peer_updates a_world a_chance an_edit)
reached-broadcast_peer_updates_example =
    reached-broadcast_peer_updates a_world {s = a_run} {t = an_edit}
      (next (logs_in 900 "t1" (some "device-1") (some "0123456789abcdef")) (
        next (connects false none 1)
          (next (says a_chance 1 none (register none (some "t1") a_claim)) done)))
      (edit (inr (inl ("d2", a_client, refl))) unedited) a_chance

abbrev a_wrong_key : SessionRequest
a_wrong_key = record {
  now = 1500;
  token = "t4";
  device_id = some "device-3";
  key = some "another-wrong-key";
}

auth_session_first_key_example :
    let r = auth_session a_world 1000 "t1" (some "device-3") (some "0123456789abcdef") a_server in
    (r.0 ≡ issued "t1" 61000)
    × ((auth_session a_world 2000 "t2"
          (some "device-3")
          (some "fedcba9876543210")
          (ask_all a_world (a_wrong_key ∷ []) r.1)).0
        ≡ refused 401 "Authentication failed")
unfolding get_stored_auth_hash Dict.get
auth_session_first_key_example =
    auth_session_first_key a_world "device-3" refl "0123456789abcdef" "fedcba9876543210" "t1" "t2"
      1000 2000 (a_wrong_key ∷ []) a_server refl refl refl refl refl

check_ai_rate_limit_lets_ten_example : allowed "ip" (1000 ∷ 2000 ∷ 61000 ∷ []) a_server ≡ 3
unfolding Dict.get
check_ai_rate_limit_lets_ten_example =
    check_ai_rate_limit_lets_ten "ip" 1000 (2000 ∷ 61000 ∷ []) a_server tt
      (ground arith, (ground arith, tt))

call_mistral_bounded_example :
    (c : Called) × (call_mistral call_fuel (λ n. answered 429 "busy") 0 first_retries ≡ some c)
    × (c.requests ≤ 6)
    × (c.requests ≡ length c.waits + 1)
    × (sum c.waits ≤ 15500)
call_mistral_bounded_example = call_mistral_bounded (λ n. answered 429 "busy")

sees-km_room_id_example :
    sees (km_room_id a_world 100 a_place) (km_room_id a_world 3 a_place) ≡ true
sees-km_room_id_example =
    sees-km_room_id a_world (λ x y p. (refl, (refl, (refl, tt)))) (λ x y p q h. refl) 3 100 a_place
      (ground arith)
