-- ===== src/Server/State.antt =====
-- The state of the signalling server (src/server/server.js, lines 102-109, 253, 491-493 and 1008), with the
-- sockets that are open and a log of what it did to sockets and push services.
use nonetchat_web.Prelude.{
  ℕ, String, Option, none, some, Bool, List, [], ◌∷◌, ◌++◌, nat_eq, not, if◌then◌else◌, any, filter,
}
use nonetchat_web.Prelude.Dict.{Dict}

-- A floating-point number, as its 64 bits. What computes with it is a field of `World`.
abbrev pub Float : Type 0
Float = ℕ

pub data Radius : Type 0 where
  world country city : Radius
  km : ℕ → Radius

pub data DiscoveryMode : Type 0 where
  geo lan : DiscoveryMode

pub record Location : Type 0 where
  pub latitude : Float
  pub longitude : Float
  pub timestamp : ℕ
  pub accuracy_meters : Option ℕ
  pub method : String

pub record ServerProfile : Type 0 where
  pub name : String
  pub avatar_version : ℕ
  pub avatar : String

pub record Client : Type 0 where
  pub ws : ℕ
  pub ip : Option String
  pub is_alive : Bool
  pub radius : Radius
  pub location : Option Location
  pub discovery_mode : DiscoveryMode
  pub country_code : Option String
  pub city_name : Option String
  pub country_name : Option String
  pub normalized_city_name : Option String
  pub profile : ServerProfile
  pub session_token : String

pub record Session : Type 0 where
  pub device_id : String
  pub expires_at : ℕ

pub record RateLimit : Type 0 where
  pub requests : ℕ
  pub reset_time : ℕ

pub record Subscription : Type 0 where
  pub endpoint : Option String
  pub keys : String

pub record GeoPoint : Type 0 where
  pub x : Float
  pub y : Float
  pub client_id : String

-- An entry of 'nearby-peers'. The distance stands where it was computed.
pub record ListedPeer : Type 0 where
  pub peer_id : String
  pub distance_km : Option Float
  pub distance_label : String
  pub profile : ServerProfile
  pub country_code : Option String

pub data SignalKind : Type 0 where
  offer answer candidate : SignalKind

-- What the server writes to a socket.
pub data ServerOut : Type 0 where
  nearby_peers : List ListedPeer → (room_id room_label : String) → (t_server : ℕ) → ServerOut
  relayed_chat : (from : String) → (text conv_id : Option String) → ServerOut
  relayed_signal : SignalKind → (from payload : String) → ServerOut

pub record Push : Type 0 where
  pub kind : String
  pub title : String
  pub body : String
  pub tag : String
  pub conv_id : String
  pub sender_avatar : String
  pub from : String

pub data Effect : Type 0 where
  wrote : (ws : ℕ) → ServerOut → Effect
  closed : (ws : ℕ) → (code : Option ℕ) → (reason : String) → Effect
  terminated pinged : (ws : ℕ) → Effect
  pushed : (endpoint : Option String) → Push → Effect

-- `ids` has the `clientId` of each connection's handlers, the newest first.
pub record Server : Type 0 where
  pub clients : Dict Client
  pub ids : List (ℕ × String)
  pub open_sockets : List ℕ
  pub geo_tree : List GeoPoint
  pub device_auth : Dict String
  pub sessions : Dict Session
  pub push_subscriptions : Dict (Dict Subscription)
  pub ai_rate_limits : Dict RateLimit
  pub log : List Effect

pub record GeoData : Type 0 where
  pub country_code : Option String
  pub city_name : Option String
  pub country_name : Option String

-- How a push service answers.
pub data PushAnswer : Type 0 where
  accepted gone refused : PushAnswer

-- The code that the server uses and that is not under src/, and its configuration: SHA-256, the texts'
-- `trim` and `normalize`, the address of a replacement for an avatar (by id, version and size), ngeohash,
-- the GeoIP reader (`none` where there is none or it does not know the address), the push services, and
-- what is computed with floating-point numbers: the points of the quadtree in the box around a place,
-- and the distance to another place with its label, where it is within reach.
pub record World : Type 0 where
  pub session_ttl : ℕ
  pub push_enabled : Bool
  pub sha256 : String → String
  pub trim : String → String
  pub normalize_city : String → String
  pub avatar_url : String → ℕ → ℕ → String
  pub geohash : Float → Float → ℕ → String
  pub print_number : ℕ → String
  pub geoip : Option String → Option GeoData
  pub send_notification : Subscription → Push → PushAnswer
  pub retrieve : Location → ℕ → List GeoPoint → List String
  pub reach : Location → ℕ → Location → Option (Float × String)

abbrev pub log_effect : Effect → Server → Server
log_effect e s = record s { log = s.log ++ e ∷ [] }

abbrev pub is_ready : ℕ → Server → Bool
is_ready ws s = any (nat_eq ws) s.open_sockets

-- `sendTo`: only an open socket is written to.
unfoldable pub send_to : ℕ → ServerOut → Server → Server
send_to ws out s = if is_ready ws s then log_effect (wrote ws out) s else s

abbrev pub shut : ℕ → Server → Server
shut ws s = record s { open_sockets = filter (λ x. not (nat_eq x ws)) s.open_sockets }

-- `ws.close(code, reason)`: the socket is open no more; its 'close' event comes later.
abbrev pub close_socket : ℕ → Option ℕ → String → Server → Server
close_socket ws code reason s = log_effect (closed ws code reason) (shut ws s)

abbrev pub find_ws : ℕ → List (ℕ × String) → Option String
find_ws ws [] = none
find_ws ws ((w, id) ∷ rest) = if nat_eq w ws then some id else find_ws ws rest

-- `clientId` in the handlers of a socket.
unfoldable pub client_id : ℕ → Server → Option String
client_id ws s = find_ws ws s.ids

abbrev pub bind : ℕ → String → Server → Server
bind ws id s = record s { ids = (ws, id) ∷ s.ids }
