-- ===== src/Server/Signalling.antt =====
-- The handlers of a WebSocket connection (src/server/server.js, lines 1007-1277). A handler runs to its end:
-- what another event does at one of its `await`s is not modelled, nor is a payload that is not an object.
pub mod Identity
pub mod Registration
use nonetchat_web.Prelude.{
  ℕ, String, Option, none, some, Bool, true, false, ◌&&◌, ◌||◌, not, List, [], ◌∷◌, ◌++◌, ◌==◌,
  nat_eq, if◌then◌else◌, or_else, or_text, truthy, is_some, take, starts_with,
}
use Prim.Native.String.{[] as empty, ◌∷◌ as ◌&◌, ◌++◌ as ◌⧺◌}
use nonetchat_web.Prelude.TextParts.{chars, text_of_chars}
use nonetchat_web.Prelude.Dict
use nonetchat_web.Prelude.Dict.{Dict}
use nonetchat_web.Peer.Profiles.{version_or_one}
use nonetchat_web.Server.State.{
  Server, Client, Location, Radius, city, DiscoveryMode, geo, lan, ServerProfile, Session, GeoData,
  SignalKind, ServerOut, relayed_chat, relayed_signal, Push, Float, World, send_to, close_socket,
  client_id, bind, shut,
}
use nonetchat_web.Server.Sessions.{get_session_info, refresh_session}
use nonetchat_web.Server.Push.{send_push_to_user}
use nonetchat_web.Server.Discovery.{Chance, rebuild_geo_tree, broadcast_peer_updates}

-- What a message claims of the sender's profile, and of its place.
pub record ProfileClaim : Type 0 where
  pub name : Option String
  pub display_name : Option String
  pub avatar_version : Option ℕ
  pub avatar : Option String

pub record LocationClaim : Type 0 where
  pub latitude : Float
  pub longitude : Float
  pub timestamp : Option ℕ
  pub accuracy_meters : Option ℕ
  pub method : Option String

-- The field `avatar` of 'server-profile-update': null, a text, or absent.
pub data AvatarPatch : Type 0 where
  cleared absent : AvatarPatch
  given : String → AvatarPatch

-- A message of a client. A sender may write a `from` into the payload.
pub data ClientMessage : Type 0 where
  register : (id session_token : Option String) → ProfileClaim → ClientMessage
  update_location : Option LocationClaim → Option Radius → ClientMessage
  request_lan_discovery heartbeat unknown not_json : ClientMessage
  chat : (from to text conv_id sender_name sender_avatar : Option String) → ClientMessage
  signal : SignalKind → (from to : Option String) → (payload : String) → ClientMessage
  profile_update : Option String → Option ℕ → AvatarPatch → ClientMessage

-- The quadtree is built again and everybody is told.
abbrev pub announce : World → Chance → Server → Server
announce w h s = broadcast_peer_updates w h (rebuild_geo_tree s)

abbrev pub set_client : String → Client → Server → Server
set_client id c s = record s { clients = Dict.set id c s.clients }

abbrev pub is_allowed : Bool → Option String → Bool
is_allowed production none = not production
is_allowed production (some o) = o == "https://web.nonetchat.com" || o == "https://nonetchat.com"

-- `connection`, by the Origin of the request.
unfoldable pub on_connection : Bool → Option String → ℕ → Server → Server
on_connection production origin ws s =
    let opened = record s { open_sockets = ws ∷ s.open_sockets } in
    if is_allowed production (truthy origin)
    then opened
    else close_socket ws (some 1008) "Origin not allowed" opened

abbrev pub city_of : World → Option String → Option String
city_of w none = none
city_of w (some name) = some (w.normalize_city name)

abbrev pub no_geo : GeoData
no_geo = record { country_code = none; city_name = none; country_name = none }

abbrev pub new_profile : World → String → ProfileClaim → ServerProfile
new_profile w id claim = record {
  name = or_else (truthy (or_text claim.name claim.display_name)) "Utilisateur";
  avatar_version = version_or_one claim.avatar_version;
  avatar =
      or_else (truthy claim.avatar) (w.avatar_url id (version_or_one claim.avatar_version) 192);
}

abbrev pub new_client :
    World → ℕ → Option String → String → String → ProfileClaim → GeoData → Client
new_client w ws ip id token claim g = record {
  ws = ws;
  ip = ip;
  is_alive = true;
  radius = city;
  location = none;
  discovery_mode = geo;
  country_code = truthy g.country_code;
  city_name = truthy g.city_name;
  country_name = or_text g.country_name (truthy g.country_code);
  normalized_city_name = city_of w (truthy g.city_name);
  profile = new_profile w id claim;
  session_token = token;
}

abbrev pub supersede : ℕ → Server → Option Client → Server
supersede ws s none = s
supersede ws s (some c) =
    if nat_eq c.ws ws then s else close_socket c.ws (some 4001) "Session superseded" s

abbrev pub enter :
    World → Chance → ℕ → Option String → String → ProfileClaim → String → Server → Server
enter w h ws ip token claim id s =
    let c = new_client w ws ip id token claim (or_else (w.geoip ip) no_geo) in
    announce w h (
      refresh_session w token h.now
        (set_client id c (supersede ws (bind ws id s) (Dict.get id s.clients))))

abbrev pub refuse : ℕ → String → Server → Server
refuse ws reason s = close_socket ws (some 4403) reason s

abbrev pub mismatches : Option String → String → Bool
mismatches none id = false
mismatches (some c) id = not (c == id)

abbrev pub with_session :
    World
    → Chance
    → ℕ
    → Option String
    → Option String
    → String
    → ProfileClaim
    → Option Session × Server
    → Server
with_session w h ws ip claimed token claim (none, s) = refuse ws "Invalid session token" s
with_session w h ws ip claimed token claim (some r, s) =
    if not (is_some (truthy (some r.device_id)))
    then refuse ws "Invalid session token" s
    else (if mismatches (truthy claimed) r.device_id
        then refuse ws "Session mismatch" s
        else enter w h ws ip token claim r.device_id s)

abbrev pub with_token :
    World
    → Chance
    → ℕ
    → Option String
    → Option String
    → ProfileClaim
    → Server
    → Option String
    → Server
with_token w h ws ip claimed claim s none = refuse ws "Session token required" s
with_token w h ws ip claimed claim s (some token) =
    with_session w h ws ip claimed token claim (get_session_info token h.now s)

-- 'register', from the address `ip`.
unfoldable pub on_register :
    World
    → Chance
    → ℕ
    → Option String
    → Option String
    → Option String
    → ProfileClaim
    → Server
    → Server
on_register w h ws ip claimed token claim s =
    with_token w h ws ip claimed claim s (truthy (some (w.trim (or_else token ""))))

abbrev pub located : ℕ → Option LocationClaim → Client → Client
located now none c = c
located now (some l) c = record c {
  location = some (record {
    latitude = l.latitude;
    longitude = l.longitude;
    timestamp = or_else l.timestamp now;
    accuracy_meters = l.accuracy_meters;
    method = or_else (truthy l.method) "gps";
  });
}

abbrev pub widened : Option Radius → Client → Client
widened none c = c
widened (some r) c = record c { radius = r }

abbrev pub refresh_of : World → ℕ → Client → Server → Server
refresh_of w now c s = refresh_session w c.session_token now s

unfoldable pub on_update_location :
    World → Chance → String → Client → Option LocationClaim → Option Radius → Server → Server
on_update_location w h id c loc radius s = refresh_of w h.now c (
    announce w h
      (set_client id (record (widened radius (located h.now loc c)) { discovery_mode = geo }) s))

unfoldable pub on_request_lan_discovery : World → Chance → String → Client → Server → Server
on_request_lan_discovery w h id c s =
    refresh_of w h.now c (announce w h (set_client id (record c { discovery_mode = lan }) s))

unfoldable pub on_heartbeat : World → Chance → String → Client → Server → Server
on_heartbeat w h id c s = refresh_of w h.now c (set_client id (record c { is_alive = true }) s)

abbrev pub preview : Option String → String
preview none = "Nouveau message"
preview (some t) = text_of_chars (take 120 (chars t))

abbrev pub avatar_of : World → String → Client → String
avatar_of w from c =
    or_else (truthy (some c.profile.avatar))
      (w.avatar_url from (version_or_one (some c.profile.avatar_version)) 192)

abbrev pub chat_push :
    World → String → Client → Option String → Option String → Option String → Option String → Push
chat_push w from c text conv_id sender_name sender_avatar = record {
  kind = "message";
  title = or_else (truthy (or_text sender_name (truthy (some c.profile.name)))) "Message entrant";
  body = preview text;
  tag = or_else (truthy conv_id) from;
  conv_id = or_else (truthy conv_id) from;
  sender_avatar = or_else (truthy sender_avatar) (avatar_of w from c);
  from = from;
}

abbrev pub signal_push : World → String → Client → Push
signal_push w from c = record {
  kind = "webrtc";
  title = "Connexion entrante";
  body = "Tentative de connexion de " ⧺ or_else (truthy (some c.profile.name)) from;
  tag = from;
  conv_id = from;
  sender_avatar = avatar_of w from c;
  from = from;
}

abbrev pub recipient : Option String → Server → Option Client
recipient none s = none
recipient (some to) s = Dict.get to s.clients

-- To the recipient's socket where it is connected, else to its push services.
abbrev pub relay : World → Option String → ServerOut → Push → Server → Option Client → Server
relay w to out push s none = send_push_to_user w to push s
relay w to out push s (some c) = send_to c.ws out s

-- The identity of the sender is that of its session, whatever `from` says.
unfoldable pub on_chat :
    World
    → String
    → Client
    → (to text conv_id sender_name sender_avatar : Option String) → Server
    → Server
on_chat w from c to text conv_id sender_name sender_avatar s =
    relay w to (relayed_chat from text conv_id)
      (chat_push w from c text conv_id sender_name sender_avatar) s (recipient (truthy to) s)

unfoldable pub on_signal :
    World → String → Client → SignalKind → Option String → String → Server → Server
on_signal w from c kind to payload s =
    relay w to (relayed_signal kind from payload) (signal_push w from c) s (recipient (truthy to) s)

unfoldable pub includes : String → String → Bool
includes needle empty = starts_with empty needle
includes needle (c & t) = starts_with (c & t) needle || includes needle t

abbrev pub renamed : Option String → ServerProfile → ServerProfile
renamed none p = p
renamed (some name) p = record p { name = name }

abbrev pub versioned : Option ℕ → ServerProfile → ServerProfile
versioned none p = p
versioned (some v) p = record p { avatar_version = v }

abbrev pub default_avatar : World → String → ServerProfile → ServerProfile
default_avatar w id p = record p {
  avatar = w.avatar_url id (version_or_one (some p.avatar_version)) 192;
}

-- A custom avatar stays where the patch is absent; the replacement is made for the new version.
abbrev pub patched : World → String → AvatarPatch → ServerProfile → ServerProfile
patched w id cleared p = default_avatar w id p
patched w id (given url) p =
    if is_some (truthy (some url)) then record p { avatar = url } else default_avatar w id p
patched w id absent p =
    if not (is_some (truthy (some p.avatar))) || includes "i.pravatar.cc" p.avatar
    then default_avatar w id p
    else p

unfoldable pub on_profile_update :
    World → Chance → String → Client → Option String → Option ℕ → AvatarPatch → Server → Server
unfolding includes
on_profile_update w h id c name version patch s = broadcast_peer_updates w h (
    set_client id
      (record c {
        profile = patched w id patch (versioned version (renamed (truthy name) c.profile));
      })
      s)

-- The `switch` on the type, for a client that is registered.
abbrev pub dispatch : World → Chance → String → Client → ClientMessage → Server → Server
dispatch w h id c (update_location loc radius) s = on_update_location w h id c loc radius s
dispatch w h id c request_lan_discovery s = on_request_lan_discovery w h id c s
dispatch w h id c heartbeat s = on_heartbeat w h id c s
dispatch w h id c (chat from to text conv_id name avatar) s =
    on_chat w id c to text conv_id name avatar s
dispatch w h id c (signal kind from to payload) s = on_signal w id c kind to payload s
dispatch w h id c (profile_update name version patch) s =
    on_profile_update w h id c name version patch s
dispatch w h id c _ s = s

abbrev pub found : String → Option Client → Option (String × Client)
found id none = none
found id (some c) = some (id, c)

abbrev pub registered : Server → Option String → Option (String × Client)
registered s none = none
registered s (some id) = found id (Dict.get id s.clients)

abbrev pub from_registered :
    World → Chance → ℕ → ClientMessage → Server → Option (String × Client) → Server
from_registered w h ws m s none = close_socket ws none "" s
from_registered w h ws m s (some (id, c)) = dispatch w h id c m s

-- `message`; a socket that did not register, or whose client is gone, is closed.
unfoldable pub on_client_message :
    World → Chance → ℕ → Option String → ClientMessage → Server → Server
on_client_message w h ws ip not_json s = close_socket ws none "" s
on_client_message w h ws ip (register claimed token claim) s =
    on_register w h ws ip claimed token claim s
on_client_message w h ws ip m s =
    from_registered w h ws m s (registered s (truthy (client_id ws s)))

abbrev pub leave : World → Chance → Server → Option String → Server
leave w h s none = s
leave w h s (some id) = announce w h (record s { clients = Dict.delete id s.clients })

-- `close`: the client of this socket's session is deleted.
unfoldable pub on_close : World → Chance → ℕ → Server → Server
on_close w h ws s = leave w h (shut ws s) (truthy (client_id ws s))

abbrev pub revive : Server → Option (String × Client) → Server
revive s none = s
revive s (some (id, c)) = set_client id (record c { is_alive = true }) s

unfoldable pub on_pong : ℕ → Server → Server
on_pong ws s = revive s (registered s (truthy (client_id ws s)))
