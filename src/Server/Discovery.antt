-- ===== src/Server/Discovery.antt =====
-- Who is told of whom (src/server/server.js, lines 777-1002): `sendTo`, the quadtree, the public room of a
-- client and `broadcastPeerUpdates`.
pub mod Shuffle
pub mod Effects
pub mod Rooms
pub mod Listed
pub mod Sample
pub mod Fair
use nonetchat_web.Prelude.{
  ℕ, ◌+◌, ◌-◌, ◌*◌, String, Option, none, some, Bool, true, false, ◌&&◌, ◌||◌, not, List, [], ◌∷◌,
  ◌++◌, ◌==◌, leb, nat_eq, if◌then◌else◌, or_else, truthy, is_some, any, take, filter,
}
use Prim.Native.String.{◌++◌ as ◌⧺◌}
use nonetchat_web.Prelude.Dict
use nonetchat_web.Prelude.Dict.{Dict}
use nonetchat_web.Server.State.{
  Server, Client, Location, Radius, world, country, city, km, DiscoveryMode, geo, lan, GeoPoint,
  ListedPeer, Float, World, send_to, nearby_peers,
}
use nonetchat_web.Server.Discovery.Shuffle.{shuffle}

-- What one broadcast draws: the time, and the random numbers for each client, each below its argument.
pub record Chance : Type 0 where
  pub now : ℕ
  pub random : String → ℕ → ℕ

abbrev pub is_geo : DiscoveryMode → Bool
is_geo geo = true
is_geo lan = false

abbrev pub point_at : String → Client → Option Location → List GeoPoint
point_at id c none = []
point_at id c (some l) =
    if is_geo c.discovery_mode
    then record { x = l.longitude; y = l.latitude; client_id = id } ∷ []
    else []

unfoldable pub points : Dict Client → List GeoPoint
points [] = []
points ((id, c) ∷ cs) = point_at id c c.location ++ points cs

unfoldable pub rebuild_geo_tree : Server → Server
unfolding points
rebuild_geo_tree s = record s { geo_tree = points s.clients }

-- The wider the radius, the shorter the geohash.
unfoldable pub precision_of : ℕ → ℕ
precision_of radius =
    if leb radius 1
    then 7
    else (if leb radius 3
        then 6
        else (if leb radius 25 then 5 else (if leb radius 100 then 4 else 3)))

-- A precision in decimal: those in use are 3 to 7.
abbrev pub precision_text : ℕ → String
precision_text n =
    if nat_eq n 7
    then "7"
    else (if nat_eq n 6
        then "6"
        else (if nat_eq n 5 then "5" else (if nat_eq n 4 then "4" else "3")))

abbrev pub Room : Type 0
Room = String × String

abbrev pub default_room : Room
default_room = ("group:public:default", "Public")

abbrev pub country_room : Option String → Option String → Room
country_room none name = default_room
country_room (some code) name = ("group:country:" ⧺ code, or_else (truthy name) code)

abbrev pub city_room : Option String → Option String → Option String → Room
city_room (some code) (some town) name =
    ("group:city:" ⧺ (code ⧺ (":" ⧺ town)), or_else (truthy name) town)
city_room code town name = default_room

unfoldable pub km_room_id : World → ℕ → Location → String
unfolding precision_of
km_room_id w radius l =
    "group:km:p"
    ⧺ (precision_text (precision_of radius)
        ⧺ (":" ⧺ w.geohash l.latitude l.longitude (precision_of radius)))

abbrev pub km_room : World → ℕ → Option Location → Room
km_room w radius none = default_room
km_room w radius (some l) = (km_room_id w radius l, w.print_number radius ⧺ " km")

abbrev pub room_of : World → Client → Radius → Room
room_of w c world = ("group:public:world", "Monde")
room_of w c country = country_room (truthy c.country_code) c.country_name
room_of w c city = city_room (truthy c.country_code) (truthy c.normalized_city_name) c.city_name
room_of w c (km radius) = km_room w radius c.location

unfoldable pub get_public_room_info : World → Client → Room
unfolding km_room_id
get_public_room_info w c = room_of w c c.radius

abbrev pub entry : String → Client → Option Float → String → Option String → ListedPeer
entry id c distance label code = record {
  peer_id = id;
  distance_km = distance;
  distance_label = label;
  profile = c.profile;
  country_code = code;
}

abbrev pub is_listed : String → List ListedPeer → Bool
is_listed id ps = any (λ (q : ListedPeer). q.peer_id == id) ps

abbrev pub add_listed : List ListedPeer → Option ListedPeer → List ListedPeer
add_listed ps none = ps
add_listed ps (some q) = ps ++ q ∷ []

-- Neither the client itself nor who is listed already; `choose` lists another one or not.
unfoldable pub collect :
    String
    → (String → Client → Option ListedPeer)
    → List (String × Client)
    → List ListedPeer
    → List ListedPeer
collect self choose [] ps = ps
collect self choose ((id, c) ∷ cs) ps =
    let skipped = collect self choose cs ps in
    let next = collect self choose cs (add_listed ps (choose id c)) in
    if id == self || is_listed id ps then skipped else next

abbrev pub same_text : Option String → Option String → Bool
same_text (some a) (some b) = a == b
same_text a b = false

abbrev pub when : Bool → ListedPeer → Option ListedPeer
when b q = if b then some q else none

-- The same public address.
abbrev pub lan_entry : Client → String → Client → Option ListedPeer
lan_entry me id c = when (same_text (truthy me.ip) c.ip) (entry id c none "LAN" c.country_code)

abbrev pub country_entry : Client → String → Client → Option ListedPeer
country_entry me id c =
    when (same_text (truthy me.country_code) c.country_code)
      (entry id c none "Country" c.country_code)

abbrev pub city_entry : Client → String → Client → Option ListedPeer
city_entry me id c =
    when
      (same_text (truthy me.country_code) c.country_code
        && same_text (truthy me.normalized_city_name) c.normalized_city_name)
      (entry id c none "City" c.country_code)

abbrev pub max_location_age_ms : ℕ
max_location_age_ms = 30 * 60 * 1000

abbrev pub is_recent : ℕ → Location → Bool
is_recent now l = leb (now - l.timestamp) max_location_age_ms

abbrev pub measured : String → Client → Option (Float × String) → Option ListedPeer
measured id c none = none
measured id c (some (distance, label)) = some (entry id c (some distance) label c.country_code)

abbrev pub reach_entry :
    World → ℕ → Location → ℕ → String → Client → Option Location → Option ListedPeer
reach_entry w now mine radius id c none = none
reach_entry w now mine radius id c (some l) =
    if is_recent now l then measured id c (w.reach mine radius l) else none

abbrev pub with_client : String → Option Client → List (String × Client) → List (String × Client)
with_client id none rest = rest
with_client id (some c) rest = (id, c) ∷ rest

-- The candidates that are registered.
unfoldable pub resolve : Dict Client → List String → List (String × Client)
resolve m [] = []
resolve m (id ∷ ids) = with_client id (Dict.get id m) (resolve m ids)

abbrev pub near : World → ℕ → Server → String → ℕ → Location → List ListedPeer → List ListedPeer
near w now s self radius mine ps =
    if is_recent now mine
    then collect self (λ id c. reach_entry w now mine radius id c c.location)
        (resolve s.clients (w.retrieve mine radius s.geo_tree)) ps
    else ps

abbrev pub by_place :
    World → ℕ → Server → String → Client → ℕ → Option Location → List ListedPeer → List ListedPeer
by_place w now s self me radius none ps = ps
by_place w now s self me radius (some l) ps =
    if is_geo me.discovery_mode then near w now s self radius l ps else ps

-- By the client's radius, where what it needs is known; `world` is listed on its own.
abbrev pub by_radius :
    World → ℕ → Server → String → Client → Radius → List ListedPeer → List ListedPeer
by_radius w now s self me world ps = ps
by_radius w now s self me country ps = collect self (country_entry me) s.clients ps
by_radius w now s self me city ps = collect self (city_entry me) s.clients ps
by_radius w now s self me (km radius) ps = by_place w now s self me radius me.location ps

unfoldable pub nearby_of : World → ℕ → Server → String → Client → List ListedPeer
unfolding collect resolve
nearby_of w now s self me =
    by_radius w now s self me me.radius (collect self (lan_entry me) s.clients [])

abbrev pub sample_size : ℕ
sample_size = 150

unfoldable pub world_entries : List (String × Client) → List ListedPeer
world_entries [] = []
world_entries ((id, c) ∷ cs) = entry id c none "Monde" none ∷ world_entries cs

-- A random sample of the others.
unfoldable pub world_sample : (ℕ → ℕ) → Server → String → List ListedPeer
unfolding world_entries resolve shuffle Dict.keys
world_sample random s self = world_entries (
    resolve s.clients
      (take sample_size (shuffle random (filter (λ id. not (id == self)) (Dict.keys s.clients)))))

abbrev pub listing : World → Chance → Server → String → Client → Radius → List ListedPeer
listing w h s id c world = world_sample (h.random id) s id
listing w h s id c _ = nearby_of w h.now s id c

unfoldable pub peers_of : World → Chance → Server → String → Client → List ListedPeer
unfolding world_sample nearby_of
peers_of w h s id c = listing w h s id c c.radius

-- Each client is sent its own list.
unfoldable pub broadcast_to : World → Chance → List (String × Client) → Server → Server
broadcast_to w h [] s = s
broadcast_to w h ((id, c) ∷ cs) s =
    let (room_id, room_label) = get_public_room_info w c in
    broadcast_to w h cs
      (send_to c.ws (nearby_peers (peers_of w h s id c) room_id room_label h.now) s)

unfoldable pub broadcast_peer_updates : World → Chance → Server → Server
unfolding broadcast_to
broadcast_peer_updates w h s = broadcast_to w h s.clients s
