-- ===== src/Peer/Mesh.antt =====
-- The neighbours of a peer in its public room (src/services/PeerService.ts, lines 454-622, 625-668 and
-- 1590-1595). `publicPeerDistance` is never written in the code, so it is empty and the peers are
-- always ordered by their hashes.
pub mod Neighbors
pub mod Bridges
use nonetchat_web.Prelude.{
  ℕ, zero, suc, ◌+◌, ◌-◌, ◌*◌, ◌/◌, ◌%◌, String, Bool, true, false, ◌&&◌, ◌||◌, not, Option, none,
  some, List, [], ◌∷◌, ◌++◌, ◌==◌, ltb, leb, nat_eq, if◌then◌else◌, length, take, filter, any,
  get_elem?, map, or_else,
}
use nonetchat_web.Prelude.Dict
use nonetchat_web.Prelude.Dict.{Dict}
use nonetchat_web.Prelude.StrSet
use nonetchat_web.Prelude.Sort.{sort_by, ascending}
use nonetchat_web.Prelude.TextParts.{chars, units, bit_xor}
use nonetchat_web.Peer.State.{
  Peer, NearbyPeer, Event, room_update, nearby_peers, public_peers_change, nearby_peer_detected,
}
use nonetchat_web.Peer.Links.{is_blocked, auto, create_peer_connection, close_peer_connection}

-- The last unit is hashed first. A step stays below 2 ^ 38, so the numbers of JavaScript hold it, and
-- `^` and `>>>` take it modulo 2 ^ 32.
unfoldable pub hash_units : List ℕ → ℕ
unfolding bit_xor
hash_units [] = 5381
hash_units (u ∷ us) = bit_xor 32 (hash_units us * 33) u

unfoldable pub str_hash : String → ℕ
unfolding hash_units units
str_hash s = hash_units (units (chars s))

abbrev pub k_neighbors : ℕ
k_neighbors = 7

abbrev pub in_ring : List String → List String
in_ring peers = sort_by (ascending str_hash) peers

unfoldable pub index_of : String → List String → Option ℕ
index_of k [] = none
index_of k (x ∷ xs) =
    if x == k then some 0 else (elim (index_of k xs) [ none ↦ none | some i ↦ some (suc i) ])

abbrev pub add_at : List String → ℕ → List String → List String
add_at ring i s = elim (get_elem? ring i) [ none ↦ s | some p ↦ StrSet.add p s ]

-- The peers at the distances `i`, ..., `i + left - 1` on both sides of `me`.
unfoldable pub both_sides : List String → (me i left : ℕ) → List String → List String
both_sides ring me i zero s = s
both_sides ring me i (suc left) s =
    let n = length ring in
    both_sides ring me (i + 1) left (add_at ring ((me + n - i) % n) (add_at ring ((me + i) % n) s))

abbrev pub neighbors_at : String → List String → Option ℕ → List String
neighbors_at my_id ring none = []
neighbors_at my_id ring (some me) =
    if leb (length ring) k_neighbors
    then StrSet.of_list (filter (λ p. not (p == my_id)) ring)
    else both_sides ring me 1 (k_neighbors / 2) []

unfoldable pub new_neighbors : Peer → List String
unfolding index_of both_sides
new_neighbors s =
    let ring = in_ring s.public_peers in neighbors_at s.my_id ring (index_of s.my_id ring)

-- `id` and the numbers after it are the identities of the channels that are created.
unfoldable pub connect_all : List String → ℕ → Peer → Peer
connect_all [] id s = s
connect_all (p ∷ ps) id s = connect_all ps (id + 2) (
    if p == s.my_id || Dict.has p s.peer_connections then s else create_peer_connection p auto id s)

abbrev pub max_public_bridges : ℕ
max_public_bridges = 3

abbrev pub has_public : String → Peer → Bool
has_public p s = Dict.has p s.public_data_channels || Dict.has p s.public_ctrl_channels

-- Neighbours and peers with a chat channel stay connected.
abbrev pub is_kept : List String → Peer → String → Bool
is_kept neighbors s p = StrSet.mem p neighbors || Dict.has p s.data_channels

abbrev pub is_bridge : List String → Peer → String → Bool
is_bridge neighbors s p =
    not (is_kept neighbors s p) && (has_public p s && StrSet.mem p s.public_peers)

abbrev pub is_stray : List String → Peer → String → Bool
is_stray neighbors s p =
    not (is_kept neighbors s p) && not (has_public p s && StrSet.mem p s.public_peers)

abbrev pub bridges : List String → Peer → List String
bridges neighbors s =
    sort_by (ascending str_hash) (filter (is_bridge neighbors s) (Dict.keys s.peer_connections))

abbrev pub kept_bridges : List String → Peer → List String
kept_bridges neighbors s = StrSet.of_list (take max_public_bridges (bridges neighbors s))

abbrev pub to_close : List String → Peer → List String
to_close neighbors s =
    filter (is_stray neighbors s) (Dict.keys s.peer_connections)
    ++ filter (λ p. not (StrSet.mem p (kept_bridges neighbors s))) (bridges neighbors s)

unfoldable pub close_all : List String → Peer → Peer
close_all [] s = s
close_all (p ∷ ps) s = close_all ps (close_peer_connection p s)

-- Where this peer is not in its own list, the neighbours are cleared and no connection changes.
abbrev update_with : List String → ℕ → Option ℕ → Peer → Peer
update_with neighbors id none s = record s { public_neighbors = [] }
update_with neighbors id (some me) s =
    let s₁ = connect_all neighbors id s in
    record (close_all (to_close neighbors s₁) s₁) { public_neighbors = neighbors }

unfoldable pub update_public_neighbors : ℕ → Peer → Peer
unfolding index_of connect_all close_all new_neighbors
update_public_neighbors id s =
    update_with (new_neighbors s) id (index_of s.my_id (in_ring s.public_peers)) s

abbrev pub nearby_notification_cooldown : ℕ
nearby_notification_cooldown = 15 * 60 * 1000

unfoldable pub prune_nearby_notification_history : ℕ → Dict ℕ → Dict ℕ
prune_nearby_notification_history now [] = []
prune_nearby_notification_history now ((k, ts) ∷ d) =
    let rest = prune_nearby_notification_history now d in
    if ltb (ts + nearby_notification_cooldown) now then rest else (k, ts) ∷ rest

-- `last && now - last < cooldown`
abbrev pub is_recent : ℕ → Option ℕ → Bool
is_recent now none = false
is_recent now (some last) = not (nat_eq last 0) && ltb now (last + nearby_notification_cooldown)

abbrev pub skips : ℕ → NearbyPeer → Peer → Bool
skips now p s =
    p.peer_id == ""
    || p.peer_id == s.my_id
    || is_blocked p.peer_id s
    || is_recent now (Dict.get p.peer_id s.nearby_notification_history)

abbrev pub detect_one : ℕ → NearbyPeer → Peer → Peer
detect_one now p s = record s {
  nearby_notification_history = Dict.set p.peer_id now s.nearby_notification_history;
  events = s.events ++ nearby_peer_detected p ∷ [];
}

unfoldable pub detect_each : ℕ → List NearbyPeer → Peer → Peer
detect_each now [] s = s
detect_each now (p ∷ ps) s = detect_each now ps (if skips now p s then s else detect_one now p s)

unfoldable pub emit_nearby_peer_detected : ℕ → List NearbyPeer → Peer → Peer
unfolding prune_nearby_notification_history detect_each
emit_nearby_peer_detected now ps s = detect_each now ps (record s {
  nearby_notification_history = prune_nearby_notification_history now s.nearby_notification_history;
})

abbrev pub world_room : String
world_room = "group:public:world"

abbrev pub is_in_room : String → Option String → Bool
is_in_room room none = false
is_in_room room (some r) = room == r

abbrev pub emit_event : Event → Peer → Peer
emit_event e s = record s { events = s.events ++ e ∷ [] }

-- `new Map(allPeers.map(p => [p.peerId, now]))`
unfoldable pub seen_now : ℕ → List NearbyPeer → Dict ℕ → Dict ℕ
seen_now now [] d = d
seen_now now (p ∷ ps) d = seen_now now ps (Dict.set p.peer_id now d)

-- Another room starts with no peers and no messages seen.
abbrev pub enter : String → Peer → Peer
enter room s =
    if is_in_room room s.public_room_id
    then s
    else record s { public_room_id = some room; public_peers = []; seen_public_messages = [] }

abbrev pub allowed : List NearbyPeer → Peer → List NearbyPeer
allowed ps s = filter (λ p. not (is_blocked p.peer_id s)) ps

abbrev pub list_peers : ℕ → List NearbyPeer → Peer → Peer
list_peers now all s = record s {
  last_seen = seen_now now all [];
  public_peers = StrSet.add s.my_id (StrSet.of_list (map (λ p. p.peer_id) all));
}

-- The peers that are new in the list are told of, except right after a change of the room.
abbrev pub tell_new : ℕ → List NearbyPeer → (new switched : Bool) → Peer → Peer
tell_new now ps true false s = emit_nearby_peer_detected now ps s
tell_new now ps _ _ s = s

abbrev pub is_nonempty {ℓ} : {A : Type ℓ} → List A → Bool
is_nonempty [] = false
is_nonempty (x ∷ xs) = true

-- The 'nearby-peers' message of the signalling server.
unfoldable pub on_nearby_peers : String → List NearbyPeer → ℕ → ℕ → Peer → Peer
unfolding seen_now update_public_neighbors emit_nearby_peer_detected
on_nearby_peers room ps now id s =
    let s₀ = emit_event (room_update room) s in
    if room == world_room
    then emit_event (nearby_peers ps) s₀
    else let all = allowed ps s in
      let new = filter (λ p. not (StrSet.mem p.peer_id s.public_peers)) all in
      let s₁ = update_public_neighbors id (list_peers now all (enter room s₀)) in
      tell_new now new (is_nonempty new) (not (is_in_room room s.public_room_id))
        (emit_event (nearby_peers all) (emit_event (public_peers_change s₁.public_peers) s₁))
