-- ===== src/Peer/Room.antt =====
-- The public room (src/services/PeerService.ts, lines 683-735, 875-959): messages flood from neighbour to
-- neighbour over the public channels.
pub mod Visibility
pub mod Once
pub mod Forwarding
use nonetchat_web.Prelude.{
  ℕ, ◌-◌, String, Bool, true, false, ◌&&◌, ◌||◌, not, Option, none, some, List, [], ◌∷◌, ◌++◌, ◌==◌,
  ltb, if◌then◌else◌, starts_with, truthy, length, drop,
}
use nonetchat_web.Prelude.Dict
use nonetchat_web.Prelude.StrSet
use Prim.Native.Char.{Char}
use nonetchat_web.Prelude.TextParts.{
  chars, text_of_chars, split, Signed, signed_lt, parse_int_after_first,
}
use nonetchat_web.Peer.State.{Peer, Channel, Packet, public_frame, public_message, is_open, Draw}
use nonetchat_web.Peer.Links.{is_blocked}

-- The precision and the geohash of a room `group:km:p<precision>:<geohash>`.
abbrev pub kilometre_parts : List (List Char) → Option (Option Signed × String)
kilometre_parts (a ∷ b ∷ precision ∷ geohash ∷ []) =
    some (parse_int_after_first precision, text_of_chars geohash)
kilometre_parts _ = none

abbrev pub km_prefix : String
km_prefix = "group:km:"

unfoldable pub kilometre_room : String → Option (Option Signed × String)
unfolding split
kilometre_room room =
    if starts_with room km_prefix then kilometre_parts (split 58 (chars room)) else none

-- `<` on two numbers, of which none is less than `NaN` or greater.
abbrev pub number_lt : Option Signed → Option Signed → Bool
number_lt (some a) (some b) = signed_lt a b
number_lt _ _ = false

-- A wider room sees what is said in a narrower one inside it.
abbrev pub covers : Option (Option Signed × String) → Option (Option Signed × String) → Bool
covers (some (my_precision, my_geohash)) (some (precision, geohash)) =
    number_lt my_precision precision && starts_with geohash my_geohash
covers _ _ = false

-- Whether a message of one room is shown in another (`shouldDisplay`).
unfoldable pub sees : String → String → Bool
unfolding kilometre_room
sees my_room room = my_room == room || covers (kilometre_room my_room) (kilometre_room room)

unfoldable pub displays : Option String → String → Bool
unfolding sees
displays none room = false
displays (some my_room) room = sees my_room room

abbrev pub seen_limit : ℕ
seen_limit = 2048

-- The oldest ids go.
unfoldable pub trim_seen_public : List String → List String
trim_seen_public seen = drop (length seen - seen_limit) seen

abbrev pub put_frame : String → Packet → Channel → Peer → Peer
put_frame n m dc s = record s {
  public_data_channels =
      Dict.set n (record dc { frames = dc.frames ++ public_frame m ∷ [] }) s.public_data_channels;
}

abbrev pub attempt : String → Packet → Channel → Peer → (full : Bool) → Bool × Peer
attempt n m dc s true = (true, s)
attempt n m dc s false = (false, put_frame n m dc s)

-- Sends on a channel, and says whether `send` threw.
abbrev pub try_send : String → Packet → Option Channel → Peer → Bool × Peer
try_send n m none s = (false, s)
try_send n m (some dc) s = if is_open dc.ready_state then attempt n m dc s dc.full else (false, s)

abbrev pub try_neighbor : String → Packet → Peer → Bool × Peer
try_neighbor n m s = try_send n m (Dict.get n s.public_data_channels) s

-- Neither to whom it came from nor to whom it was written by; the first `send` that throws ends it.
unfoldable pub retransmit : String → Packet → List String → Peer → Peer
retransmit from m [] s = s
retransmit from m (n ∷ ns) s =
    if n == from || n == m.origin
    then retransmit from m ns s
    else let r = try_neighbor n m s in if r.0 then r.1 else retransmit from m ns r.1

-- The guards of the handler of public messages, in its order.
unfoldable pub is_accepted : String → Packet → Peer → Bool
unfolding displays
is_accepted from m s =
    not (is_blocked from s)
    && (displays s.public_room_id m.room_id
        && (not (is_blocked m.origin s) && not (StrSet.mem m.id s.seen_public_messages)))

abbrev pub note_message : Packet → Peer → Peer
note_message m s = record s {
  seen_public_messages = trim_seen_public (StrSet.add m.id s.seen_public_messages);
  events = s.events ++ public_message m ∷ [];
}

abbrev pub pass_on : String → Packet → Peer → Peer
pass_on from m s =
    if ltb 0 m.ttl then retransmit from (record m { ttl = m.ttl - 1 }) s.public_neighbors s else s

-- `onmessage` of the public channel to the peer `from`.
unfoldable pub on_public_message : String → Packet → Peer → Peer
unfolding is_accepted retransmit trim_seen_public
on_public_message from m s = if is_accepted from m s then pass_on from m (note_message m s) else s

-- Every neighbour is tried.
unfoldable pub send_all : Packet → List String → Peer → Peer
send_all m [] s = s
send_all m (n ∷ ns) s = send_all m ns (try_neighbor n m s).1

abbrev pub first_ttl : ℕ
first_ttl = 6

abbrev pub new_packet : String → String → Draw → Peer → Packet
new_packet room content d s = record {
  id = d.uuid;
  room_id = room;
  origin = s.my_id;
  ts = d.now;
  ttl = first_ttl;
  content = content;
}

abbrev broadcast_in : Option String → String → Draw → Peer → Peer
broadcast_in none content d s = s
broadcast_in (some room) content d s =
    let m = new_packet room content d s in
    send_all m s.public_neighbors (record s {
      seen_public_messages = StrSet.add m.id s.seen_public_messages;
      events = s.events ++ public_message m ∷ [];
    })

unfoldable pub broadcast_to_public_room : String → Draw → Peer → Peer
unfolding send_all
broadcast_to_public_room content d s = broadcast_in (truthy s.public_room_id) content d s
