-- ===== src/Tests/Room.antt =====
-- Examples for the public room.
use nonetchat_web.Prelude.{◌≡◌, refl, ◌⊎◌, true, false, ◌||◌, ◌==◌, ltb, List, [], ◌∷◌, arith}
use nonetchat_web.Prelude.Dict
use nonetchat_web.Prelude.StrSet
use nonetchat_web.Peer.Room.{
  on_public_message, broadcast_to_public_room, new_packet, is_accepted, displays,
}
use nonetchat_web.Peer.Room.Once.{
  RoomEvent, incoming, spoken, take_part_all, on_public_message_once, broadcast_is_not_shown_again,
}
use nonetchat_web.Peer.Room.Forwarding.{Got, get-on_public_message}
use nonetchat_web.Tests.{joined, a_packet, a_draw}

abbrev meanwhile : List RoomEvent
meanwhile =
    incoming "c" (record a_packet { id = "p2" })
    ∷ spoken "well" (record a_draw { uuid = "u9" })
    ∷ []

on_public_message_once_example :
    let t = take_part_all meanwhile (on_public_message "b" a_packet joined) in
    on_public_message "c" (record a_packet { ttl = 5 }) t ≡ t
unfolding StrSet.mem is_accepted displays
on_public_message_once_example =
    on_public_message_once "b" "c" a_packet 5 meanwhile joined refl (ground arith)

get-on_public_message_example :
    (Dict.get "c" (on_public_message "b" a_packet joined).public_data_channels
      ≡ Dict.get "c" joined.public_data_channels)
    ⊎ ((ltb 0 3 ≡ true)
        × (("c" == "b" || "c" == "z") ≡ false)
        × (StrSet.mem "c" joined.public_neighbors ≡ true)
        × Got "c" (record a_packet { ttl = 2 }) joined (on_public_message "b" a_packet joined))
unfolding StrSet.mem
get-on_public_message_example = get-on_public_message "c" "b" a_packet joined (refl, (refl, tt))

broadcast_is_not_shown_again_example :
    let t = take_part_all meanwhile (broadcast_to_public_room "hi" a_draw joined) in
    on_public_message "b" (record (new_packet "group:km:p5:u09" "hi" a_draw joined) { ttl = 4 }) t
    ≡ t
unfolding StrSet.mem
broadcast_is_not_shown_again_example =
    broadcast_is_not_shown_again "hi" "group:km:p5:u09" "b" 4 a_draw meanwhile joined refl refl
      (ground arith)
