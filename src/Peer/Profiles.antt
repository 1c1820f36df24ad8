-- ===== src/Peer/Profiles.antt =====
-- How a peer tells others of its profile (src/services/PeerService.ts, lines 976-990, 993-1007, 1033-1036
-- and 1233-1297).
use nonetchat_web.Prelude.{
  ℕ, ◌+◌, String, Bool, false, Option, none, some, List, [], ◌∷◌, ◌++◌, ltb, nat_eq, not,
  if◌then◌else◌, or_else, truthy, is_some,
}
use nonetchat_web.Prelude.Dict
use nonetchat_web.Prelude.Dict.{Dict}
use nonetchat_web.Protocol.{PeerMessage, profile, profile_update, profile_of}
use nonetchat_web.Peer.State.{
  Peer, Channel, Frame, peer_frame, Lite, lite_frame, Own, Platform, Draw, is_open, ServerMessage,
  profile_to_server,
}
use nonetchat_web.Peer.Outbox.{enqueue_message, max_profile_wire}
use nonetchat_web.Peer.Links.{to_server}

-- `version || 1`
abbrev pub version_or_one : Option ℕ → ℕ
version_or_one none = 1
version_or_one (some v) = if nat_eq v 0 then 1 else v

unfoldable pub fallback_avatar_url : Own → String → Option ℕ → ℕ → String
fallback_avatar_url o id version size = o.avatar_url size id (version_or_one version)

abbrev pub with_peer_frame : Frame → Channel → Channel
with_peer_frame f c = record c { frames = c.frames ++ f ∷ [] }

-- `send` on a channel of a map; where it throws, the handler ends there.
abbrev pub send_frame : String → Frame → Channel → Peer → Peer
send_frame peer_id f c s =
    if c.full
    then s
    else record s { data_channels = Dict.set peer_id (with_peer_frame f c) s.data_channels }

abbrev pub profile_message : Own → PeerMessage
profile_message o = record { kind = profile; payload = profile_of o.profile; message_id = none }

abbrev advertise_on : Own → String → Draw → Peer → Option Channel → Peer
advertise_on o peer_id d s none = enqueue_message peer_id (profile_message o) none false d s
advertise_on o peer_id d s (some c) =
    if is_open c.ready_state
    then send_frame peer_id (peer_frame (profile_message o)) c s
    else enqueue_message peer_id (profile_message o) none false d s

-- A profile whose message is too long is not advertised.
unfoldable pub advertise_profile : Platform → Own → String → Draw → Peer → Peer
unfolding enqueue_message
advertise_profile p o peer_id d s =
    if ltb max_profile_wire (p.wire_length (profile_message o))
    then s
    else advertise_on o peer_id d s (Dict.get peer_id s.data_channels)

abbrev lite_of : Own → Peer → Lite
lite_of o s = record {
  id = s.my_id;
  display_name = or_else o.profile.display_name "";
  age = o.profile.age;
  gender = o.profile.gender;
  avatar_version = or_else o.profile.avatar_version 1;
}

-- `onopen` of the public control channel; where `send` throws, nothing is sent.
abbrev ctrl_opened : Own → String → Peer → Option Channel → Peer
ctrl_opened o peer_id s none = s
ctrl_opened o peer_id s (some c) = if c.full then s else record s {
  public_ctrl_channels =
      Dict.set peer_id (with_peer_frame (lite_frame (lite_of o s)) c) s.public_ctrl_channels;
}

unfoldable pub on_ctrl_open : Own → String → Peer → Peer
on_ctrl_open o peer_id s = ctrl_opened o peer_id s (Dict.get peer_id s.public_ctrl_channels)

-- Sends to every open channel in turn, until a `send` throws.
unfoldable pub send_lite : Frame → List (String × Channel) → Dict Channel → Dict Channel
send_lite f [] chans = chans
send_lite f ((k, c) ∷ cs) chans =
    let sent = send_lite f cs (Dict.set k (with_peer_frame f c) chans) in
    let passed = send_lite f cs chans in
    if is_open c.ready_state then (if c.full then chans else sent) else passed

abbrev update_message : Own → PeerMessage
update_message o = record {
  kind = profile_update;
  payload = profile_of o.profile;
  message_id = none;
}

abbrev update_one : Own → String → Channel → Draw → Peer → Peer
update_one o k c d s =
    if is_open c.ready_state
    then send_frame k (peer_frame (update_message o)) c s
    else enqueue_message k (update_message o) none false d s

abbrev throws : Channel → Bool
throws c = if is_open c.ready_state then c.full else false

-- The channels are walked in the order in which they were set up; a `send` that throws ends the walk.
unfoldable pub update_all : Own → (ℕ → Draw) → ℕ → List (String × Channel) → Peer → Peer
update_all o draws n [] s = s
update_all o draws n ((k, c) ∷ cs) s =
    let rest = update_all o draws (n + 1) cs (update_one o k c (draws n) s) in
    if throws c then s else rest

abbrev server_message : Own → ServerMessage
server_message o =
    profile_to_server (or_else (truthy o.profile.display_name) "Utilisateur")
      (version_or_one o.profile.avatar_version) (not (is_some (truthy o.profile.avatar_hash)))

unfoldable pub broadcast_profile_update : Platform → Own → (ℕ → Draw) → Peer → Peer
unfolding send_lite update_all enqueue_message
broadcast_profile_update p o draws s =
    let told = to_server (server_message o) s in
    let lites = record told {
      public_ctrl_channels =
          send_lite (lite_frame (lite_of o s)) s.public_ctrl_channels s.public_ctrl_channels;
    } in
    if ltb max_profile_wire (p.wire_length (update_message o))
    then lites
    else update_all o draws 0 s.data_channels lites
