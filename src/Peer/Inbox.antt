-- ===== src/Peer/Inbox.antt =====
-- What a peer does with a frame of the chat channel (src/services/PeerService.ts, lines 991-1007, 1045-1225
-- and 1508-1518), with `decryptMessage` of src/services/CryptoService.ts.
-- A handler runs to its end: what another event does at one of its `await`s is not modelled. A payload
-- of another shape than the code of its kind reads is left out, and so are texts that are not JSON.
pub mod Exchange
use nonetchat_web.Prelude.{
  ℕ, String, Bool, true, false, Option, none, some, List, [], ◌∷◌, ◌++◌, ◌==◌, ltb, if◌then◌else◌,
  or_else, truthy, is_some, take, drop,
}
use Prim.Native.String.{count}
use nonetchat_web.Prelude.Dict
use nonetchat_web.Prelude.Dict.{Dict}
use nonetchat_web.Protocol.{
  PeerMessage, MessageKind, Payload, PublicProfile, profile, profile_update, chat_message,
  key_exchange, file_start, file_end, message_delivered, message_read, avatar_request, avatar_thumb,
  reaction, message_error, null, sealed, public_key, profile_of, hash_of, thumb_of, reaction_of,
  error_of,
}
use nonetchat_web.Store.Types.{Status}
use nonetchat_web.Store.Exec.{Result, ok, err}
use nonetchat_web.Store.Messages.{update_message_status, update_conversation_participant}
use nonetchat_web.Store.Reactions.{toggle_message_reaction}
use nonetchat_web.Peer.State.{
  Peer, PeerProfileCache, Own, Platform, Draw, Lite, FileMeta, Event, peer_joined, received,
  chat_received, decrypt_failed, delivered, read, reaction_received, outgoing_message_error,
  file_chunk, file_transfer_error, file_started, profile_received,
}
use nonetchat_web.Peer.Outbox.{send_to_peer, with_idb, emit, max_profile_wire}
use nonetchat_web.Peer.Links.{is_blocked}
use nonetchat_web.Peer.Flush.{flush_queue}
use nonetchat_web.Peer.Profiles.{fallback_avatar_url, advertise_profile}

-- `void this.sendToPeer(peerId, message)`: what it gives or throws is dropped.
abbrev pub post : Platform → String → PeerMessage → Draw → Peer → Peer
post p peer_id m d s = (send_to_peer p peer_id m false none d s).1

unfoldable pub send_message_delivered_ack : Platform → String → String → Draw → Peer → Peer
send_message_delivered_ack p peer_id id =
    post p peer_id (record { kind = message_delivered; payload = null; message_id = some id })

unfoldable pub send_message_read_ack : Platform → String → String → Draw → Peer → Peer
send_message_read_ack p peer_id id =
    post p peer_id (record { kind = message_read; payload = null; message_id = some id })

unfoldable pub send_reaction : Platform → String → String → String → Draw → Peer → Peer
send_reaction p peer_id id emoji =
    post p peer_id (record { kind = reaction; payload = reaction_of id emoji; message_id = none })

-- `onopen`
unfoldable pub on_open : Platform → Own → String → Draw → Peer → Peer
on_open p o peer_id =
    post p peer_id
      (record { kind = key_exchange; payload = public_key o.public_key; message_id = none })

abbrev open_with : Platform → Payload → Option String → Option String
open_with p (sealed iv c) (some key) = p.decrypt key iv c
open_with p payload key = none

-- `none` where it throws: no shared secret, or a text that does not decrypt under it.
unfoldable pub decrypt_message : Platform → String → Payload → Peer → Option String
decrypt_message p peer_id payload s = open_with p payload (Dict.get peer_id s.shared_secrets)

-- The id of a file's message is written in 36 bytes.
abbrev pub id_bytes : ℕ
id_bytes = 36

unfoldable pub on_bytes : (List ℕ → String) → String → List ℕ → Peer → Peer
on_bytes decode peer_id bytes s =
    if is_blocked peer_id s
    then s
    else emit (file_chunk peer_id (decode (take id_bytes bytes)) (drop id_bytes bytes)) s

-- 'key-exchange': what waited goes out on the secure channel, then the profile.
abbrev exchanged : Platform → Own → String → (ℕ → Draw) → Draw → Peer → Option String → Peer
exchanged p o peer_id draws d s none = s
exchanged p o peer_id draws d s (some secret) = advertise_profile p o peer_id d (
    flush_queue p peer_id draws (
      emit (peer_joined peer_id)
        (record s { shared_secrets = Dict.set peer_id secret s.shared_secrets })))

unfoldable pub on_key_exchange : Platform → Own → String → (ℕ → Draw) → Draw → String → Peer → Peer
on_key_exchange p o peer_id draws d key s = exchanged p o peer_id draws d s (o.derive key)

abbrev pub meta_of : String → Peer → PeerProfileCache
meta_of peer_id s =
    or_else (Dict.get peer_id s.peers_meta) (record { profile = none; avatar_thumb = none })

abbrev pub set_meta : String → PeerProfileCache → Peer → Peer
set_meta peer_id e s = record s { peers_meta = Dict.set peer_id e s.peers_meta }

abbrev ask : String → PeerMessage
ask h = record { kind = avatar_request; payload = hash_of h; message_id = none }

-- The thumbnail is asked for where the profile has an avatar and none is there.
abbrev request_avatar : Platform → String → Draw → Option String → Option String → Peer → Peer
request_avatar p peer_id d (some h) none s = post p peer_id (ask h) d s
request_avatar p peer_id d hash thumb s = s

-- 'profile' and 'profile-update'; the write of the conversation is not waited for and may fail.
unfoldable pub on_profile :
    Platform → Own → String → MessageKind → PublicProfile → Draw → Peer → Peer
on_profile p o peer_id kind q d s =
    let thumb = truthy (meta_of peer_id s).avatar_thumb in
    let avatar =
      or_else thumb (fallback_avatar_url o (or_else q.id peer_id) q.avatar_version 150) in
    let kept = set_meta peer_id (record (meta_of peer_id s) { profile = some q }) s in
    let asked = request_avatar p peer_id d (truthy q.avatar_hash) thumb kept in
    with_idb
      (update_conversation_participant peer_id (or_else q.display_name "") avatar q.age q.gender)
      (emit (profile_received peer_id kind q avatar) asked) (λ _ t. t)

abbrev same_hash : Option String → String → Bool
same_hash none h = false
same_hash (some g) h = g == h

abbrev thumb_message : Own → String → String → PeerMessage
thumb_message o hash url = record {
  kind = avatar_thumb;
  payload = thumb_of hash url (or_else (truthy o.profile.avatar_mime) "image/webp");
  message_id = none;
}

abbrev answer_avatar : Platform → Own → String → String → Draw → Peer → Option String → Peer
answer_avatar p o peer_id hash d s none = s
answer_avatar p o peer_id hash d s (some url) =
    if ltb max_profile_wire (count url) then s else post p peer_id (thumb_message o hash url) d s

-- 'avatar-request'
unfoldable pub on_avatar_request : Platform → Own → String → String → Draw → Peer → Peer
on_avatar_request p o peer_id hash d s =
    if same_hash o.profile.avatar_hash hash
    then answer_avatar p o peer_id hash d s (
        truthy (
          o.tiny_avatar
            (fallback_avatar_url o (or_else o.profile.id s.my_id) o.profile.avatar_version 96)))
    else s

abbrev apply_thumb : String → String → String → Peer → Option PublicProfile → Peer
apply_thumb peer_id hash url s none = s
apply_thumb peer_id hash url s (some q) =
    if same_hash q.avatar_hash hash
    then emit (profile_received peer_id profile_update q url)
        (set_meta peer_id (record (meta_of peer_id s) { avatar_thumb = some url }) s)
    else s

-- 'avatar-thumb': only the thumbnail of the avatar that the peer has now is kept.
unfoldable pub on_avatar_thumb : String → String → String → Peer → Peer
on_avatar_thumb peer_id hash url s = apply_thumb peer_id hash url s (meta_of peer_id s).profile

abbrev pub error_message : String → PeerMessage
error_message id = record {
  kind = message_error;
  payload = error_of (some id) (some "decrypt-failed");
  message_id = none;
}

abbrev acknowledge : Platform → String → Draw → Option String → Peer → Peer
acknowledge p peer_id d none s = s
acknowledge p peer_id d (some id) s = send_message_delivered_ack p peer_id id d s

abbrev refuse_chat : Platform → String → Draw → Option String → Peer → Peer
refuse_chat p peer_id d none s = s
refuse_chat p peer_id d (some id) s =
    post p peer_id (error_message id) d (emit (decrypt_failed peer_id id) s)

abbrev take_chat : Platform → String → Option String → Draw → Peer → Option String → Peer
take_chat p peer_id id d s none = refuse_chat p peer_id d (truthy id) s
take_chat p peer_id id d s (some content) =
    acknowledge p peer_id d (truthy id) (emit (chat_received peer_id content id) s)

-- 'chat-message'
unfoldable pub on_chat_message : Platform → String → Payload → Option String → Draw → Peer → Peer
unfolding send_message_delivered_ack
on_chat_message p peer_id payload id d s =
    take_chat p peer_id id d s (decrypt_message p peer_id payload s)

abbrev refuse_file : Platform → String → Draw → Option String → Peer → Peer
refuse_file p peer_id d none s = s
refuse_file p peer_id d (some id) s =
    emit (file_transfer_error peer_id id) (post p peer_id (error_message id) d s)

abbrev take_file : Platform → String → Option String → Draw → Peer → Option FileMeta → Peer
take_file p peer_id id d s none = refuse_file p peer_id d (truthy id) s
take_file p peer_id id d s (some meta) = emit (file_started peer_id id meta) s

abbrev parse_with : Own → Option String → Option FileMeta
parse_with o none = none
parse_with o (some t) = o.parse_meta t

-- 'file-start': a text that is not JSON is refused as one that does not decrypt.
unfoldable pub on_file_start :
    Platform → Own → String → Payload → Option String → Draw → Peer → Peer
on_file_start p o peer_id payload id d s =
    take_file p peer_id id d s (parse_with o (decrypt_message p peer_id payload s))

abbrev report_error : String → String → Option String → Result (Unit {0}) → Peer → Peer
report_error peer_id id reason (ok _) s = emit (outgoing_message_error peer_id id reason) s
report_error peer_id id reason (err _) s = s

abbrev fail_message : String → Option String → Peer → Option String → Peer
fail_message peer_id reason s none = s
fail_message peer_id reason s (some id) =
    with_idb (update_message_status id Status.failed) s (report_error peer_id id reason)

-- 'message-error': where the status cannot be written, nothing is emitted.
unfoldable pub on_message_error : String → Option String → Option String → Peer → Peer
on_message_error peer_id id reason s = fail_message peer_id reason s (truthy id)

-- 'reaction': the event goes out where the database fails too.
unfoldable pub on_reaction : String → String → String → Peer → Peer
on_reaction peer_id id emoji s =
    with_idb (toggle_message_reaction id emoji peer_id) s
      (λ _ t. emit (reaction_received peer_id id emoji) t)

-- The kind of the message chooses the handler; every other one is passed to the interface.
abbrev handle :
    Platform
    → Own
    → String
    → (ℕ → Draw)
    → Draw
    → MessageKind
    → Payload
    → Option String
    → PeerMessage
    → Peer
    → Peer
handle p o from draws d key_exchange (public_key key) id m = on_key_exchange p o from draws d key
handle p o from draws d profile (profile_of q) id m = on_profile p o from profile q d
handle p o from draws d profile_update (profile_of q) id m = on_profile p o from profile_update q d
handle p o from draws d avatar_request (hash_of h) id m = on_avatar_request p o from h d
handle p o from draws d avatar_thumb (thumb_of h url mime) id m = on_avatar_thumb from h url
handle p o from draws d chat_message payload id m = on_chat_message p from payload id d
handle p o from draws d file_start payload id m = on_file_start p o from payload id d
handle p o from draws d message_delivered payload id m = emit (delivered from id)
handle p o from draws d message_read payload id m = emit (read from id)
handle p o from draws d message_error (error_of id' reason) id m = on_message_error from id' reason
handle p o from draws d reaction (reaction_of id' emoji) id m = on_reaction from id' emoji
handle p o from draws d kind payload id m = emit (received from m)

-- `onmessage` for a frame of text. `draws` has what the browser gives at the flush of the queue, `d`
-- what it gives at any other sending.
unfoldable pub on_message : Platform → Own → String → (ℕ → Draw) → Draw → PeerMessage → Peer → Peer
on_message p o from draws d m s =
    if is_blocked from s then s else handle p o from draws d m.kind m.payload m.message_id m s

abbrev profile_of_lite : Lite → PublicProfile
profile_of_lite l = record {
  id = none;
  display_name = some l.display_name;
  avatar_hash = none;
  avatar_mime = none;
  avatar_version = some l.avatar_version;
  age = l.age;
  gender = l.gender;
}

-- `onmessage` of the public control channel passes the profile on as a 'profile' message.
unfoldable pub on_lite : String → Lite → Peer → Peer
on_lite from l s =
    if is_blocked from s
    then s
    else emit
        (received from
          (record { kind = profile; payload = profile_of (profile_of_lite l); message_id = none }))
        s
