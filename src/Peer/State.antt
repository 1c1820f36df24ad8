-- ===== src/Peer/State.antt =====
-- The state of `PeerService` (src/services/PeerService.ts, lines 28-95 and 1695-1699), with what it
-- shares with CryptoService (`sharedSecrets`) and IndexedDBService, the events that it has emitted
-- and the messages that it has sent to the signalling server.
use nonetchat_web.Prelude.{ℕ, String, Option, Bool, true, false, List}
use nonetchat_web.Prelude.Dict.{Dict}
use nonetchat_web.Protocol.{PeerMessage, MessageKind, PublicProfile, Gender}
use nonetchat_web.Store.Exec.{Idb}

pub data ReadyState : Type 0 where
  connecting opened closing closed : ReadyState

-- A message of the public room (`broadcastToPublicRoom`).
pub record Packet : Type 0 where
  pub id : String
  pub room_id : String
  pub origin : String
  pub ts : ℕ
  pub ttl : ℕ
  pub content : String

-- The `p-lite` message of the public control channel.
pub record Lite : Type 0 where
  pub id : String
  pub display_name : String
  pub age : Option ℕ
  pub gender : Option Gender
  pub avatar_version : ℕ

-- What a channel carries: the object that `JSON.stringify` writes, or bytes.
pub data Frame : Type 0 where
  peer_frame : PeerMessage → Frame
  public_frame : Packet → Frame
  lite_frame : Lite → Frame
  binary : List ℕ → Frame

-- A channel object. `id` is its identity, `full` says that `send` throws because the browser's
-- buffer is full, and `frames` is what was sent on it, in order.
pub record Channel : Type 0 where
  pub id : ℕ
  pub ready_state : ReadyState
  pub full : Bool
  pub frames : List Frame

pub data IceState : Type 0 where
  fresh checking connected completed failed disconnected closed : IceState

pub record Connection : Type 0 where
  pub ice_state : IceState
  pub relay_only : Bool
  pub has_remote_description : Bool
  pub restarts : ℕ

pub record QueuedMessage : Type 0 where
  pub id : String
  pub message : PeerMessage
  pub persisted : Bool

pub record PeerProfileCache : Type 0 where
  pub profile : Option PublicProfile
  pub avatar_thumb : Option String

pub record NearbyPeer : Type 0 where
  pub peer_id : String
  pub distance_label : Option String

-- What a file transfer announces.
pub record FileMeta : Type 0 where
  pub name : String
  pub size : ℕ
  pub mime : String
  pub encrypted_size : ℕ

pub data Event : Type 0 where
  peer_joined peer_left : String → Event
  outgoing_message_sent : (peer_id message_id : String) → Event
  public_message : Packet → Event
  received : String → PeerMessage → Event
  chat_received : (peer_id content : String) → Option String → Event
  decrypt_failed : (peer_id message_id : String) → Event
  delivered read : String → Option String → Event
  reaction_received : (peer_id message_id emoji : String) → Event
  outgoing_message_error : (peer_id message_id : String) → Option String → Event
  file_chunk : (peer_id message_id : String) → List ℕ → Event
  file_transfer_error : (peer_id message_id : String) → Event
  file_started : String → Option String → FileMeta → Event
  profile_received : String → MessageKind → PublicProfile → (avatar : String) → Event
  room_update : String → Event
  nearby_peers : List NearbyPeer → Event
  public_peers_change : List String → Event
  nearby_peer_detected : NearbyPeer → Event
  blocklist_updated : List String → Event

pub data ServerMessage : Type 0 where
  offer_to answer_to candidate_to : String → ServerMessage
  profile_to_server :
      (name : String) → (avatar_version : ℕ) → (clears_avatar : Bool) → ServerMessage

pub record Peer : Type 0 where
  pub my_id : String
  pub shared_secrets : Dict String
  pub idb : Idb
  pub events : List Event
  pub to_server : List ServerMessage
  pub peer_connections : Dict Connection
  pub data_channels : Dict Channel
  pub message_queue : Dict (List QueuedMessage)
  pub public_room_id : Option String
  pub public_peers : List String
  pub public_neighbors : List String
  pub public_data_channels : Dict Channel
  pub public_ctrl_channels : Dict Channel
  pub seen_public_messages : List String
  pub nearby_notification_history : Dict ℕ
  pub block_list : List String
  pub last_seen : Dict ℕ
  pub peers_meta : Dict PeerProfileCache

abbrev pub is_open : ReadyState → Bool
is_open opened = true
is_open _ = false

-- The code that `PeerService` uses and that is not under src/: the AES-GCM of the browser, and the
-- length of what `JSON.stringify` writes for a message.
pub record Platform : Type 0 where
  pub encrypt : (key iv plaintext : String) → String
  pub decrypt : (key iv ciphertext : String) → Option String
  pub wire_length : PeerMessage → ℕ

-- What one call draws from the browser: the time, a fresh UUID and a fresh initialisation vector.
pub record Draw : Type 0 where
  pub now : ℕ
  pub uuid : String
  pub iv : String

-- What a peer has of its own, and the browser's code that works on it: its public key, the secret
-- that a public key of another peer gives with its private key (`none` where the browser refuses the
-- key), its profile, the thumbnail of its avatar, made with the address of a replacement for it, that
-- address (by size, id and version), and the JSON of the announcement of a file.
pub record Own : Type 0 where
  pub public_key : String
  pub derive : String → Option String
  pub profile : PublicProfile
  pub tiny_avatar : String → Option String
  pub avatar_url : ℕ → String → ℕ → String
  pub print_meta : FileMeta → String
  pub parse_meta : String → Option FileMeta
