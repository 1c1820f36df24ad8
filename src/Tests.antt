-- ===== src/Tests.antt =====
-- Concrete states on which the theorems are used: two peers, a database with two conversations, and
-- a notification service, with the examples for each part of the program.
pub mod Delivery
pub mod Links
pub mod Room
pub mod Database
pub mod Notices
pub mod Signalling
pub mod Files
pub mod Profiles
use nonetchat_web.Prelude.{
  ℕ, String, ◌≡◌, ◌≢◌, ◌==◌, eq_iff, arith, false, Option, none, some, true, [], ◌∷◌,
}
use nonetchat_web.Protocol.{PeerMessage, chat_message, text}
use nonetchat_web.Store.Types.{
  Db, empty_db, StoredMessage, StoredConversation, ContentKind, PublicMessage,
}
use nonetchat_web.Store.Exec.{ready}
use nonetchat_web.Peer.State.{Peer, Channel, Connection, opened, checking, Platform, Draw, Packet}

abbrev pub a_channel : Channel
a_channel = record { id = 5; ready_state = opened; full = false; frames = [] }

abbrev pub a_connection : Connection
a_connection = record {
  ice_state = checking;
  relay_only = false;
  has_remote_description = false;
  restarts = 0;
}

-- A peer that knows nobody.
abbrev pub alone : Peer
alone = record {
  my_id = "m";
  shared_secrets = [];
  idb = ready empty_db;
  events = [];
  to_server = [];
  peer_connections = [];
  data_channels = [];
  message_queue = [];
  public_room_id = some "group:km:p5:u09";
  public_peers = [];
  public_neighbors = [];
  public_data_channels = [];
  public_ctrl_channels = [];
  seen_public_messages = [];
  nearby_notification_history = [];
  block_list = [];
  last_seen = [];
  peers_meta = [];
}

-- A peer with two neighbours, of which `b` has a chat channel and a shared secret too.
abbrev pub joined : Peer
joined = record alone {
  shared_secrets = ("b", "key") ∷ [];
  peer_connections = ("b", a_connection) ∷ ("c", a_connection) ∷ [];
  data_channels = ("b", a_channel) ∷ [];
  public_peers = "b" ∷ "c" ∷ "m" ∷ [];
  public_neighbors = "b" ∷ "c" ∷ [];
  public_data_channels = ("b", a_channel) ∷ ("c", a_channel) ∷ [];
}

abbrev pub hello : PeerMessage
hello = record { kind = chat_message; payload = text "hello"; message_id = some "m1" }

abbrev pub a_draw : Draw
a_draw = record { now = 1000; uuid = "u1"; iv = "iv1" }

-- A platform whose cipher writes the key in front.
abbrev pub a_platform : Platform
a_platform = record {
  encrypt = λ key iv plaintext. plaintext;
  decrypt = λ key iv ciphertext. some ciphertext;
  wire_length = λ m. 100;
}

abbrev pub a_packet : Packet
a_packet = record {
  id = "p1";
  room_id = "group:km:p5:u09";
  origin = "z";
  ts = 7;
  ttl = 3;
  content = "hi";
}

abbrev pub a_message : StoredMessage
a_message = record {
  id = "x1";
  sender_id = "b";
  receiver_id = "m";
  content = "hello";
  timestamp = 10;
  kind = ContentKind.text;
  encrypted = true;
  status = none;
  reactions = none;
  file_data = none;
  conversation_id = some "b";
}

abbrev pub a_conversation : StoredConversation
a_conversation = record {
  id = "b";
  participant_id = "b";
  participant_name = "Bob";
  participant_avatar = "";
  participant_age = none;
  participant_gender = none;
  last_message = none;
  unread_count = 1;
  updated_at = 10;
}

abbrev pub a_db : Db
a_db = record empty_db {
  messages = ("x1", a_message) ∷ ("x2", record a_message { id = "x2"; timestamp = 20 }) ∷ [];
  conversations = ("b", a_conversation) ∷ [];
  file_blobs = ("x1", 1 ∷ []) ∷ [];
}

abbrev pub a_public_message : PublicMessage
a_public_message = record {
  id = 1;
  room_id = "r";
  msg_id = "p1";
  origin = "z";
  content = "hi";
  ts = 5;
}

pub differ : (s t : String) → (s == t) ≡ false → s ≢ t
differ s t h e = ground (arith, eq_iff s t)
