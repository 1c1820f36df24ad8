-- ===== src/Store/Types.antt =====
-- The records of the object stores of src/services/IndexedDBService.ts. A store is a `Dict` in the
-- order of its primary keys; `public_messages` has numbers for keys and is a list in their order.
use nonetchat_web.Prelude.{ℕ, String, Option, Bool, List, []}
use nonetchat_web.Prelude.Dict.{Dict}
use nonetchat_web.Protocol.{Gender, PeerMessage}

pub data Status : Type 0 where
  sending sent delivered read failed : Status

pub data ContentKind : Type 0 where
  text file : ContentKind

pub record FileData : Type 0 where
  pub name : String
  pub size : ℕ
  pub mime : String
  pub url : String

-- An object whose properties are emoji and whose values are the ids of those who reacted.
abbrev pub Reactions : Type 0
Reactions = Dict (List String)

-- `status` is absent in records that were written before version 5.
pub record StoredMessage : Type 0 where
  pub id : String
  pub sender_id : String
  pub receiver_id : String
  pub content : String
  pub timestamp : ℕ
  pub kind : ContentKind
  pub encrypted : Bool
  pub status : Option Status
  pub reactions : Option Reactions
  pub file_data : Option FileData
  pub conversation_id : Option String

pub record StoredConversation : Type 0 where
  pub id : String
  pub participant_id : String
  pub participant_name : String
  pub participant_avatar : String
  pub participant_age : Option ℕ
  pub participant_gender : Option Gender
  pub last_message : Option StoredMessage
  pub unread_count : ℕ
  pub updated_at : ℕ

pub record PendingMessageRecord : Type 0 where
  pub id : String
  pub peer_id : String
  pub message : PeerMessage
  pub created_at : ℕ

pub record PublicMessage : Type 0 where
  pub id : ℕ
  pub room_id : String
  pub msg_id : String
  pub origin : String
  pub content : String
  pub ts : ℕ

pub record AvatarStoreRecord : Type 0 where
  pub id : String
  pub bytes : List ℕ
  pub name : Option String
  pub mime : String
  pub size : ℕ
  pub hash : Option String
  pub width : Option ℕ
  pub height : Option ℕ

pub record UserProfileRecord : Type 0 where
  pub id : String
  pub display_name : Option String
  pub age : Option ℕ
  pub gender : Option Gender
  pub avatar_hash : Option String
  pub avatar_mime : Option String
  pub avatar_w : Option ℕ
  pub avatar_h : Option ℕ
  pub avatar_version : Option ℕ

pub record CryptoKeyPairRecord : Type 0 where
  pub public_key : String
  pub private_key : String

pub record Db : Type 0 where
  pub messages : Dict StoredMessage
  pub conversations : Dict StoredConversation
  pub files : Dict FileData
  pub file_blobs : Dict (List ℕ)
  pub avatars : Dict AvatarStoreRecord
  pub crypto_keys : Dict CryptoKeyPairRecord
  pub block_list : Dict String
  pub user : Dict UserProfileRecord
  pub kv : Dict String
  pub public_messages : List PublicMessage
  pub next_public_id : ℕ
  pub pending_messages : Dict PendingMessageRecord

abbrev pub empty_db : Db
empty_db = record {
  messages = [];
  conversations = [];
  files = [];
  file_blobs = [];
  avatars = [];
  crypto_keys = [];
  block_list = [];
  user = [];
  kv = [];
  public_messages = [];
  next_public_id = 1;
  pending_messages = [];
}
