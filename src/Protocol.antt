-- ===== src/Protocol.antt =====
-- The messages that peers exchange (src/services/PeerService.ts, `PeerMessage`), with one payload
-- constructor for each shape that a handler reads, and the public profile of ProfileService.ts.
use nonetchat_web.Prelude.{ℕ, String, Option, Bool, true, false}

pub data MessageKind : Type 0 where
  profile profile_update chat_message key_exchange file_start file_chunk file_end : MessageKind
  message_delivered message_read avatar_request avatar_thumb reaction message_error : MessageKind

pub data Gender : Type 0 where
  male female other : Gender

pub record PublicProfile : Type 0 where
  pub id : Option String
  pub display_name : Option String
  pub avatar_hash : Option String
  pub avatar_mime : Option String
  pub avatar_version : Option ℕ
  pub age : Option ℕ
  pub gender : Option Gender

pub data Payload : Type 0 where
  null : Payload
  text : String → Payload
  sealed : (iv ciphertext : String) → Payload
  public_key : String → Payload
  profile_of : PublicProfile → Payload
  hash_of : String → Payload
  thumb_of : (hash data_url mime : String) → Payload
  reaction_of : (message_id emoji : String) → Payload
  error_of : (message_id reason : Option String) → Payload

pub record PeerMessage : Type 0 where
  pub kind : MessageKind
  pub payload : Payload
  pub message_id : Option String

abbrev pub is_chat : MessageKind → Bool
is_chat chat_message = true
is_chat _ = false

-- The kinds whose wire form is refused above 16 KiB.
abbrev pub is_size_limited : MessageKind → Bool
is_size_limited profile = true
is_size_limited profile_update = true
is_size_limited avatar_thumb = true
is_size_limited _ = false

-- The plaintext of a chat message, which is a text.
abbrev pub text_of : Payload → String
text_of (text s) = s
text_of _ = ""
