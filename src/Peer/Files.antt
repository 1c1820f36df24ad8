-- ===== src/Peer/Files.antt =====
-- Files on the chat channel (src/services/PeerService.ts, `sendFile`, lines 1361-1506) and their encryption
-- (src/services/CryptoService.ts, `encryptFile` and `decryptFile`, lines 219-321).
pub mod Container
pub mod Slices
use nonetchat_web.Prelude.{
  ℕ, zero, suc, ◌+◌, ◌*◌, ◌/◌, ◌%◌, ◌^◌, String, Option, none, some, Bool, true, false, List, [],
  ◌∷◌, ◌++◌, ltb, if◌then◌else◌, length, take, drop,
}
use nonetchat_web.Prelude.Dict
use nonetchat_web.Protocol.{PeerMessage, Payload, null, file_start, file_end, sealed}
use nonetchat_web.Peer.State.{Peer, Channel, FileMeta, Platform, Own, Draw, Frame, binary, is_open}
use nonetchat_web.Peer.Outbox.{
  Outcome, sent, queued, threw, SendError, no_shared_secret, send_to_peer, push_frame, open_channel,
}
use nonetchat_web.Peer.Links.{is_agent}

abbrev pub Bytes : Type 0
Bytes = List ℕ

-- The browser's code that works on files: AES-GCM on bytes with a raw key, gzip in both directions
-- (which gives its argument back where the browser lacks it), and the bytes of a text.
pub record FileCode : Type 0 where
  pub seal : (key iv plain : Bytes) → Bytes
  pub unseal : (key iv plain : Bytes) → Option Bytes
  pub compress : Bytes → Bytes
  pub decompress : Bytes → Bytes
  pub text_bytes : String → Bytes

-- `setUint32` with the lowest byte first; a larger number loses its high bits.
abbrev pub uint32_le : ℕ → Bytes
uint32_le n = n % 256 ∷ (n / 256) % 256 ∷ (n / 65536) % 256 ∷ (n / 16777216) % 256 ∷ []

-- The 12 bytes of the initialisation vector, the 32 of the key and the 4 of the size, then the file.
unfoldable pub encrypt_file : FileCode → (key iv : Bytes) → Bytes → Bytes
encrypt_file f key iv file =
    iv ++ (key ++ (uint32_le (length file) ++ f.seal key iv (f.compress file)))

abbrev pub decompressed : FileCode → Option Bytes → Option Bytes
decompressed f none = none
decompressed f (some packed) = some (f.decompress packed)

-- `none` where it throws. A size that is not the declared one is only logged.
unfoldable pub decrypt_file : FileCode → Bytes → Option Bytes
decrypt_file f blob =
    let iv = take 12 blob in
    let key = take 32 (drop 12 blob) in decompressed f (f.unseal key iv (drop 48 blob))

abbrev pub chunk_size : ℕ
chunk_size = 16384

-- What happens while a slice is read and sent; at an error or a close the transfer ends.
pub data SliceEvent : Type 0 where
  quiet slice_error read_error read_empty channel_error channel_closed send_throws : SliceEvent

pub data TransferError : Type 0 where
  channel_not_open start_queued end_queued : TransferError
  at_slice : SliceEvent → TransferError
  sending : SendError → TransferError

pub data Transfer : Type 0 where
  resolved : Transfer
  rejected : TransferError → Transfer
  out_of_fuel : Transfer

abbrev pub put_slice : String → Bytes → Peer → Option Channel → Peer
put_slice peer_id bytes s none = s
put_slice peer_id bytes s (some dc) = push_frame peer_id dc (binary bytes) s

-- The id of the message stands in front of each slice.
abbrev pub send_slice : String → Bytes → Bytes → Peer → Peer
send_slice peer_id id slice s = put_slice peer_id (id ++ slice) s (Dict.get peer_id s.data_channels)

abbrev pub slice_at : ℕ → Bytes → Bytes
slice_at offset blob = take chunk_size (drop offset blob)

abbrev pub on_slice : SliceEvent → Peer → Transfer × Peer → Transfer × Peer
on_slice quiet s next = next
on_slice e s next = (rejected (at_slice e), s)

-- The loop of `readSlice` and `onload`, from an offset; `events n` is what happens at the slice `n`.
unfoldable pub send_slices :
    (ℕ → SliceEvent) → String → (id blob : Bytes) → (fuel n offset : ℕ) → Peer → Transfer × Peer
send_slices events peer_id id blob zero n offset s = (out_of_fuel, s)
send_slices events peer_id id blob (suc fuel) n offset s =
    let slice = slice_at offset blob in
    let t = send_slice peer_id id slice s in
    let next = offset + length slice in
    let rest = send_slices events peer_id id blob fuel (suc n) next t in
    on_slice (events n) s (if ltb next (length blob) then rest else (resolved, t))

abbrev meta_payload : Platform → Own → FileMeta → Draw → Option String → Option Payload
meta_payload p o m d none = none
meta_payload p o m d (some key) = some (sealed d.iv (p.encrypt key d.iv (o.print_meta m)))

abbrev ended : Outcome × Peer → Transfer × Peer
ended (sent, s) = (resolved, s)
ended (queued, s) = (rejected end_queued, s)
ended (threw e, s) = (rejected (sending e), s)

abbrev send_end : Platform → String → String → Draw → Transfer × Peer → Transfer × Peer
send_end p peer_id id d (resolved, s) = ended (
    send_to_peer p peer_id (record { kind = file_end; payload = null; message_id = some id }) false
      (some id) d s)
send_end p peer_id id d (r, s) = (r, s)

abbrev started :
    Platform
    → FileCode
    → String
    → Bytes
    → String
    → (ℕ → SliceEvent)
    → Draw
    → Outcome × Peer
    → Transfer × Peer
started p f peer_id blob id events d (sent, s) =
    send_end p peer_id id d
      (send_slices events peer_id (f.text_bytes id) blob (length blob + 1) 0 0 s)
started p f peer_id blob id events d (queued, s) = (rejected start_queued, s)
started p f peer_id blob id events d (threw e, s) = (rejected (sending e), s)

abbrev announced :
    Platform
    → FileCode
    → String
    → Bytes
    → String
    → (ℕ → SliceEvent)
    → Draw
    → Peer
    → Option Payload
    → Transfer × Peer
announced p f peer_id blob id events d s none = (rejected (sending no_shared_secret), s)
announced p f peer_id blob id events d s (some payload) = started p f peer_id blob id events d (
    send_to_peer p peer_id (record { kind = file_start; payload = payload; message_id = some id })
      false none d s)

abbrev on_open_channel :
    Platform
    → Own
    → FileCode
    → String
    → FileMeta
    → Bytes
    → String
    → (ℕ → SliceEvent)
    → Draw
    → Peer
    → Option Channel
    → Transfer × Peer
on_open_channel p o f peer_id m blob id events d s none = (rejected channel_not_open, s)
on_open_channel p o f peer_id m blob id events d s (some dc) =
    announced p f peer_id blob id events d s (
      meta_payload p o (record m { encrypted_size = length blob }) d
        (Dict.get peer_id s.shared_secrets))

-- `blob` is the encrypted file. Nothing is sent to an AI agent.
unfoldable pub send_file :
    Platform
    → Own
    → FileCode
    → String
    → FileMeta
    → (blob : Bytes) → (id : String) → (ℕ → SliceEvent)
    → Draw
    → Peer
    → Transfer × Peer
unfolding send_slices
send_file p o f peer_id m blob id events d s =
    if is_agent peer_id
    then (resolved, s)
    else on_open_channel p o f peer_id m blob id events d s (open_channel peer_id s)
