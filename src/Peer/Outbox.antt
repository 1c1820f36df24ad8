-- ===== src/Peer/Outbox.antt =====
-- The outbox of src/services/PeerService.ts: the queue of each peer, its copy in the database, and
-- `sendToPeer` (lines 134-205 and 1300-1359), with `encryptMessage` of src/services/CryptoService.ts.
pub mod Queue
pub mod Delivery
use nonetchat_web.Prelude.{
  ℕ, ◌*◌, String, ◌≡◌, Bool, true, false, ◌&&◌, ◌||◌, not, Option, none, some, List, [], ◌∷◌, ◌++◌,
  ◌==◌, ltb, if◌then◌else◌, or_else, any, truthy, or_text, is_some,
}
use nonetchat_web.Prelude.Dict
use nonetchat_web.Prelude.Dict.{Dict}
use nonetchat_web.Protocol.{
  PeerMessage, text, chat_message, text_of, sealed, is_chat, is_size_limited,
}
use nonetchat_web.Store.Types.{PendingMessageRecord, Status}
use nonetchat_web.Store.Exec.{Exec, Result, ok, err}
use nonetchat_web.Store.Messages.{update_message_status}
use nonetchat_web.Store.Tables.{save_pending_message, delete_pending_message, get_pending_messages}
use nonetchat_web.Peer.State.{
  Peer, Channel, Frame, peer_frame, QueuedMessage, Event, outgoing_message_sent, is_open, Platform,
  Draw,
}

unfoldable pub get_queue : String → Peer → List QueuedMessage
get_queue peer_id s = or_else (Dict.get peer_id s.message_queue) []

unfoldable pub has_id : String → List QueuedMessage → Bool
has_id id [] = false
has_id id (q ∷ qs) = q.id == id || has_id id qs

-- The first entry with that id is marked.
unfoldable pub mark_persisted : String → List QueuedMessage → List QueuedMessage
mark_persisted id [] = []
mark_persisted id (q ∷ qs) =
    if q.id == id then record q { persisted = true } ∷ qs else q ∷ mark_persisted id qs

-- The first entry with that id is taken out.
unfoldable pub remove_id : String → List QueuedMessage → List QueuedMessage
remove_id id [] = []
remove_id id (q ∷ qs) = if q.id == id then qs else q ∷ remove_id id qs

abbrev pub set_queue : String → List QueuedMessage → Peer → Peer
set_queue peer_id q s = record s { message_queue = Dict.set peer_id q s.message_queue }

-- `options.queueId || message.messageId || uuidv4()`
abbrev pub choose_id : Option String → PeerMessage → Draw → String
choose_id queue_id message d = or_else (or_text queue_id (truthy message.message_id)) d.uuid

unfoldable pub enqueue_message : String → PeerMessage → Option String → Bool → Draw → Peer → Peer
unfolding get_queue has_id mark_persisted
enqueue_message peer_id message queue_id persisted d s =
    let id = choose_id queue_id message d in
    let queue = get_queue peer_id s in
    if has_id id queue
    then (if persisted then set_queue peer_id (mark_persisted id queue) s else s)
    else set_queue peer_id
        (queue ++ record { id = id; message = message; persisted = persisted } ∷ []) s

-- A queue that becomes empty is deleted from the map.
abbrev store_queue : String → List QueuedMessage → Peer → Peer
store_queue peer_id [] s = record s { message_queue = Dict.delete peer_id s.message_queue }
store_queue peer_id (q ∷ qs) s = set_queue peer_id (q ∷ qs) s

abbrev remove_from : String → String → Peer → Option (List QueuedMessage) → Peer
remove_from peer_id queue_id s none = s
remove_from peer_id queue_id s (some queue) =
    if has_id queue_id queue then store_queue peer_id (remove_id queue_id queue) s else s

unfoldable pub remove_queued_message : String → String → Peer → Peer
unfolding has_id remove_id
remove_queued_message peer_id queue_id s =
    remove_from peer_id queue_id s (Dict.get peer_id s.message_queue)

-- Runs a method of the database service.
abbrev pub with_idb {ℓ} : {A : Type 0} {B : Type ℓ} → Exec A → Peer → (Result A → Peer → B) → B
with_idb m s k = let (r, idb) = m s.idb in k r (record s { idb = idb })

unfoldable pub find_id : String → List QueuedMessage → Option QueuedMessage
find_id id [] = none
find_id id (q ∷ qs) = if q.id == id then some q else find_id id qs

abbrev mark_saved : String → String → Result (Unit {0}) → Peer → Peer
mark_saved peer_id id (ok _) s = set_queue peer_id (mark_persisted id (get_queue peer_id s)) s
mark_saved peer_id id (err _) s = s

abbrev pending_record : String → String → PeerMessage → ℕ → PendingMessageRecord
pending_record peer_id id message now = record {
  id = id;
  peer_id = peer_id;
  message = message;
  created_at = now;
}

abbrev persist_entry : String → String → PeerMessage → ℕ → Peer → Option QueuedMessage → Peer
persist_entry peer_id id message now s none = s
persist_entry peer_id id message now s (some entry) =
    if entry.persisted
    then s
    else with_idb (save_pending_message (pending_record peer_id id message now)) s
        (mark_saved peer_id id)

-- A failure to save is logged and changes nothing else.
unfoldable pub persist_queued_chat_message : String → String → PeerMessage → ℕ → Peer → Peer
unfolding get_queue find_id mark_persisted
persist_queued_chat_message peer_id id message now s =
    if is_chat message.kind
    then persist_entry peer_id id message now s (find_id id (get_queue peer_id s))
    else s

unfoldable pub delete_persisted_queued_message : String → Peer → Peer
delete_persisted_queued_message id s = with_idb (delete_pending_message id) s (λ _ s'. s')

pub data SendError : Type 0 where
  no_shared_secret too_large send_failed : SendError

pub data Outcome : Type 0 where
  sent queued : Outcome
  threw : SendError → Outcome

abbrev seal_with : Platform → PeerMessage → Draw → Option String → Option PeerMessage
seal_with p message d none = none
seal_with p message d (some key) =
    some (record message { payload = sealed d.iv (p.encrypt key d.iv (text_of message.payload)) })

-- `encryptMessage`, for the chat messages only; `none` where no secret is shared with the peer.
unfoldable pub encrypt_payload : Platform → String → PeerMessage → Draw → Peer → Option PeerMessage
encrypt_payload p peer_id message d s =
    if is_chat message.kind
    then seal_with p message d (Dict.get peer_id s.shared_secrets)
    else some message

abbrev pub emit : Event → Peer → Peer
emit e s = record s { events = s.events ++ e ∷ [] }

-- After `dataChannel.send(out)` of a chat message with an id: its stored copy is deleted and its
-- status becomes 'sent'; a failure of either is logged and nothing else.
abbrev report_sent : String → String → Bool → Peer → Option String → Peer
report_sent peer_id queue_id chat s none = s
report_sent peer_id queue_id chat s (some id) =
    if chat
    then with_idb (update_message_status id Status.sent)
        (delete_persisted_queued_message queue_id s)
        (λ _ s'. emit (outgoing_message_sent peer_id id) s')
    else s

unfoldable pub after_send : String → PeerMessage → String → Peer → Peer
unfolding delete_persisted_queued_message
after_send peer_id message queue_id s =
    report_sent peer_id queue_id (is_chat message.kind) s (truthy message.message_id)

-- The message waits in the queue, and a chat message with an id in the database too.
unfoldable pub keep_for_later : String → PeerMessage → String → Draw → Peer → Peer
unfolding enqueue_message persist_queued_chat_message
keep_for_later peer_id message queue_id d s =
    let s₁ = enqueue_message peer_id message (some queue_id) false d s in
    if is_some (truthy message.message_id)
    then persist_queued_chat_message peer_id queue_id message d.now s₁
    else s₁

abbrev pub push_frame : String → Channel → Frame → Peer → Peer
push_frame peer_id dc f s = record s {
  data_channels = Dict.set peer_id (record dc { frames = dc.frames ++ f ∷ [] }) s.data_channels;
}

abbrev unless : Bool → (Peer → Peer) → Peer → Peer
unless b f s = if b then s else f s

-- The `try` and the `catch` around `dataChannel.send(out)`.
abbrev pub sent_on :
    String
    → PeerMessage
    → PeerMessage
    → String
    → Bool
    → Draw
    → Channel
    → Peer
    → Bool
    → Outcome × Peer
sent_on peer_id message out queue_id from_queue d dc s true =
    (threw send_failed, unless from_queue (keep_for_later peer_id message queue_id d) s)
sent_on peer_id message out queue_id from_queue d dc s false = (
  sent,
  remove_queued_message peer_id queue_id
      (after_send peer_id message queue_id (push_frame peer_id dc (peer_frame out) s)),
)

-- An open channel: `send` throws where the browser's buffer is full.
unfoldable pub send_on :
    String → PeerMessage → PeerMessage → String → Bool → Draw → Channel → Peer → Outcome × Peer
unfolding keep_for_later remove_queued_message after_send
send_on peer_id message out queue_id from_queue d dc s =
    sent_on peer_id message out queue_id from_queue d dc s dc.full

abbrev pub if_open : Option Channel → Option Channel
if_open none = none
if_open (some dc) = if is_open dc.ready_state then some dc else none

-- The data channel of a peer, where it is open.
abbrev pub open_channel : String → Peer → Option Channel
open_channel peer_id s = if_open (Dict.get peer_id s.data_channels)

abbrev pub max_profile_wire : ℕ
max_profile_wire = 16 * 1024

-- With no open channel the message waits; with one it is sent on it.
abbrev pub route :
    String
    → PeerMessage
    → PeerMessage
    → String
    → Bool
    → Draw
    → Peer
    → Option Channel
    → Outcome × Peer
route peer_id message out queue_id from_queue d s none =
    (queued, unless from_queue (keep_for_later peer_id message queue_id d) s)
route peer_id message out queue_id from_queue d s (some dc) =
    send_on peer_id message out queue_id from_queue d dc s

abbrev send_encrypted :
    Platform
    → String
    → PeerMessage
    → String
    → Bool
    → Draw
    → Peer
    → Option PeerMessage
    → Outcome × Peer
send_encrypted p peer_id message queue_id from_queue d s none = (threw no_shared_secret, s)
send_encrypted p peer_id message queue_id from_queue d s (some out) =
    if is_size_limited message.kind && ltb max_profile_wire (p.wire_length out)
    then (threw too_large, s)
    else route peer_id message out queue_id from_queue d s (open_channel peer_id s)

unfoldable pub send_to_peer :
    Platform → String → PeerMessage → Bool → Option String → Draw → Peer → Outcome × Peer
unfolding encrypt_payload send_on keep_for_later
send_to_peer p peer_id message from_queue queued_id d s =
    send_encrypted p peer_id message (choose_id queued_id message d) from_queue d s
      (encrypt_payload p peer_id message d s)

unfoldable pub send_message :
    Platform → String → String → Option String → Draw → Peer → Outcome × Peer
unfolding send_to_peer
send_message p peer_id content message_id d s =
    send_to_peer p peer_id
      (record { kind = chat_message; payload = text content; message_id = message_id }) false none d
      s
