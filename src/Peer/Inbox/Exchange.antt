-- ===== src/Peer/Inbox/Exchange.antt =====
-- A message from the one that sends it to the one that reads it, and what goes back (`sendMessage` and the
-- handlers of 'chat-message', 'message-delivered' and 'message-error' in src/services/PeerService.ts).
use nonetchat_web.Prelude.{ℕ, String, ◌≡◌, refl, false, none, some, [], ◌∷◌, ◌++◌, ap, ◌∙◌, truthy}
use nonetchat_web.Prelude.Dict
use nonetchat_web.Protocol.{
  PeerMessage, Payload, chat_message, text, message_delivered, null, sealed, is_chat,
  is_size_limited,
}
use nonetchat_web.Store.Types.{Db, Status}
use nonetchat_web.Store.Exec.{ready, write, transaction}
use nonetchat_web.Store.Messages.{update_message_status, change_message}
use nonetchat_web.Peer.State.{
  Peer, Channel, Own, Platform, Draw, peer_frame, chat_received, delivered, decrypt_failed,
  outgoing_message_error,
}
use nonetchat_web.Peer.Outbox.{send_message, send_to_peer, open_channel, if_open, emit}
use nonetchat_web.Peer.Outbox.Queue.{IsOutbox}
use nonetchat_web.Peer.Outbox.Delivery.Sent.{sealed_message, send_to_peer-delivers}
use nonetchat_web.Peer.Outbox.Delivery.Plain.{send_to_peer-SameButOutbox, send_to_peer-sends}
use nonetchat_web.Peer.Links.{is_blocked}
use nonetchat_web.Peer.Inbox.{
  on_message, on_chat_message, send_message_delivered_ack, decrypt_message, error_message,
  on_message_error,
}

abbrev pub chat : String → String → PeerMessage
chat content id = record { kind = chat_message; payload = text content; message_id = some id }

abbrev pub chat_of : Payload → String → PeerMessage
chat_of payload id = record { kind = chat_message; payload = payload; message_id = some id }

abbrev pub ack : String → PeerMessage
ack id = record { kind = message_delivered; payload = null; message_id = some id }

-- A peer whose channel to another is open and has room.
abbrev pub CanSend : String → Channel → Peer → Type 0
CanSend peer_id dc s = (open_channel peer_id s ≡ some dc) × (dc.full ≡ false)

abbrev pub with_frame : Channel → PeerMessage → Channel
with_frame dc m = record dc { frames = dc.frames ++ peer_frame m ∷ [] }

module _ (p : Platform) (o : Own) (draws : ℕ → Draw) (d : Draw) (peer_id id : String)
    (named : truthy (some id) ≡ some id) (b : Peer) (open_to : is_blocked peer_id b ≡ false)
    (dc : Channel) (can_send : CanSend peer_id dc b) where
  -- The answer is the last frame of the channel, and sending it emits nothing.
  answered :
      (m : PeerMessage) (t : Peer)
      → is_chat m.kind ≡ false
      → is_size_limited m.kind ≡ false
      → t.data_channels ≡ b.data_channels
      → let r = (send_to_peer p peer_id m false none d t).1 in
        (r.events ≡ t.events) × (Dict.get peer_id r.data_channels ≡ some (with_frame dc m))
  answered m t plain small same = (
    ap (λ (u : Peer). u.events) (send_to_peer-SameButOutbox p peer_id m d t plain),
    (send_to_peer-sends p peer_id m d t plain dc small
        (ap (λ c. if_open (Dict.get peer_id c)) same ∙ can_send.0) can_send.1).1,
  )

  pub on_message-opens :
      (payload : Payload) (content : String)
      → decrypt_message p peer_id payload b ≡ some content
      → let r = on_message p o peer_id draws d (chat_of payload id) b in
        (r.events ≡ b.events ++ chat_received peer_id content (some id) ∷ [])
        × (Dict.get peer_id r.data_channels ≡ some (with_frame dc (ack id)))
  unfolding on_message on_chat_message send_message_delivered_ack
  on_message-opens payload content opened = rw open_to (
      rw opened (
        rw named
          (answered (ack id) (emit (chat_received peer_id content (some id)) b) refl refl refl)))

  pub on_message-refuses :
      (payload : Payload)
      → decrypt_message p peer_id payload b ≡ none
      → let r = on_message p o peer_id draws d (chat_of payload id) b in
        (r.events ≡ b.events ++ decrypt_failed peer_id id ∷ [])
        × (Dict.get peer_id r.data_channels ≡ some (with_frame dc (error_message id)))
  unfolding on_message on_chat_message
  on_message-refuses payload failed = rw open_to (
      rw failed (
        rw named (answered (error_message id) (emit (decrypt_failed peer_id id) b) refl refl refl)))

module _ (p : Platform)
    (opens : (key iv t : String) → p.decrypt key iv (p.encrypt key iv t) ≡ some t) where
  -- What is sealed under a secret that the receiver has too is opened by it.
  decrypt_message-sealed :
      (peer_id key iv t : String) (b : Peer)
      → Dict.get peer_id b.shared_secrets ≡ some key
      → decrypt_message p peer_id (sealed iv (p.encrypt key iv t)) b ≡ some t
  unfolding decrypt_message
  decrypt_message-sealed peer_id key iv t b shared = rw shared (opens key iv t)

  -- A text that `a` sends to `b` goes out as one frame; where `b` has the same secret and does not
  -- block `a`, its handling of that frame emits exactly this text with its id, and answers with an
  -- acknowledgement, on which `a` emits that the message was delivered. Both have an open channel
  -- with room to each other, `a`'s outbox is well formed, the id is not empty, and the cipher opens
  -- what it sealed.
  pub send_message-on_message :
      (ida idb key content id : String) (a b : Peer) (ca cb : Channel) (da d : Draw) (o : Own)
      (draws : ℕ → Draw)
      → truthy (some id) ≡ some id
      → IsOutbox a
      → Dict.get idb a.shared_secrets ≡ some key
      → Dict.get ida b.shared_secrets ≡ some key
      → CanSend idb ca a
      → CanSend ida cb b
      → is_blocked ida b ≡ false
      → is_blocked idb a ≡ false
      → let out = sealed_message p key (chat content id) da in
        let r = on_message p o ida draws d out b in
        (Dict.get idb (send_message p idb content (some id) da a).1.data_channels
          ≡ some (with_frame ca out))
        × (r.events ≡ b.events ++ chat_received ida content (some id) ∷ [])
        × (Dict.get ida r.data_channels ≡ some (with_frame cb (ack id)))
        × (on_message p o idb draws d (ack id) a ≡ emit (delivered idb (some id)) a)
  unfolding send_message on_message
  send_message-on_message ida idb key content id a b ca cb da d o draws named out sa sb can_a can_b
        open_b open_a =
      let got =
        on_message-opens p o draws d ida id named b open_b cb can_b
          (sealed da.iv (p.encrypt key da.iv content)) content
          (decrypt_message-sealed ida key da.iv content b sb) in
      (
        (send_to_peer-delivers p idb (chat content id) da a out key ca false none refl sa can_a.0
            can_a.1).1,
        got.0,
        got.1,
        rw open_a refl,
      )

-- A chat message that `b` cannot open is answered with an error, on which `a`, whose database is
-- open and commits, sets the status of that message to 'error' and emits that it failed. Neither
-- blocks the other, `b` has an open channel with room, and the id is not empty.
pub on_message-reports_failure :
    (p : Platform) (o : Own) (draws : ℕ → Draw) (d : Draw) (ida idb id : String) (a b : Peer)
    (cb : Channel) (db : Db) (payload : Payload)
    → truthy (some id) ≡ some id
    → CanSend ida cb b
    → is_blocked ida b ≡ false
    → is_blocked idb a ≡ false
    → a.idb ≡ ready db
    → decrypt_message p ida payload b ≡ none
    → let r = on_message p o ida draws d (chat_of payload id) b in
      (r.events ≡ b.events ++ decrypt_failed ida id ∷ [])
      × (Dict.get ida r.data_channels ≡ some (with_frame cb (error_message id)))
      × (on_message p o idb draws d (error_message id) a
          ≡ emit (outgoing_message_error idb id (some "decrypt-failed")) (record a {
            idb = ready (change_message (λ m. record m { status = some Status.failed }) id db);
          }))
unfolding on_message on_message_error update_message_status write transaction
on_message-reports_failure p o draws d ida idb id a b cb db payload named can_b open_b open_a
      commits failed =
    let told = on_message-refuses p o draws d ida id named b open_b cb can_b payload failed in
    (told.0, told.1, rw open_a (rw named (rw commits refl)))
