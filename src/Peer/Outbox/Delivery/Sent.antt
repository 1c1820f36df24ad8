-- ===== src/Peer/Outbox/Delivery/Sent.antt =====
-- What goes out on an open channel.
use nonetchat_web.Prelude.{
  String, ◌≡◌, refl, Bool, true, false, Option, none, some, List, [], ◌∷◌, ◌++◌, eq_iff, arith, inl,
  inr, Bool-cases, ap, ◌∙◌,
}
use nonetchat_web.Prelude.Dict
use nonetchat_web.Prelude.Dict.{get-set, get-delete}
use nonetchat_web.Protocol.{
  PeerMessage, MessageKind, chat_message, sealed, text_of, is_chat, is_size_limited,
}
use nonetchat_web.Peer.State.{Peer, Channel, QueuedMessage, Draw, Platform, peer_frame}
use nonetchat_web.Peer.Outbox.{report_sent, delete_persisted_queued_message}
use nonetchat_web.Prelude.{truthy}
use nonetchat_web.Peer.Outbox.{
  get_queue, has_id, remove_id, remove_from, store_queue, choose_id, remove_queued_message,
  after_send, send_on, sent_on, route, send_encrypted, send_to_peer, sent, encrypt_payload,
  open_channel, push_frame,
}
use nonetchat_web.Peer.Outbox.Queue.{IsOutbox, has_id-remove_id}
use nonetchat_web.Peer.Outbox.Delivery.{after_send_keeps, channel-sent}
use nonetchat_web.Peer.Outbox.Delivery.Accounted.{has_id-set_queue}

not_limited : (k : MessageKind) → is_chat k ≡ true → is_size_limited k ≡ false
not_limited chat_message h = refl
not_limited k h = ground arith

-- The sealed form of a chat message.
abbrev pub sealed_message : Platform → String → PeerMessage → Draw → PeerMessage
sealed_message p key m d = record m {
  payload = sealed d.iv (p.encrypt key d.iv (text_of m.payload));
}

module _ (p : Platform) (peer_id : String) (m : PeerMessage) (d : Draw) (s : Peer)
    (out : IsOutbox s) where
  has_id-store_queue :
      (id : String) (q : List QueuedMessage) (t : Peer)
      → has_id id (get_queue peer_id (store_queue peer_id q t)) ≡ has_id id q
  has_id-store_queue id [] t =
      unfold get_queue has_id in
      ground (arith, get-delete peer_id peer_id t.message_queue, eq_iff peer_id peer_id)
  has_id-store_queue id (x ∷ xs) t = has_id-set_queue id peer_id (x ∷ xs) t

  removed :
      (id : String) (t : Peer)
      → t.message_queue ≡ s.message_queue
      → has_id id (get_queue peer_id (remove_queued_message peer_id id t)) ≡ false
  unfolding remove_queued_message
  removed id t same = go (Dict.get peer_id t.message_queue) refl
    where
      go :
          (o : Option (List QueuedMessage))
          → Dict.get peer_id t.message_queue ≡ o
          → has_id id (get_queue peer_id (remove_from peer_id id t o)) ≡ false
      go none e = unfold get_queue has_id in rw e
      go (some q) e = elim (Bool-cases (has_id id q)) [
        | inl here ↦ rw here (
            has_id-store_queue id (remove_id id q) t
            ∙ (has_id-remove_id id id q (out.queues peer_id q (rw (← same) e)).0
                ∙ ground (arith, eq_iff id id)))
        | inr gone ↦ rw gone (unfold get_queue in rw e gone)
      ]

  pub sends :
      (key : String) (dc : Channel) (from_queue : Bool) (queued_id : Option String)
      → is_chat m.kind ≡ true
      → Dict.get peer_id s.shared_secrets ≡ some key
      → open_channel peer_id s ≡ some dc
      → dc.full ≡ false
      → send_to_peer p peer_id m from_queue queued_id d s
        ≡ sent_on peer_id m
            (sealed_message p key m d)
            (choose_id queued_id m d)
            from_queue
            d
            dc
            s
            false
  unfolding send_to_peer send_on
  sends key dc from_queue queued_id chat shared ready room =
      let id : String = choose_id queued_id m d in
      let sealed_m = sealed_message p key m d in
      let enc : encrypt_payload p peer_id m d s ≡ some sealed_m =
        unfold encrypt_payload in rw chat (rw shared) in
      ap (send_encrypted p peer_id m id from_queue d s) enc
      ∙ (rw (not_limited m.kind chat) (
          ap (route peer_id m sealed_m id from_queue d s) ready
          ∙ ap (sent_on peer_id m sealed_m id from_queue d dc s) room))

  -- A chat message to a peer with a shared key and an open channel with room goes out sealed under
  -- that key as the last frame of the channel, and its id is then not in the peer's queue.
  pub send_to_peer-delivers :
      (key : String) (dc : Channel) (from_queue : Bool) (queued_id : Option String)
      → is_chat m.kind ≡ true
      → Dict.get peer_id s.shared_secrets ≡ some key
      → open_channel peer_id s ≡ some dc
      → dc.full ≡ false
      → let r = send_to_peer p peer_id m from_queue queued_id d s in
        (r.0 ≡ sent)
        × (Dict.get peer_id r.1.data_channels
            ≡ some (record dc { frames = dc.frames ++ peer_frame (sealed_message p key m d) ∷ [] }))
        × (has_id (choose_id queued_id m d) (get_queue peer_id r.1) ≡ false)
  send_to_peer-delivers key dc from_queue queued_id chat shared ready room =
      let id : String = choose_id queued_id m d in
      let frame = peer_frame (sealed_message p key m d) in
      let pushed = push_frame peer_id dc frame s in
      let after = after_send peer_id m id pushed in
      rw (sends key dc from_queue queued_id chat shared ready room) (
        refl,
        channel-sent peer_id m id dc frame s,
        removed id after (after_send_keeps peer_id id m pushed).0,
      )

  secrets-store_queue :
      (q : List QueuedMessage) (t : Peer)
      → (store_queue peer_id q t).shared_secrets ≡ t.shared_secrets
  secrets-store_queue [] t = refl
  secrets-store_queue (x ∷ xs) t = refl

  secrets-remove_queued_message :
      (id : String) (t : Peer)
      → (remove_queued_message peer_id id t).shared_secrets ≡ t.shared_secrets
  unfolding remove_queued_message
  secrets-remove_queued_message id t = go (Dict.get peer_id t.message_queue)
    where
      go :
          (o : Option (List QueuedMessage))
          → (remove_from peer_id id t o).shared_secrets ≡ t.shared_secrets
      go none = refl
      go (some q) = elim (Bool-cases (has_id id q)) [
        | inl here ↦ rw here (secrets-store_queue (remove_id id q) t)
        | inr gone ↦ rw gone refl
      ]

  secrets-report_sent :
      (id : String) (chat : Bool) (t : Peer) (o : Option String)
      → (report_sent peer_id id chat t o).shared_secrets ≡ t.shared_secrets
  unfolding delete_persisted_queued_message
  secrets-report_sent id chat t none = refl
  secrets-report_sent id true t (some k) = refl
  secrets-report_sent id false t (some k) = refl

  -- What is shared with a peer is the same after a delivery.
  pub secrets-send_to_peer :
      (key : String) (dc : Channel) (from_queue : Bool) (queued_id : Option String)
      → is_chat m.kind ≡ true
      → Dict.get peer_id s.shared_secrets ≡ some key
      → open_channel peer_id s ≡ some dc
      → dc.full ≡ false
      → (send_to_peer p peer_id m from_queue queued_id d s).1.shared_secrets ≡ s.shared_secrets
  secrets-send_to_peer key dc from_queue queued_id chat shared ready room =
      let id : String = choose_id queued_id m d in
      let pushed = push_frame peer_id dc (peer_frame (sealed_message p key m d)) s in
      rw (sends key dc from_queue queued_id chat shared ready room) (
        secrets-remove_queued_message id (after_send peer_id m id pushed)
        ∙ unfold after_send in secrets-report_sent id (is_chat m.kind) pushed (truthy m.message_id))
