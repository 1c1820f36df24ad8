-- ===== src/Peer/Outbox/Delivery.antt =====
-- What `sendToPeer` does to the queues and the channels (src/services/PeerService.ts, lines 1300-1355).
pub mod Invariant
pub mod Accounted
pub mod Sent
pub mod Plain
use nonetchat_web.Prelude.{
  String, ◌≡◌, refl, Bool, true, false, Option, none, some, truthy, List, [], ◌∷◌, ◌++◌, Bool-cases,
  inl, inr, ap, ◌∙◌,
}
use nonetchat_web.Prelude.Dict
use nonetchat_web.Prelude.Dict.{get-set_same}
use nonetchat_web.Protocol.{PeerMessage, is_chat}
use nonetchat_web.Peer.State.{Peer, Channel, Frame, QueuedMessage}
use nonetchat_web.Peer.Outbox.{
  after_send, report_sent, delete_persisted_queued_message, store_queue, remove_from, remove_id,
  has_id, push_frame, remove_queued_message,
}

module _ (peer_id queue_id : String) where
  report_sent_keeps :
      (chat : Bool) (s : Peer) (o : Option String)
      → ((report_sent peer_id queue_id chat s o).message_queue ≡ s.message_queue)
        × ((report_sent peer_id queue_id chat s o).data_channels ≡ s.data_channels)
  unfolding delete_persisted_queued_message
  report_sent_keeps chat s none = (refl, refl)
  report_sent_keeps true s (some id) = (refl, refl)
  report_sent_keeps false s (some id) = (refl, refl)

  pub after_send_keeps :
      (m : PeerMessage) (s : Peer)
      → ((after_send peer_id m queue_id s).message_queue ≡ s.message_queue)
        × ((after_send peer_id m queue_id s).data_channels ≡ s.data_channels)
  unfolding after_send
  after_send_keeps m s = report_sent_keeps (is_chat m.kind) s (truthy m.message_id)

module _ (peer_id : String) where
  channels-store_queue :
      (q : List QueuedMessage) (t : Peer)
      → (store_queue peer_id q t).data_channels ≡ t.data_channels
  channels-store_queue [] t = refl
  channels-store_queue (x ∷ xs) t = refl

  channels-remove_queued_message :
      (id : String) (t : Peer)
      → (remove_queued_message peer_id id t).data_channels ≡ t.data_channels
  unfolding remove_queued_message
  channels-remove_queued_message id t = go (Dict.get peer_id t.message_queue)
    where
      go :
          (o : Option (List QueuedMessage))
          → (remove_from peer_id id t o).data_channels ≡ t.data_channels
      go none = refl
      go (some q) = elim (Bool-cases (has_id id q)) [
        | inl here ↦ rw here (channels-store_queue (remove_id id q) t)
        | inr gone ↦ rw gone
      ]

  -- The frame stands on the channel when all is done.
  pub channel-sent :
      (m : PeerMessage) (id : String) (dc : Channel) (f : Frame) (s : Peer)
      → Dict.get peer_id
          (remove_queued_message peer_id id
            (after_send peer_id m id (push_frame peer_id dc f s))).data_channels
        ≡ some (record dc { frames = dc.frames ++ f ∷ [] })
  channel-sent m id dc f s =
      let pushed = push_frame peer_id dc f s in
      ap (Dict.get peer_id) (
        channels-remove_queued_message id (after_send peer_id m id pushed)
        ∙ (after_send_keeps peer_id id m pushed).1)
      ∙ get-set_same peer_id (record dc { frames = dc.frames ++ f ∷ [] }) s.data_channels
