-- ===== src/Peer/Outbox/Delivery/Invariant.antt =====
-- The well-formedness of the queues while messages are sent.
use nonetchat_web.Prelude.{
  String, Bool, true, false, ◌&&◌, Option, none, some, ltb, inl, inr, Bool-cases,
}
use nonetchat_web.Protocol.{PeerMessage, is_size_limited}
use nonetchat_web.Peer.State.{Peer, Channel, Draw, Platform, peer_frame}
use nonetchat_web.Peer.Outbox.{
  keep_for_later, choose_id, after_send, send_on, sent_on, route, send_encrypted, send_to_peer,
  encrypt_payload, open_channel, unless, push_frame, max_profile_wire,
}
use nonetchat_web.Peer.Outbox.Queue.{
  IsOutbox, remove_queued_message-IsOutbox, keep_for_later-IsOutbox, with_queues_of-IsOutbox,
}
use nonetchat_web.Peer.Outbox.Delivery.{after_send_keeps}

module _ (p : Platform) (peer_id : String) (m : PeerMessage) (d : Draw) (s : Peer)
    (out : IsOutbox s) where
  unless-IsOutbox :
      (b : Bool) (f : Peer → Peer)
      → ((t : Peer) → IsOutbox t → IsOutbox (f t))
      → IsOutbox (unless b f s)
  unless-IsOutbox true f keep = out
  unless-IsOutbox false f keep = keep s out

  sent_on-IsOutbox :
      (o : PeerMessage) (queue_id : String) (from_queue : Bool) (dc : Channel) (full : Bool)
      → IsOutbox (sent_on peer_id m o queue_id from_queue d dc s full).1
  sent_on-IsOutbox o queue_id from_queue dc true =
      unless-IsOutbox from_queue (keep_for_later peer_id m queue_id d)
        (λ t h. keep_for_later-IsOutbox t h peer_id m queue_id d)
  sent_on-IsOutbox o queue_id from_queue dc false =
      let pushed = push_frame peer_id dc (peer_frame o) s in
      remove_queued_message-IsOutbox (after_send peer_id m queue_id pushed)
        (with_queues_of-IsOutbox s out (after_send peer_id m queue_id pushed)
          (after_send_keeps peer_id queue_id m pushed).0)
        peer_id queue_id

  -- Whatever the state of the channel, of the database and of the encryption, sending keeps every
  -- peer's queue free of repeated ids, and no empty queue in the map.
  pub send_to_peer-IsOutbox :
      (from_queue : Bool) (queued_id : Option String)
      → IsOutbox (send_to_peer p peer_id m from_queue queued_id d s).1
  unfolding send_to_peer send_on
  send_to_peer-IsOutbox from_queue queued_id = encrypted (encrypt_payload p peer_id m d s)
    where
      id : String
      id = choose_id queued_id m d

      routed :
          (o : PeerMessage) (c : Option Channel)
          → IsOutbox (route peer_id m o id from_queue d s c).1
      routed o none =
          unless-IsOutbox from_queue (keep_for_later peer_id m id d)
            (λ t h. keep_for_later-IsOutbox t h peer_id m id d)
      routed o (some dc) = sent_on-IsOutbox o id from_queue dc dc.full

      encrypted :
          (e : Option PeerMessage) → IsOutbox (send_encrypted p peer_id m id from_queue d s e).1
      encrypted none = out
      encrypted (some o) =
          elim (Bool-cases (is_size_limited m.kind && ltb max_profile_wire (p.wire_length o))) [
            | inl big ↦ rw big out
            | inr fits ↦ rw fits (routed o (open_channel peer_id s))
          ]
