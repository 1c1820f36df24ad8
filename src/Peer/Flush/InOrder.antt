-- ===== src/Peer/Flush/InOrder.antt =====
-- Which frames go out when a queue is flushed, and in which order.
use nonetchat_web.Prelude.{
  ℕ, suc, String, ◌≡◌, refl, true, false, some, List, [], ◌∷◌, ◌++◌, ap, sym, ◌∙◌, All,
}
use mathlib.Core.List.{append_assoc, append-nil}
use nonetchat_web.Prelude.Dict
use nonetchat_web.Prelude.Dict.{get-set, get-delete}
use nonetchat_web.Protocol.{is_chat}
use nonetchat_web.Peer.State.{
  Peer, Channel, Frame, QueuedMessage, Draw, Platform, peer_frame, is_open,
}
use nonetchat_web.Peer.Outbox.{get_queue, send_to_peer, open_channel}
use nonetchat_web.Peer.Outbox.Queue.{IsOutbox}
use nonetchat_web.Peer.Outbox.Delivery.Invariant.{send_to_peer-IsOutbox}
use nonetchat_web.Peer.Outbox.Delivery.Sent.{
  sealed_message, send_to_peer-delivers, secrets-send_to_peer,
}
use nonetchat_web.Peer.Flush.{flush_all, flush_queue}

-- The frames of the waiting messages, in order.
abbrev pub frames_of : Platform → String → (ℕ → Draw) → ℕ → List QueuedMessage → List Frame
frames_of p key draws n [] = []
frames_of p key draws n (q ∷ qs) =
    peer_frame (sealed_message p key q.message (draws n)) ∷ frames_of p key draws (suc n) qs

module _ (p : Platform) (peer_id key : String) (draws : ℕ → Draw) where
  frames-flush_all :
      (qs : List QueuedMessage) (n : ℕ) (s : Peer) (dc : Channel)
      → IsOutbox s
      → Dict.get peer_id s.shared_secrets ≡ some key
      → Dict.get peer_id s.data_channels ≡ some dc
      → is_open dc.ready_state ≡ true
      → dc.full ≡ false
      → All (λ q. is_chat q.message.kind ≡ true) qs
      → Dict.get peer_id (flush_all p peer_id draws n qs s).data_channels
        ≡ some (record dc { frames = dc.frames ++ frames_of p key draws n qs })
  unfolding flush_all
  frames-flush_all [] n s dc out shared there ready room chat =
      there ∙ ap (λ fs. some (record dc { frames = fs })) (sym (append-nil dc.frames))
  frames-flush_all (q ∷ qs) n s dc out shared there ready room chat =
      let t = (send_to_peer p peer_id q.message true (some q.id) (draws n) s).1 in
      let f = peer_frame (sealed_message p key q.message (draws n)) in
      let open_one : open_channel peer_id s ≡ some dc = rw there (rw ready refl) in
      let sent_one =
        send_to_peer-delivers p peer_id q.message (draws n) s out key dc true (some q.id) chat.0
          shared open_one room in
      frames-flush_all qs (suc n) t (record dc { frames = dc.frames ++ f ∷ [] })
        (send_to_peer-IsOutbox p peer_id q.message (draws n) s out true (some q.id))
        (ap (Dict.get peer_id) (
            secrets-send_to_peer p peer_id q.message (draws n) s out key dc true (some q.id) chat.0
              shared open_one room)
          ∙ shared)
        sent_one.1 ready room chat.1
      ∙ ap (λ fs. some (record dc { frames = fs }))
          (append_assoc dc.frames (f ∷ []) (frames_of p key draws (suc n) qs))

  -- With a shared secret and an open channel with room, the chat messages that wait for a peer go
  -- out on that channel, each once, sealed under the secret, in the order in which they were queued.
  -- The outbox is well formed, and only chat messages wait.
  pub frames-flush_queue :
      (s : Peer) (dc : Channel)
      → IsOutbox s
      → Dict.get peer_id s.shared_secrets ≡ some key
      → Dict.get peer_id s.data_channels ≡ some dc
      → is_open dc.ready_state ≡ true
      → dc.full ≡ false
      → All (λ q. is_chat q.message.kind ≡ true) (get_queue peer_id s)
      → Dict.get peer_id (flush_queue p peer_id draws s).data_channels
        ≡ some (record dc { frames = dc.frames ++ frames_of p key draws 0 (get_queue peer_id s) })
  unfolding flush_queue
  frames-flush_queue s dc out shared there ready room chat =
      frames-flush_all (get_queue peer_id s) 0 s dc out shared there ready room chat
