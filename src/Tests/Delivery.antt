-- ===== src/Tests/Delivery.antt =====
-- Examples for the outbox.
use nonetchat_web.Prelude.{◌≡◌, refl, false, none, some, [], ◌∷◌, arith}
use nonetchat_web.Prelude.Dict
use nonetchat_web.Peer.State.{peer_frame}
use nonetchat_web.Peer.Outbox.{send_to_peer, sent, has_id, find_id, get_queue, choose_id}
use nonetchat_web.Peer.Outbox.Queue.{IsOutbox}
use nonetchat_web.Peer.Outbox.Delivery.Invariant.{send_to_peer-IsOutbox}
use nonetchat_web.Peer.Outbox.Delivery.Accounted.{IsAccounted, send_to_peer-IsAccounted}
use nonetchat_web.Peer.Outbox.Delivery.Sent.{send_to_peer-delivers, sealed_message}
use nonetchat_web.Prelude.{inl, true}
use nonetchat_web.Store.Types.{PendingMessageRecord, Db, empty_db}
use nonetchat_web.Store.Exec.{ready}
use nonetchat_web.Peer.Restore.{restore_pending_messages}
use nonetchat_web.Peer.Restore.Waiting.{find_id-restore_pending_messages}
use nonetchat_web.Prelude.{◌++◌}
use nonetchat_web.Peer.State.{Peer}
use nonetchat_web.Peer.Outbox.{enqueue_message}
use nonetchat_web.Peer.Outbox.Queue.{enqueue_message-IsOutbox}
use nonetchat_web.Peer.Flush.{flush_queue}
use nonetchat_web.Peer.Flush.InOrder.{frames_of, frames-flush_queue}
use nonetchat_web.Tests.{alone, differ, joined, hello, a_draw, a_platform, a_channel}

joined-IsOutbox : IsOutbox joined
unfolding Dict.get
joined-IsOutbox = record { queues = λ j q h. ground arith }

send_to_peer-IsOutbox_example :
    IsOutbox (send_to_peer a_platform "b" hello false none a_draw joined).1
send_to_peer-IsOutbox_example =
    send_to_peer-IsOutbox a_platform "b" hello a_draw joined joined-IsOutbox false none

send_to_peer-IsAccounted_example :
    let r = send_to_peer a_platform "b" hello false none a_draw joined in
    IsAccounted a_platform "b" hello (choose_id none hello a_draw) a_draw joined r.0 r.1
send_to_peer-IsAccounted_example =
    send_to_peer-IsAccounted a_platform "b" hello a_draw joined none (differ "u1" "" refl)

send_to_peer-delivers_example :
    let r = send_to_peer a_platform "b" hello false none a_draw joined in
    (r.0 ≡ sent)
    × (Dict.get "b" r.1.data_channels
        ≡ some (record a_channel {
          frames = peer_frame (sealed_message a_platform "key" hello a_draw) ∷ [];
        }))
    × (has_id "m1" (get_queue "b" r.1) ≡ false)
unfolding Dict.get
send_to_peer-delivers_example =
    send_to_peer-delivers a_platform "b" hello a_draw joined joined-IsOutbox "key" a_channel false
      none refl refl refl refl

waiting : PendingMessageRecord
waiting = record { id = "m1"; peer_id = "b"; message = hello; created_at = 3 }

waiting_db : Db
waiting_db = record empty_db { pending_messages = ("m1", waiting) ∷ [] }

find_id-restore_pending_messages_example :
    find_id "m1"
      (get_queue "b" (restore_pending_messages 1 a_draw (record alone { idb = ready waiting_db })))
    ≡ some (record { id = "m1"; message = waiting.message; persisted = true })
unfolding waiting waiting_db Dict.values
find_id-restore_pending_messages_example =
    find_id-restore_pending_messages 1 a_draw (record alone { idb = ready waiting_db }) waiting_db
      waiting refl refl (inl refl) (differ "m1" "" refl, inl refl, tt)

pending : Peer
pending = enqueue_message "b" hello (some "m1") true a_draw joined

frames-flush_queue_example :
    Dict.get "b" (flush_queue a_platform "b" (λ n. a_draw) pending).data_channels
    ≡ some (record a_channel {
      frames = [] ++ frames_of a_platform "key" (λ n. a_draw) 0 (get_queue "b" pending);
    })
unfolding pending enqueue_message get_queue has_id Dict.get Dict.set
frames-flush_queue_example =
    frames-flush_queue a_platform "b" "key" (λ n. a_draw) pending a_channel
      (enqueue_message-IsOutbox joined joined-IsOutbox "b" hello (some "m1") true a_draw) refl refl
      refl refl (refl, tt)
