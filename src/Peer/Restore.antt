-- ===== src/Peer/Restore.antt =====
-- What a peer finds in the database when it starts (src/services/PeerService.ts, lines 188-205): the
-- messages that waited when it stopped go back into the queues of their peers.
pub mod Waiting
use nonetchat_web.Prelude.{
  ℕ, ◌+◌, String, Bool, ◌&&◌, not, some, true, List, [], ◌∷◌, if◌then◌else◌,
}
use nonetchat_web.Protocol.{is_chat}
use nonetchat_web.Store.Types.{PendingMessageRecord}
use nonetchat_web.Store.Exec.{Result, ok, err}
use nonetchat_web.Store.Tables.{get_pending_messages}
use nonetchat_web.Peer.State.{Peer, Draw}
use nonetchat_web.Peer.Outbox.{enqueue_message, with_idb}
use nonetchat_web.Peer.Links.{is_agent, ensure_chat_channel}

-- `id` and the two numbers after it are the identities of the channels that may be created.
unfoldable pub restore_one : PendingMessageRecord → ℕ → Draw → Peer → Peer
unfolding enqueue_message ensure_chat_channel
restore_one rec id d s =
    let s₁ = enqueue_message rec.peer_id rec.message (some rec.id) true d s in
    if is_chat rec.message.kind && not (is_agent rec.peer_id)
    then ensure_chat_channel rec.peer_id id s₁
    else s₁

unfoldable pub restore_all : List PendingMessageRecord → ℕ → Draw → Peer → Peer
unfolding restore_one
restore_all [] id d s = s
restore_all (r ∷ rs) id d s = restore_all rs (id + 3) d (restore_one r id d s)

abbrev pub restore_read : ℕ → Draw → Result (List PendingMessageRecord) → Peer → Peer
restore_read id d (ok recs) s = restore_all recs id d s
restore_read id d (err _) s = s

-- A failure to read the database is logged and changes nothing else.
unfoldable pub restore_pending_messages : ℕ → Draw → Peer → Peer
unfolding restore_all
restore_pending_messages id d s = with_idb get_pending_messages s (restore_read id d)
