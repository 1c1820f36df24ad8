-- ===== src/Peer/Flush.antt =====
-- What waits for a peer goes out when the secure channel to it stands (src/services/PeerService.ts, lines
-- 1070-1090, 'key-exchange').
pub mod InOrder
use nonetchat_web.Prelude.{ℕ, suc, String, some, true, List, [], ◌∷◌}
use nonetchat_web.Peer.State.{Peer, Platform, Draw}
use nonetchat_web.Peer.State.{QueuedMessage}
use nonetchat_web.Peer.Outbox.{get_queue, send_to_peer}

-- The outcome of each sending is only logged; `draws` has what the browser gives at each one.
unfoldable pub flush_all : Platform → String → (ℕ → Draw) → ℕ → List QueuedMessage → Peer → Peer
flush_all p peer_id draws n [] s = s
flush_all p peer_id draws n (q ∷ qs) s =
    flush_all p peer_id draws (suc n) qs
      (send_to_peer p peer_id q.message true (some q.id) (draws n) s).1

-- A copy of the queue is walked, since sending changes it.
unfoldable pub flush_queue : Platform → String → (ℕ → Draw) → Peer → Peer
unfolding flush_all get_queue
flush_queue p peer_id draws s = flush_all p peer_id draws 0 (get_queue peer_id s) s
