-- ===== src/Peer/Links/Reach.antt =====
-- The operations on connections as the steps of one peer, in any order, and what no sequence of them
-- can undo.
use nonetchat_web.Prelude.{ℕ, String, ◌≡◌, Bool}
use nonetchat_web.Store.Exec.{ok}
use nonetchat_web.Store.Tables.{add_to_block_list}
use nonetchat_web.Peer.State.{Peer, Channel, IceState}
use nonetchat_web.Peer.Links.{
  Role, close_peer_connection, on_data_channel, create_peer_connection, ensure_chat_channel,
  handle_offer, handle_answer, on_ice_state, on_relay_timer, on_disconnected_timer,
  on_connection_lost, block_peer, unblock_peer, prune,
}
use nonetchat_web.Peer.Links.Blocking.{
  IsShielded, close-IsShielded, on_data_channel-IsShielded, create-IsShielded, ensure-IsShielded,
  offer-IsShielded, answer-IsShielded, ice-IsShielded, relay-IsShielded, disconnected-IsShielded,
  lost-IsShielded, unblock-IsShielded, block-IsShielded, prune-IsShielded,
}

-- One operation at one peer, with what the browser and the signalling server chose. Blocking is a
-- step where the database takes the block.
pub data LinkStep : Peer → Peer → Type 0 where
  create :
      {s : Peer} (j : String) (r : Role) (id : ℕ) → LinkStep s (create_peer_connection j r id s)
  chat : {s : Peer} (j : String) (id : ℕ) → LinkStep s (ensure_chat_channel j id s)
  incoming : {s : Peer} (j label : String) (c : Channel) → LinkStep s (on_data_channel j label c s)
  offered : {s : Peer} (j : String) (id : ℕ) (taken : Bool) → LinkStep s (handle_offer j id taken s)
  answered : {s : Peer} (j : String) (taken : Bool) → LinkStep s (handle_answer j taken s)
  ice : {s : Peer} (j : String) (state : IceState) → LinkStep s (on_ice_state j state s)
  relay : {s : Peer} (j : String) → LinkStep s (on_relay_timer j s)
  retry : {s : Peer} (j : String) → LinkStep s (on_disconnected_timer j s)
  lost : {s : Peer} (j : String) → LinkStep s (on_connection_lost j s)
  hang_up : {s : Peer} (j : String) → LinkStep s (close_peer_connection j s)
  block :
      {s : Peer} (j : String) → (add_to_block_list j s.idb).0 ≡ ok tt → LinkStep s (block_peer j s)
  unblock : {s : Peer} (j : String) → LinkStep s (unblock_peer j s)
  tick : {s : Peer} (now : ℕ) → LinkStep s (prune now s)

pub data LinkSteps : Peer → Peer → Type 0 where
  done : {s : Peer} → LinkSteps s s
  next : {s t u : Peer} → LinkStep s t → LinkSteps t u → LinkSteps s u

step-IsShielded : {s t : Peer} → LinkStep s t → IsShielded s → IsShielded t
step-IsShielded {s} (create j r id) h = create-IsShielded s h j r id
step-IsShielded {s} (chat j id) h = ensure-IsShielded s h j id
step-IsShielded {s} (incoming j label c) h = on_data_channel-IsShielded s h j label c
step-IsShielded {s} (offered j id taken) h = offer-IsShielded s h j id taken
step-IsShielded {s} (answered j taken) h = answer-IsShielded s h j taken
step-IsShielded {s} (ice j state) h = ice-IsShielded s h j state
step-IsShielded {s} (relay j) h = relay-IsShielded s h j
step-IsShielded {s} (retry j) h = disconnected-IsShielded s h j
step-IsShielded {s} (lost j) h = lost-IsShielded s h j
step-IsShielded {s} (hang_up j) h = close-IsShielded s h j
step-IsShielded {s} (block j stored) h = block-IsShielded j s h stored
step-IsShielded {s} (unblock j) h = unblock-IsShielded s h j
step-IsShielded {s} (tick now) h = prune-IsShielded now s h

-- From a state in which no blocked peer, AI agents apart, has a chat channel, no sequence of
-- connection steps gives one to a blocked peer: offers, answers, incoming channels, ICE failures,
-- timers, pruning, blocking (where the database takes the block) and unblocking included.
pub steps-IsShielded : {s t : Peer} → LinkSteps s t → IsShielded s → IsShielded t
steps-IsShielded done h = h
steps-IsShielded (next one rest) h = steps-IsShielded rest (step-IsShielded one h)
