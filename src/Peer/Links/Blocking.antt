-- ===== src/Peer/Links/Blocking.antt =====
-- The chat channels of blocked peers.
use nonetchat_web.Prelude.{
  ℕ, ◌+◌, String, ◌≡◌, Bool, true, false, ◌||◌, none, List, [], ◌∷◌, eq_iff, arith, Bool-cases, inl,
  inr,
}
use nonetchat_web.Prelude.Dict
use nonetchat_web.Prelude.Dict.{get-set, get-delete}
use nonetchat_web.Prelude.StrSet
use nonetchat_web.Prelude.StrSet.{mem-add, mem-remove}
use nonetchat_web.Store.Exec.{Result, ok, err}
use nonetchat_web.Store.Tables.{add_to_block_list, remove_from_block_list}
use nonetchat_web.Peer.State.{Peer, Channel, Connection, IceState}
use nonetchat_web.Peer.Links.{
  is_agent, is_blocked, new_channel, Role, close_peer_connection, setup_data_channel,
  on_data_channel, create_peer_connection, ensure_chat_channel, handle_offer, handle_answer,
  on_ice_state, on_relay_timer, on_disconnected_timer, on_connection_lost, block_peer, unblock_peer,
  prune, prune_all, prune_one, is_dead, after_unblock,
}

-- No blocked peer, other than an AI agent, has a chat channel.
pub record IsShielded (s : Peer) : Type 0 where
  pub shut :
      (peer_id : String)
      → is_blocked peer_id s ≡ true
      → is_agent peer_id ≡ false
      → Dict.get peer_id s.data_channels ≡ none

module _ (s : Peer) (h : IsShielded s) (peer_id : String) where
  pub close-IsShielded : IsShielded (close_peer_connection peer_id s)
  unfolding close_peer_connection
  close-IsShielded = record {
    shut = λ j b a. ground (arith, h.shut j, get-delete j peer_id s.data_channels);
  }

  pub setup-IsShielded : (c : Channel) → IsShielded (setup_data_channel peer_id c s)
  unfolding setup_data_channel
  setup-IsShielded c = record {
    shut = λ j b a. ground (arith, h.shut j, get-set j peer_id c s.data_channels, eq_iff peer_id j);
  }

  pub on_data_channel-IsShielded :
      (label : String) (c : Channel) → IsShielded (on_data_channel peer_id label c s)
  unfolding on_data_channel
  on_data_channel-IsShielded label c = record {
    shut = λ j b a. ground (arith, h.shut j, get-set j peer_id c s.data_channels, eq_iff peer_id j);
  }

  pub create-IsShielded :
      (role : Role) (id : ℕ) → IsShielded (create_peer_connection peer_id role id s)
  unfolding create_peer_connection
  create-IsShielded role id = record { shut = λ j b a. ground (arith, h.shut j) }

  pub ensure-IsShielded : (id : ℕ) → IsShielded (ensure_chat_channel peer_id id s)
  unfolding ensure_chat_channel
  ensure-IsShielded id = record {
    shut = λ j b a. ground (
      arith,
      h.shut j,
      get-set j peer_id (new_channel (id + 2)) s.data_channels,
      eq_iff peer_id j,
    );
  }

  pub offer-IsShielded :
      (id : ℕ) (accepted : Bool) → IsShielded (handle_offer peer_id id accepted s)
  unfolding handle_offer create_peer_connection
  offer-IsShielded id accepted = record { shut = λ j b a. ground (arith, h.shut j) }

  pub answer-IsShielded : (accepted : Bool) → IsShielded (handle_answer peer_id accepted s)
  unfolding handle_answer
  answer-IsShielded accepted = record { shut = λ j b a. ground (arith, h.shut j) }

  pub ice-IsShielded : (state : IceState) → IsShielded (on_ice_state peer_id state s)
  unfolding on_ice_state close_peer_connection
  ice-IsShielded state = record {
    shut = λ j b a. ground (arith, h.shut j, get-delete j peer_id s.data_channels);
  }

  pub relay-IsShielded : IsShielded (on_relay_timer peer_id s)
  unfolding on_relay_timer
  relay-IsShielded = record { shut = λ j b a. ground (arith, h.shut j) }

  pub disconnected-IsShielded : IsShielded (on_disconnected_timer peer_id s)
  unfolding on_disconnected_timer
  disconnected-IsShielded = record { shut = λ j b a. ground (arith, h.shut j) }

  pub lost-IsShielded : IsShielded (on_connection_lost peer_id s)
  unfolding on_connection_lost
  lost-IsShielded = close-IsShielded

  pub unblock-IsShielded : IsShielded (unblock_peer peer_id s)
  unfolding unblock_peer
  unblock-IsShielded = elim (Bool-cases (is_blocked peer_id s)) [
    | inr free ↦ rw free h
    | inl held ↦ rw held (after (remove_from_block_list peer_id s.idb).0)
  ]
    where
      t : Peer
      t = record s {
        block_list = StrSet.remove peer_id s.block_list;
        idb = (remove_from_block_list peer_id s.idb).1;
      }

      fewer : IsShielded t
      fewer = record { shut = λ j b a. ground (arith, h.shut j, mem-remove j peer_id s.block_list) }

      after : (r : Result (Unit {0})) → IsShielded (after_unblock r t)
      after (err _) = fewer
      after (ok _) = record { shut = fewer.shut }

  pub prune_one-IsShielded :
      (now : ℕ) (pc : Connection) → IsShielded (prune_one now (peer_id, pc) s)
  unfolding prune_one
  prune_one-IsShielded now pc = elim (Bool-cases (is_dead now peer_id pc s)) [
    | inl dead ↦ rw dead (record { shut = close-IsShielded.shut })
    | inr live ↦ rw live h
  ]

pub prune_all-IsShielded :
    (now : ℕ) (es : List (String × Connection)) (s : Peer)
    → IsShielded s
    → IsShielded (prune_all now es s)
unfolding prune_all
prune_all-IsShielded now [] s h = h
prune_all-IsShielded now ((j, pc) ∷ es) s h =
    prune_all-IsShielded now es (prune_one now (j, pc) s) (prune_one-IsShielded s h j now pc)

-- Blocking closes the chat channel of the peer that it adds, where the database takes the block.
pub block-IsShielded :
    (peer_id : String) (s : Peer)
    → IsShielded s
    → (add_to_block_list peer_id s.idb).0 ≡ ok tt
    → IsShielded (block_peer peer_id s)
unfolding block_peer close_peer_connection
block-IsShielded peer_id s h stored = elim (Bool-cases (is_agent peer_id || is_blocked peer_id s)) [
  | inl skip ↦ rw skip h
  | inr go ↦ rw go (
      rw stored (record {
        shut = λ j b a. ground (
          arith,
          h.shut j,
          get-delete j peer_id s.data_channels,
          mem-add j peer_id s.block_list,
          eq_iff peer_id j,
          eq_iff j peer_id,
        );
      }))
]

pub prune-IsShielded : (now : ℕ) (s : Peer) → IsShielded s → IsShielded (prune now s)
unfolding prune
prune-IsShielded now s h = prune_all-IsShielded now s.peer_connections s h
