-- ===== src/Peer/Links/Relay.antt =====
-- Who makes the offer, and what a connection does when ICE fails.
use nonetchat_web.Prelude.{◌+◌, String, ◌≡◌, true, false, none, some, eq_iff, arith, ap, ◌∙◌}
use nonetchat_web.Prelude.Dict
use nonetchat_web.Prelude.Dict.{get-set, get-delete}
use nonetchat_web.Peer.State.{Peer, Connection, failed}
use nonetchat_web.Peer.Links.{
  on_ice_state, on_failed, fall_back, change_pc, change_found, go_relay, close_peer_connection,
  is_agent,
}

get-change_pc :
    (peer_id : String) (f : Connection → Connection) (s : Peer) (pc : Connection)
    → Dict.get peer_id s.peer_connections ≡ some pc
    → Dict.get peer_id (change_pc peer_id f s).peer_connections ≡ some (f pc)
get-change_pc peer_id f s pc there =
    ap (λ o. Dict.get peer_id (change_found peer_id f s o).peer_connections) there
    ∙ (get-set peer_id peer_id (f pc) s.peer_connections ∙ ground (arith, eq_iff peer_id peer_id))

module _ (peer_id : String) (s : Peer) (pc : Connection)
    (there : Dict.get peer_id s.peer_connections ≡ some pc) where
  -- What a failure comes to at a known connection.
  on_failed-found :
      on_ice_state peer_id failed s
      ≡ fall_back peer_id (change_pc peer_id (λ c. record c { ice_state = failed }) s) pc.relay_only
  unfolding on_ice_state
  on_failed-found =
      ap (on_failed peer_id (change_pc peer_id (λ c. record c { ice_state = failed }) s))
        (get-change_pc peer_id (λ c. record c { ice_state = failed }) s pc there)

  get-on_failed-direct :
      pc.relay_only ≡ false
      → Dict.get peer_id (on_ice_state peer_id failed s).peer_connections
        ≡ some (record pc { ice_state = failed; relay_only = true; restarts = pc.restarts + 1 })
  get-on_failed-direct direct =
      let s₁ = change_pc peer_id (λ c. record c { ice_state = failed }) s in
      ap (λ t. Dict.get peer_id t.peer_connections)
        (on_failed-found ∙ ap (fall_back peer_id s₁) direct)
      ∙ get-change_pc peer_id go_relay s₁ (record pc { ice_state = failed })
          (get-change_pc peer_id (λ c. record c { ice_state = failed }) s pc there)

get-close_peer_connection :
    (peer_id : String) (s : Peer)
    → is_agent peer_id ≡ false
    → (Dict.get peer_id (close_peer_connection peer_id s).peer_connections ≡ none)
      × (Dict.get peer_id (close_peer_connection peer_id s).data_channels ≡ none)
unfolding close_peer_connection Dict.has
get-close_peer_connection peer_id s real = (
  ground (arith, get-delete peer_id peer_id s.peer_connections, eq_iff peer_id peer_id),
  ground (arith, get-delete peer_id peer_id s.data_channels, eq_iff peer_id peer_id),
)

-- ICE may fail once more after the fallback to relays: the first failure leaves the connection there
-- with relays only, and the second one takes it away with its chat channel.
pub ice_failed_twice :
    (peer_id : String) (s : Peer) (pc : Connection)
    → Dict.get peer_id s.peer_connections ≡ some pc
    → pc.relay_only ≡ false
    → is_agent peer_id ≡ false
    → let s₁ = on_ice_state peer_id failed s in
      let s₂ = on_ice_state peer_id failed s₁ in
      (Dict.get peer_id s₁.peer_connections
        ≡ some (record pc { ice_state = failed; relay_only = true; restarts = pc.restarts + 1 }))
      × (Dict.get peer_id s₂.peer_connections ≡ none)
      × (Dict.get peer_id s₂.data_channels ≡ none)
ice_failed_twice peer_id s pc there direct real =
    let s₁ = on_ice_state peer_id failed s in
    let pc₁ = record pc { ice_state = failed; relay_only = true; restarts = pc.restarts + 1 } in
    let first = get-on_failed-direct peer_id s pc there direct in
    let second = on_failed-found peer_id s₁ pc₁ first in
    let gone =
      get-close_peer_connection peer_id
        (change_pc peer_id (λ c. record c { ice_state = failed }) s₁) real in
    (first, rw second gone.0, rw second gone.1)
