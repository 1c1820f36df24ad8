-- ===== src/Peer/Links/Initiator.antt =====
-- Which of two peers makes the offer.
use nonetchat_web.Prelude.{ℕ, ◌≡◌, ◌≢◌, ◌⊎◌, false, [], ◌∷◌, ◌++◌, arith}
use nonetchat_web.Prelude.TextOrder.{text_lt-not}
use nonetchat_web.Prelude.Dict
use nonetchat_web.Peer.State.{Peer, offer_to}
use nonetchat_web.Peer.Links.{auto, create_peer_connection}

module _ (a b : Peer) (i j : ℕ) (different : a.my_id ≢ b.my_id) where
  -- Where two different peers, neither connected to the other, both start a connection in the role
  -- 'auto', exactly one of them sends an offer, and the other sends nothing to the server.
  pub one_peer_offers :
      Dict.has b.my_id a.peer_connections ≡ false
      → Dict.has a.my_id b.peer_connections ≡ false
      → let a₁ = create_peer_connection b.my_id auto i a in
        let b₁ = create_peer_connection a.my_id auto j b in
        ((a₁.to_server ≡ a.to_server ++ offer_to b.my_id ∷ []) × (b₁.to_server ≡ b.to_server))
        ⊎ ((a₁.to_server ≡ a.to_server) × (b₁.to_server ≡ b.to_server ++ offer_to a.my_id ∷ []))
  unfolding create_peer_connection
  one_peer_offers new_a new_b = ground (arith, text_lt-not a.my_id b.my_id different)
