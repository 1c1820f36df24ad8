-- ===== src/Peer/Mesh/Bridges.antt =====
-- Which connections are left after the neighbours have been renewed.
use nonetchat_web.Prelude.{
  ℕ, ◌≤◌, String, ◌≡◌, refl, Bool, true, false, not, ◌&&◌, ◌||◌, some, List, [], ◌∷◌, ◌==◌, eq_iff,
  arith, length, length-take, take, filter, ap, sym, ◌∙◌,
}
use nonetchat_web.Prelude.Dict
use nonetchat_web.Prelude.Dict.{Dict, get-delete}
use nonetchat_web.Prelude.StrSet
use nonetchat_web.Prelude.StrSet.{mem-append, length-of_list-le}
use nonetchat_web.Prelude.Sort.{sort_by, insert_by, ascending}
use nonetchat_web.Peer.State.{Peer, Connection}
use nonetchat_web.Peer.Links.{close_peer_connection, is_agent}
use nonetchat_web.Peer.Mesh.{
  str_hash, in_ring, index_of, new_neighbors, connect_all, is_kept, is_bridge, is_stray, bridges,
  kept_bridges, to_close, close_all, update_public_neighbors, update_with, max_public_bridges,
}

pub mem-insert_by :
    (k x : String) (xs : List String)
    → StrSet.mem k (insert_by (ascending str_hash) x xs) ≡ (x == k || StrSet.mem k xs)
unfolding StrSet.mem insert_by
mem-insert_by k x [] = refl
mem-insert_by k x (y ∷ ys) = ground (arith, mem-insert_by k x ys)

-- Sorting keeps the members.
pub mem-sort_by :
    (k : String) (xs : List String)
    → StrSet.mem k (sort_by (ascending str_hash) xs) ≡ StrSet.mem k xs
unfolding StrSet.mem sort_by
mem-sort_by k [] = refl
mem-sort_by k (x ∷ xs) =
    mem-insert_by k x (sort_by (ascending str_hash) xs) ∙ ap (λ b. x == k || b) (mem-sort_by k xs)

pub mem-filter :
    (p : String → Bool) (k : String) (xs : List String)
    → StrSet.mem k (filter p xs) ≡ (p k && StrSet.mem k xs)
unfolding StrSet.mem
mem-filter p k [] = ground arith
mem-filter p k (x ∷ xs) = ground (arith, mem-filter p k xs, eq_iff x k)

mem-keys : (k : String) (m : Dict Connection) → StrSet.mem k (Dict.keys m) ≡ Dict.has k m
unfolding StrSet.mem Dict.keys Dict.has Dict.get
mem-keys k [] = refl
mem-keys k ((j, c) ∷ m) = ground (arith, mem-keys k m)

module _ (k : String) (real : is_agent k ≡ false) where
  get-close :
      (p : String) (s : Peer)
      → (Dict.has k (close_peer_connection p s).peer_connections
          ≡ (not (p == k) && Dict.has k s.peer_connections))
        × ((p == k) ≡ false
            → Dict.has k (close_peer_connection p s).data_channels ≡ Dict.has k s.data_channels)
  unfolding close_peer_connection Dict.has
  get-close p s = (
    ground (arith, get-delete k p s.peer_connections, eq_iff p k),
    λ other. ground (arith, get-delete k p s.data_channels),
  )

  get-close_all :
      (ps : List String) (s : Peer)
      → (Dict.has k (close_all ps s).peer_connections
          ≡ (not (StrSet.mem k ps) && Dict.has k s.peer_connections))
        × (StrSet.mem k ps ≡ false
            → Dict.has k (close_all ps s).data_channels ≡ Dict.has k s.data_channels)
  unfolding close_all StrSet.mem
  get-close_all [] s = (ground arith, λ h. refl)
  get-close_all (p ∷ ps) s =
      let rest = get-close_all ps (close_peer_connection p s) in
      let one = get-close p s in
      (rest.0 ∙ ground (arith, one.0), λ h. rest.1 (ground arith) ∙ one.1 (ground arith))

  mem-to_close :
      (neighbors : List String) (s : Peer)
      → StrSet.mem k (to_close neighbors s) ≡ (
          Dict.has k s.peer_connections
          && (not (is_kept neighbors s k)
              && not (is_bridge neighbors s k && StrSet.mem k (kept_bridges neighbors s))))
  mem-to_close neighbors s =
      let keys = Dict.keys s.peer_connections in
      let bridge = is_bridge neighbors s in
      let far : String → Bool = λ p. not (StrSet.mem p (kept_bridges neighbors s)) in
      mem-append k (filter (is_stray neighbors s) keys) (filter far (bridges neighbors s))
      ∙ (rw (mem-filter (is_stray neighbors s) k keys) (
          rw (mem-filter far k (bridges neighbors s)) (
            rw (mem-sort_by k (filter bridge keys))
              (rw (mem-filter bridge k keys) (rw (mem-keys k s.peer_connections) (ground arith))))))

  left-close_all :
      (ns : List String) (s : Peer)
      → Dict.has k (close_all (to_close ns s) s).peer_connections ≡ true
      → (StrSet.mem k ns
          || Dict.has k (close_all (to_close ns s) s).data_channels
          || StrSet.mem k (kept_bridges ns s))
        ≡ true
  left-close_all ns s left =
      let closed = get-close_all (to_close ns s) s in
      let open_to : StrSet.mem k (to_close ns s) ≡ false = ground (arith, closed.0) in
      rw (closed.1 open_to) (ground (arith, mem-to_close ns s, closed.0))

  -- A connection to a peer that is not an AI agent is left, where this peer is in its own list, only
  -- if the peer is a neighbour, has a chat channel, or is one of the bridges, of which there are at
  -- most three.
  pub left-update_public_neighbors :
      (id me : ℕ) (s : Peer)
      → index_of s.my_id (in_ring s.public_peers) ≡ some me
      → Dict.has k (update_public_neighbors id s).peer_connections ≡ true
      → let t = update_public_neighbors id s in
        let kept = kept_bridges (new_neighbors s) (connect_all (new_neighbors s) id s) in
        ((StrSet.mem k t.public_neighbors || Dict.has k t.data_channels || StrSet.mem k kept)
          ≡ true)
        × (length kept ≤ max_public_bridges)
  left-update_public_neighbors id me s listed left =
      let ns = new_neighbors s in
      let s₁ = connect_all ns id s in
      let run : update_public_neighbors id s ≡ update_with ns id (some me) s =
        unfold update_public_neighbors in ap (λ o. update_with ns id o s) listed in
      (
        rw run (left-close_all ns s₁ (ap (λ t. Dict.has k t.peer_connections) (sym run) ∙ left)),
        at_most_three (bridges ns s₁),
      )
    where
      at_most_three :
          (bs : List String)
          → length (StrSet.of_list (take max_public_bridges bs)) ≤ max_public_bridges
      at_most_three bs =
          omega (
            arith,
            length-of_list-le (take max_public_bridges bs),
            length-take max_public_bridges bs,
          )
