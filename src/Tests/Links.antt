-- ===== src/Tests/Links.antt =====
-- Examples for the connections and the mesh.
use nonetchat_web.Prelude.{
  ◌≡◌, refl, ◌⊎◌, inl, inr, true, false, not, ◌&&◌, ◌||◌, none, some, arith, ap, ◌≤◌, length,
  if◌then◌else◌, leb,
}
use nonetchat_web.Prelude.Dict
use nonetchat_web.Prelude.StrSet
use nonetchat_web.Store.Exec.{ok, write, transaction}
use nonetchat_web.Store.Tables.{add_to_block_list}
use nonetchat_web.Peer.State.{failed, checking}
use nonetchat_web.Peer.Links.{on_ice_state, ensure_chat_channel, block_peer, prune}
use nonetchat_web.Peer.Links.Blocking.{IsShielded}
use nonetchat_web.Peer.Links.Reach.{done, next, chat, block, steps-IsShielded}
use nonetchat_web.Peer.Links.Relay.{ice_failed_twice}
use nonetchat_web.Peer.Links.Pruning.{get-prune, IsOver, IsInUse}
use nonetchat_web.Peer.Mesh.{
  str_hash, hash_units, index_of, new_neighbors, connect_all, kept_bridges, close_all,
  update_public_neighbors, max_public_bridges, k_neighbors,
}
use nonetchat_web.Prelude.TextParts.{units, bit_xor}
use nonetchat_web.Prelude.Sort.{sort_by, insert_by}
use nonetchat_web.Peer.Mesh.Bridges.{left-update_public_neighbors}
use nonetchat_web.Peer.Mesh.Neighbors.{new_neighbors_are_others}
use nonetchat_web.Tests.{differ, joined, a_connection}

joined-IsShielded : IsShielded joined
unfolding StrSet.mem
joined-IsShielded = record { shut = λ j b a. ground arith }

block_is_stored : (add_to_block_list "b" joined.idb).0 ≡ ok tt
unfolding add_to_block_list write transaction
block_is_stored = refl

steps-IsShielded_example : IsShielded (ensure_chat_channel "b" 7 (block_peer "b" joined))
steps-IsShielded_example =
    steps-IsShielded (next (block "b" block_is_stored) (next (chat "b" 7) done)) joined-IsShielded

ice_failed_twice_example :
    let s₁ = on_ice_state "b" failed joined in
    let s₂ = on_ice_state "b" failed s₁ in
    (Dict.get "b" s₁.peer_connections
      ≡ some (record a_connection { ice_state = failed; relay_only = true; restarts = 1 }))
    × (Dict.get "b" s₂.peer_connections ≡ none)
    × (Dict.get "b" s₂.data_channels ≡ none)
unfolding Dict.get
ice_failed_twice_example = ice_failed_twice "b" joined a_connection refl refl refl

get-prune_example :
    (IsOver 100000 (Dict.get "b" joined.last_seen) checking
      × (Dict.get "b" (prune 100000 joined).peer_connections ≡ none))
    ⊎ (IsInUse 100000 (Dict.get "b" joined.last_seen) checking
        × (Dict.get "b" (prune 100000 joined).peer_connections ≡ some a_connection))
unfolding Dict.get
get-prune_example = get-prune 100000 "b" refl joined a_connection refl (λ c m. elim m [
  | inl e ↦ ap (λ x. x.1) e
  | inr later ↦ elim later [
    | inl e ↦ absurd (differ "b" "c" refl (ap (λ x. x.0) e))
    | inr more ↦ elim more [ ]
  ]
])

left-update_public_neighbors_example :
    let t = update_public_neighbors 1 joined in
    let kept = kept_bridges (new_neighbors joined) (connect_all (new_neighbors joined) 1 joined) in
    ((StrSet.mem "b" t.public_neighbors || Dict.has "b" t.data_channels || StrSet.mem "b" kept)
      ≡ true)
    × (length kept ≤ max_public_bridges)
unfolding index_of str_hash hash_units units bit_xor sort_by insert_by update_public_neighbors
    connect_all close_all new_neighbors StrSet.of_list StrSet.add StrSet.mem Dict.has Dict.get
    Dict.keys
left-update_public_neighbors_example = left-update_public_neighbors "b" refl 1 2 joined refl refl

new_neighbors_are_others_example :
    (StrSet.mem "m" (new_neighbors joined) ≡ false)
    × ((StrSet.mem "b" (new_neighbors joined) && not (StrSet.mem "b" joined.public_peers)) ≡ false)
    × (length (new_neighbors joined)
        ≤ (if leb (length joined.public_peers) k_neighbors then length joined.public_peers else 6))
unfolding StrSet.mem
new_neighbors_are_others_example = new_neighbors_are_others joined "b" (refl, (refl, (refl, tt)))
