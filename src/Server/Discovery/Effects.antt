-- ===== src/Server/Discovery/Effects.antt =====
-- What a broadcast changes (src/server/server.js, lines 777-781 and 843-1002).
use nonetchat_web.Prelude.{
  ℕ, String, ◌≡◌, refl, List, [], ◌∷◌, ◌++◌, ◌∙◌, ap, All, Bool-cases, inl, inr, sym,
}
use mathlib.Core.List.{append_assoc, append-nil}
use nonetchat_web.Server.State.{
  Server, Client, Effect, wrote, ServerOut, nearby_peers, World, send_to, is_ready,
}
use nonetchat_web.Server.Discovery.{
  Chance, broadcast_to, broadcast_peer_updates, rebuild_geo_tree, peers_of, get_public_room_info,
}

-- Only the log changes, and what is added to it has the property.
abbrev pub Writes : (Effect → Type 0) → Server → Server → Type 0
Writes P s t = (new : List Effect) × (t ≡ record s { log = s.log ++ new }) × All P new

abbrev pub IsAnnouncement : Effect → Type 0
IsAnnouncement (wrote ws (nearby_peers ps id label t)) = Unit
IsAnnouncement _ = ⊥

module _ (P : Effect → Type 0) where
  pub All-append : (xs ys : List Effect) → All P xs → All P ys → All P (xs ++ ys)
  All-append [] ys h k = k
  All-append (x ∷ xs) ys h k = (h.0, All-append xs ys h.1 k)

  pub Writes-nothing : (s : Server) → Writes P s s
  Writes-nothing s = ([], ap (λ l. record s { log = l }) (sym (append-nil s.log)), tt)

  pub Writes-trans : (s t u : Server) → Writes P s t → Writes P t u → Writes P s u
  Writes-trans s t u (a, e, h) (b, f, k) = (
    a ++ b,
    f
        ∙ ap (λ (x : Server). record x { log = x.log ++ b }) e
        ∙ ap (λ l. record s { log = l }) (append_assoc s.log a b),
    All-append a b h k,
  )

  pub send_to-Writes :
      (ws : ℕ) (out : ServerOut) (s : Server) → P (wrote ws out) → Writes P s (send_to ws out s)
  unfolding send_to
  send_to-Writes ws out s h = elim (Bool-cases (is_ready ws s)) [
    | inl e ↦ rw e (wrote ws out ∷ [], refl, (h, tt))
    | inr e ↦ rw e (Writes-nothing s)
  ]

module _ (w : World) (h : Chance) where
  broadcast_to-Writes :
      (cs : List (String × Client)) (s : Server) → Writes IsAnnouncement s (broadcast_to w h cs s)
  unfolding broadcast_to
  broadcast_to-Writes [] s = Writes-nothing IsAnnouncement s
  broadcast_to-Writes ((id, c) ∷ cs) s =
      let room = get_public_room_info w c in
      let out = nearby_peers (peers_of w h s id c) room.0 room.1 h.now in
      Writes-trans IsAnnouncement s (send_to c.ws out s) (broadcast_to w h cs (send_to c.ws out s))
        (send_to-Writes IsAnnouncement c.ws out s tt) (broadcast_to-Writes cs (send_to c.ws out s))

  pub broadcast_peer_updates-Writes :
      (s : Server) → Writes IsAnnouncement s (broadcast_peer_updates w h s)
  unfolding broadcast_peer_updates
  broadcast_peer_updates-Writes s = broadcast_to-Writes s.clients s

  -- Everybody is told after the quadtree is built again; the clients and the sessions stay.
  pub announce_keeps :
      (s : Server)
      → let t = broadcast_peer_updates w h (rebuild_geo_tree s) in
        (t.clients ≡ s.clients) × (t.sessions ≡ s.sessions) × (t.ids ≡ s.ids)
  unfolding rebuild_geo_tree
  announce_keeps s =
      let e = (broadcast_peer_updates-Writes (rebuild_geo_tree s)).1 in
      (
        ap (λ (t : Server). t.clients) e,
        ap (λ (t : Server). t.sessions) e,
        ap (λ (t : Server). t.ids) e,
      )
