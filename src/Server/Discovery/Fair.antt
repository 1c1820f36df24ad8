-- ===== src/Server/Discovery/Fair.antt =====
-- What a broadcast writes, and to whom (src/server/server.js, lines 777-781 and 843-1002).
use nonetchat_web.Prelude.{
  ℕ, ◌⊎◌, ◌++◌, Member, true, false, String, ◌≡◌, ◌≢◌, refl, true, some, List, [], ◌∷◌, ◌==◌,
  eq_iff, arith, ap, sym, ◌∙◌, All, All-imp, Bool-cases, inl, inr,
}
use mathlib.Core.Path.{subst}
use mathlib.Core.List.{append_assoc, append-nil}
use nonetchat_web.Prelude.Dict
use nonetchat_web.Prelude.Dict.{Dict}
use nonetchat_web.Prelude.Keys.{DistinctKeys}
use nonetchat_web.Server.State.{
  Server, Client, Effect, ListedPeer, is_ready, wrote, nearby_peers, World, send_to,
}
use nonetchat_web.Server.Discovery.{
  Chance, broadcast_to, broadcast_peer_updates, peers_of, get_public_room_info,
}
use nonetchat_web.Server.Discovery.Listed.{IsListing, IsOther}
use nonetchat_web.Server.Discovery.Sample.{peers_of-IsListing}

-- A list of nearby peers, on the socket of a registered client: it names registered clients other than
-- that one, and none of them twice.
abbrev pub IsFair : Server → Effect → Type 0
IsFair s (wrote ws (nearby_peers ps room label t)) =
    (self : String) × (c : Client) × (Dict.get self s.clients ≡ some c)
    × (c.ws ≡ ws)
    × IsListing (IsOther s self) ps
IsFair s _ = ⊥

distinct_entries :
    (m : Dict Client) → DistinctKeys m → All (λ (e : String × Client). Dict.get e.0 m ≡ some e.1) m
unfolding Dict.get
distinct_entries [] d = tt
distinct_entries ((k, v) ∷ m) (new, d) =
    (ground (arith, eq_iff k k), All-imp m (λ e h. later e h) (distinct_entries m d))
  where
    later : (e : String × Client) → Dict.get e.0 m ≡ some e.1 → Dict.get e.0 ((k, v) ∷ m) ≡ some e.1
    later e h = elim (Bool-cases (k == e.0)) [
      | inr other ↦ rw other h
      | inl same ↦ absurd (ground (arith, h, ap (λ x. Dict.get x m) ((eq_iff k e.0).0 same), new))
    ]

-- The socket of a client is not open, or a list is among what was written to it.
abbrev pub IsTold : Server → List Effect → Client → Type 0
IsTold s new c =
    (is_ready c.ws s ≡ false)
    ⊎ ((ps : List ListedPeer) × (room : String) × (label : String) × (now : ℕ) × Member
          (wrote c.ws (nearby_peers ps room label now)) new)

-- From `t` to `u` only the log changes: by fair lists for the clients of `s`, and the clients in `cs`
-- are told.
abbrev pub IsBroadcast : Server → List (String × Client) → Server → Server → Type 0
IsBroadcast s cs t u =
    (new : List Effect) × (u ≡ record t { log = t.log ++ new })
    × All (IsFair s) new
    × All (λ (e : String × Client). IsTold t new e.1) cs

IsTold-later :
    (t : Server) (e : Effect) (new : List Effect) (c : Client)
    → IsTold t new c
    → IsTold t (e ∷ new) c
IsTold-later t e new c (inl shut) = inl shut
IsTold-later t e new c (inr (ps, room, label, now, m)) = inr (ps, room, label, now, inr m)

module _ (w : World) (h : Chance) (s : Server) (d : DistinctKeys s.clients) where
  listed_for :
      (t : Server) (self : String) (me : Client)
      → t.clients ≡ s.clients
      → IsListing (IsOther s self) (peers_of w h t self me)
  listed_for t self me same =
      subst (λ m. IsListing (λ id. (id ≢ self) × (Dict.has id m ≡ true)) (peers_of w h t self me))
        same (peers_of-IsListing w h t (subst DistinctKeys (sym same) d) self me)

  broadcast_to-IsBroadcast :
      (cs : List (String × Client)) (t : Server)
      → t.clients ≡ s.clients
      → All (λ (e : String × Client). Dict.get e.0 s.clients ≡ some e.1) cs
      → IsBroadcast s cs t (broadcast_to w h cs t)
  unfolding broadcast_to send_to
  broadcast_to-IsBroadcast [] t same there =
      ([], ap (λ l. record t { log = l }) (sym (append-nil t.log)), tt, tt)
  broadcast_to-IsBroadcast ((id, c) ∷ cs) t same there = elim (Bool-cases (is_ready c.ws t)) [
    | inr shut ↦ rw shut (
        let (new, e, fair, told) = broadcast_to-IsBroadcast cs t same there.1 in
        (new, e, fair, (inl refl, told)))
    | inl ready ↦
        let room = get_public_room_info w c in
        let ps = peers_of w h t id c in
        let out = wrote c.ws (nearby_peers ps room.0 room.1 h.now) in
        let (new, e, fair, told) =
          broadcast_to-IsBroadcast cs (record t { log = t.log ++ out ∷ [] }) same there.1 in
        rw ready (
          out ∷ new,
          e ∙ ap (λ l. record t { log = l }) (append_assoc t.log (out ∷ []) new),
          ((id, c, there.0, refl, listed_for t id c same), fair),
          (
            inr (ps, room.0, room.1, h.now, inl refl),
            All-imp cs (λ x k. IsTold-later t out new x.1 k) told,
          ),
        )
  ]

  pub broadcast_peer_updates-IsBroadcast : IsBroadcast s s.clients s (broadcast_peer_updates w h s)
  unfolding broadcast_peer_updates
  broadcast_peer_updates-IsBroadcast =
      broadcast_to-IsBroadcast s.clients s refl (distinct_entries s.clients d)
