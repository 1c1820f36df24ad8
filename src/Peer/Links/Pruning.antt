-- ===== src/Peer/Links/Pruning.antt =====
-- Which connections a tick of the pruning interval closes.
use nonetchat_web.Prelude.{
  ℕ, ◌+◌, ◌<◌, ◌≤◌, ◌≢◌, ◌⊎◌, Option, Bool, not, ◌&&◌, nat_eq, ltb, String, ◌≡◌, refl, true, false,
  none, some, List, [], ◌∷◌, ◌==◌, eq_iff, arith, if◌then◌else◌, Member, inl, inr, Bool-cases, ap,
  sym, ◌∙◌,
}
use nonetchat_web.Prelude.Dict
use nonetchat_web.Prelude.Dict.{Dict, get-delete}
use nonetchat_web.Peer.State.{Peer, Connection, IceState, connected, checking}
use nonetchat_web.Peer.Links.{
  close_peer_connection, is_agent, is_dead, is_stale, is_alive, prune_one, prune_all, prune,
}

-- Not seen, or not since a minute before `now`; a time of 0 counts as not seen.
abbrev pub IsUnseen : ℕ → Option ℕ → Type 0
IsUnseen now seen = (seen ≡ none) ⊎ ((t : ℕ) × (seen ≡ some t) × ((t ≡ 0) ⊎ (t + 60000 < now)))

abbrev pub IsSeen : ℕ → Option ℕ → Type 0
IsSeen now seen = (t : ℕ) × (seen ≡ some t) × (t ≢ 0) × (now ≤ t + 60000)

-- No longer of use, by when the peer was seen and by the ICE state.
abbrev pub IsOver : ℕ → Option ℕ → IceState → Type 0
IsOver now seen state = IsUnseen now seen × (state ≢ connected) × (state ≢ checking)

abbrev pub IsInUse : ℕ → Option ℕ → IceState → Type 0
IsInUse now seen state = (state ≡ connected) ⊎ ((state ≡ checking) ⊎ IsSeen now seen)

stale_cases :
    (now : ℕ) (o : Option ℕ)
    → ((is_stale now o ≡ true) × IsUnseen now o) ⊎ ((is_stale now o ≡ false) × IsSeen now o)
stale_cases now none = inl (refl, inl refl)
stale_cases now (some t) = elim (Bool-cases (nat_eq t 0)) [
  | inl zero ↦ inl (ground (arith, zero), inr (t, refl, inl (ground (arith, zero))))
  | inr known ↦ elim (Bool-cases (ltb (t + 60000) now)) [
    | inl late ↦ inl (ground (arith, known, late), inr (t, refl, inr (ground (arith, late))))
    | inr early ↦ inr (
      ground (arith, known, early),
      (t, refl, (λ e. ground (arith, e, known)), ground (arith, early)),
    )
  ]
]

alive_cases :
    (i : IceState)
    → ((is_alive i ≡ true) × ((i ≡ connected) ⊎ (i ≡ checking)))
      ⊎ ((is_alive i ≡ false) × (i ≢ connected) × (i ≢ checking))
alive_cases connected = inl (refl, inl refl)
alive_cases checking = inl (refl, inr refl)
alive_cases i = inr (refl, (λ e. cc), (λ e. cc))

dead_cases :
    (now : ℕ) (o : Option ℕ) (i : IceState)
    → ((is_stale now o && not (is_alive i) ≡ true) × IsOver now o i)
      ⊎ ((is_stale now o && not (is_alive i) ≡ false) × IsInUse now o i)
dead_cases now o i = elim (alive_cases i) [
  | inl (e, which) ↦ inr (rw e (stale_is_not_enough (is_stale now o)), in_use which)
  | inr (e, other, others) ↦ elim (stale_cases now o) [
    | inl (stale, unseen) ↦ inl (rw e (rw stale refl), (unseen, other, others))
    | inr (fresh, seen) ↦ inr (rw fresh refl, inr (inr seen))
  ]
]
  where
    stale_is_not_enough : (b : Bool) → (b && false) ≡ false
    stale_is_not_enough true = refl
    stale_is_not_enough false = refl

    in_use : (i ≡ connected) ⊎ (i ≡ checking) → IsInUse now o i
    in_use (inl e) = inl e
    in_use (inr e) = inr (inl e)

-- `Map.entries` lists each entry under its key.
Member-of_get :
    (j : String) (pc : Connection) (m : Dict Connection) → Dict.get j m ≡ some pc → Member (j, pc) m
unfolding Dict.get
Member-of_get j pc [] h = ground arith
Member-of_get j pc ((k, c) ∷ m) h = elim (Bool-cases (k == j)) [
  | inl same ↦ inl (ground (arith, eq_iff k j))
  | inr other ↦ inr (Member-of_get j pc m (ground arith))
]

module _ (now : ℕ) (j : String) (real : is_agent j ≡ false) where
  get-prune_one :
      (k : String) (c : Connection) (s : Peer)
      → Dict.get j (prune_one now (k, c) s).peer_connections ≡ (
          if k == j
          then (if is_dead now j c s then none else Dict.get j s.peer_connections)
          else (if is_dead now k c s
              then Dict.get j s.peer_connections
              else Dict.get j s.peer_connections))
  unfolding prune_one close_peer_connection Dict.has
  get-prune_one k c s = ground (arith, eq_iff k j, get-delete j k s.peer_connections)

  seen-prune_one :
      (k : String) (c : Connection) (s : Peer)
      → (k == j) ≡ false
      → Dict.get j (prune_one now (k, c) s).last_seen ≡ Dict.get j s.last_seen
  unfolding prune_one close_peer_connection
  seen-prune_one k c s other = ground (arith, get-delete j k s.last_seen)

  gone_stays :
      (es : List (String × Connection)) (s : Peer)
      → Dict.get j s.peer_connections ≡ none
      → Dict.get j (prune_all now es s).peer_connections ≡ none
  unfolding prune_all
  gone_stays [] s h = h
  gone_stays ((k, c) ∷ es) s h =
      gone_stays es (prune_one now (k, c) s) (ground (arith, get-prune_one k c s))

  prune_one-live :
      (k : String) (c : Connection) (s : Peer)
      → (k == j) ≡ true
      → is_dead now j c s ≡ false
      → prune_one now (k, c) s ≡ s
  unfolding prune_one
  prune_one-live k c s same live = ground (arith, eq_iff k j)

  dead_goes :
      (pc : Connection) (es : List (String × Connection)) (s : Peer)
      → Member (j, pc) es
      → is_dead now j pc s ≡ true
      → Dict.get j (prune_all now es s).peer_connections ≡ none
  unfolding prune_all
  dead_goes pc [] s m dead = elim m [ ]
  dead_goes pc ((k, c) ∷ es) s m dead = elim m [
    | inl e ↦ gone_stays es (prune_one now (k, c) s) (
        get-prune_one k c s
        ∙ rw (← ap (λ x. x.0) e) (rw (← ap (λ x. x.1) e) (rw dead (ground (arith, eq_iff j j)))))
    | inr later ↦ elim (Bool-cases (k == j)) [
      | inr other ↦
          dead_goes pc es (prune_one now (k, c) s) later
            (ground (arith, seen-prune_one k c s other))
      | inl same ↦ elim (Bool-cases (is_dead now j c s)) [
        | inl dead_c ↦
            gone_stays es (prune_one now (k, c) s) (get-prune_one k c s ∙ rw same (rw dead_c refl))
        | inr live ↦
            dead_goes pc es (prune_one now (k, c) s) later
              (ap (is_dead now j pc) (prune_one-live k c s same live) ∙ dead)
      ]
    ]
  ]

  live_stays :
      (pc : Connection) (es : List (String × Connection)) (s : Peer)
      → ((c : Connection) → Member (j, c) es → c ≡ pc)
      → is_dead now j pc s ≡ false
      → Dict.get j (prune_all now es s).peer_connections ≡ Dict.get j s.peer_connections
  unfolding prune_all
  live_stays pc [] s only live = refl
  live_stays pc ((k, c) ∷ es) s only live = elim (Bool-cases (k == j)) [
    | inl same ↦
        let e : k ≡ j = (eq_iff k j).0 same in
        let c_pc : c ≡ pc = only c (inl (ap (λ i. (i, c)) (sym e))) in
        let kept : prune_one now (k, c) s ≡ s = unfold prune_one in rw e (rw c_pc (rw live refl)) in
        ap (λ t. Dict.get j (prune_all now es t).peer_connections) kept
        ∙ live_stays pc es s (λ d m. only d (inr m)) live
    | inr other ↦
        live_stays pc es (prune_one now (k, c) s) (λ d m. only d (inr m))
          (ground (arith, seen-prune_one k c s other))
        ∙ ground (arith, get-prune_one k c s)
  ]

  -- One tick closes exactly the dead connections: of a peer that is not an AI agent and has one
  -- connection, either the peer was not seen in the last minute and its ICE state is neither
  -- 'connected' nor 'checking', and the connection is gone after the tick, or one of these is not so,
  -- and it stands as before.
  pub get-prune :
      (s : Peer) (pc : Connection)
      → Dict.get j s.peer_connections ≡ some pc
      → ((c : Connection) → Member (j, c) s.peer_connections → c ≡ pc)
      → let seen = Dict.get j s.last_seen in
        (IsOver now seen pc.ice_state × (Dict.get j (prune now s).peer_connections ≡ none))
        ⊎ (IsInUse now seen pc.ice_state × (Dict.get j (prune now s).peer_connections ≡ some pc))
  unfolding prune
  get-prune s pc there only = elim (dead_cases now (Dict.get j s.last_seen) pc.ice_state) [
    | inl (dead, over) ↦
        inl (
          over,
          dead_goes pc s.peer_connections s (Member-of_get j pc s.peer_connections there) dead,
        )
    | inr (live, used) ↦ inr (used, live_stays pc s.peer_connections s only live ∙ there)
  ]
