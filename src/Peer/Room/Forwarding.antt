-- ===== src/Peer/Room/Forwarding.antt =====
-- To whom a message of the public room is passed on.
use nonetchat_web.Prelude.{
  ◌-◌, String, ◌≡◌, refl, ◌⊎◌, Bool, true, false, ◌||◌, Option, none, some, List, [], ◌∷◌, ◌++◌,
  ◌==◌, eq_iff, arith, Bool-cases, inl, inr, sym, ◌∙◌, ltb,
}
use nonetchat_web.Prelude.Dict
use nonetchat_web.Prelude.Dict.{get-set}
use nonetchat_web.Prelude.StrSet
use nonetchat_web.Prelude.StrSet.{Distinct}
use nonetchat_web.Peer.State.{Peer, Channel, Packet, public_frame, is_open}
use nonetchat_web.Peer.Room.{
  attempt, try_send, try_neighbor, put_frame, retransmit, on_public_message, is_accepted,
  note_message,
}

-- The channel with one more frame.
abbrev pub with_frame : Packet → Channel → Channel
with_frame m c = record c { frames = c.frames ++ public_frame m ∷ [] }

-- The channel to `k` has got the message: it was open, and the message is its last frame.
abbrev pub Got : String → Packet → Peer → Peer → Type 0
Got k m s t =
    (c : Channel) × (Dict.get k s.public_data_channels ≡ some c)
    × (is_open c.ready_state ≡ true)
    × (Dict.get k t.public_data_channels ≡ some (with_frame m c))

abbrev Same : String → Peer → Peer → Type 0
Same k s t = Dict.get k t.public_data_channels ≡ Dict.get k s.public_data_channels

module _ (k : String) (m : Packet) where
  get-try_send :
      (n : String) (o : Option Channel) (s : Peer)
      → Dict.get n s.public_data_channels ≡ o
      → Same k s (try_send n m o s).1 ⊎ ((n ≡ k) × Got k m s (try_send n m o s).1)
  get-try_send n none s e = inl refl
  get-try_send n (some dc) s e = elim (Bool-cases (is_open dc.ready_state)) [
    | inr shut ↦ rw shut (inl refl)
    | inl ready ↦ rw ready (attempted dc.full ready)
  ]
    where
      went :
          ((n == k) ≡ true) ⊎ ((n == k) ≡ false)
          → is_open dc.ready_state ≡ true
          → Same k s (put_frame n m dc s) ⊎ ((n ≡ k) × Got k m s (put_frame n m dc s))
      went (inl same) ready =
          let n_k : n ≡ k = (eq_iff n k).0 same in
          inr (
            n_k,
            (
              dc,
              rw (← n_k) e,
              ready,
              get-set k n (with_frame m dc) s.public_data_channels ∙ rw same refl,
            ),
          )
      went (inr other) ready =
          inl (get-set k n (with_frame m dc) s.public_data_channels ∙ rw other refl)

      attempted :
          (full : Bool)
          → is_open dc.ready_state ≡ true
          → Same k s (attempt n m dc s full).1 ⊎ ((n ≡ k) × Got k m s (attempt n m dc s full).1)
      attempted true ready = inl refl
      attempted false ready = went (Bool-cases (n == k)) ready

  get-try_neighbor :
      (n : String) (s : Peer)
      → Same k s (try_neighbor n m s).1 ⊎ ((n ≡ k) × Got k m s (try_neighbor n m s).1)
  get-try_neighbor n s = get-try_send n (Dict.get n s.public_data_channels) s refl

  module _ (from : String) where
    not_listed :
        (ns : List String) (s : Peer) → StrSet.mem k ns ≡ false → Same k s (retransmit from m ns s)
    unfolding retransmit StrSet.mem
    not_listed [] s h = refl
    not_listed (n ∷ ns) s h = elim (Bool-cases (n == from || n == m.origin)) [
      | inl skip ↦ rw skip (not_listed ns s (ground arith))
      | inr send ↦
          let r = try_neighbor n m s in
          let same : Same k s r.1 = elim (get-try_neighbor n s) [
            | inl e ↦ e
            | inr (n_k, _) ↦ ground (arith, eq_iff n k)
          ] in
          rw send (elim (Bool-cases r.0) [
            | inl threw ↦ rw threw same
            | inr went ↦ rw went (not_listed ns r.1 (ground arith) ∙ same)
          ])
    ]

    get-retransmit :
        (ns : List String) (s : Peer)
        → Distinct ns
        → Same k s (retransmit from m ns s)
          ⊎ (((k == from || k == m.origin) ≡ false)
              × (StrSet.mem k ns ≡ true)
              × Got k m s (retransmit from m ns s))
    unfolding retransmit StrSet.mem
    get-retransmit [] s d = inl refl
    get-retransmit (n ∷ ns) s (new, d) = elim (Bool-cases (n == from || n == m.origin)) [
      | inl skip ↦ rw skip (elim (get-retransmit ns s d) [
        | inl same ↦ inl same
        | inr (far, listed, got) ↦ inr (far, ground arith, got)
      ])
      | inr send ↦
          let r = try_neighbor n m s in
          rw send (elim (Bool-cases r.0) [
            | inl threw ↦ rw threw (elim (get-try_neighbor n s) [
              | inl same ↦ inl same
              | inr (n_k, got) ↦ inr (rw (← n_k) send, ground (arith, eq_iff n k), got)
            ])
            | inr went ↦ rw went (elim (get-try_neighbor n s) [
              | inr (n_k, (c, there, ready, got)) ↦ inr (
                rw (← n_k) send,
                ground (arith, eq_iff n k),
                (c, there, ready, not_listed ns r.1 (rw (← n_k) new) ∙ got),
              )
              | inl same ↦ elim (get-retransmit ns r.1 d) [
                | inl later ↦ inl (later ∙ same)
                | inr (far, listed, (c, there, ready, got)) ↦
                    inr (far, ground arith, (c, sym same ∙ there, ready, got))
              ]
            ])
          ])
    ]

-- A message that comes in changes no public channel but in one way: a neighbour other than the sender
-- and the author, with an open channel, gets the message once, with one hop less left, and only
-- where there was a hop left. The neighbours are a set.
pub get-on_public_message :
    (k from : String) (m : Packet) (s : Peer)
    → Distinct s.public_neighbors
    → (Dict.get k (on_public_message from m s).public_data_channels
        ≡ Dict.get k s.public_data_channels)
      ⊎ ((ltb 0 m.ttl ≡ true)
          × ((k == from || k == m.origin) ≡ false)
          × (StrSet.mem k s.public_neighbors ≡ true)
          × Got k (record m { ttl = m.ttl - 1 }) s (on_public_message from m s))
unfolding on_public_message
get-on_public_message k from m s d = elim (Bool-cases (is_accepted from m s)) [
  | inr refused ↦ rw refused (inl refl)
  | inl taken ↦ elim (Bool-cases (ltb 0 m.ttl)) [
    | inr over ↦ rw taken (rw over (inl refl))
    | inl more ↦ rw taken (
        rw more
          (elim (get-retransmit k (record m { ttl = m.ttl - 1 }) from s.public_neighbors
            (note_message m s) d) [
              | inl same ↦ inl same
              | inr (far, listed, got) ↦ inr (refl, far, listed, got)
            ]))
  ]
]
