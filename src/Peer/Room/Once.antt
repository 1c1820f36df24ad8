-- ===== src/Peer/Room/Once.antt =====
-- What the set of the seen ids keeps out of the public room (src/services/PeerService.ts, lines 683-735 and
-- 873-959).
use mathlib.Core.Path.{subst}
use mathlib.Core.List.{append_assoc}
use nonetchat_web.Prelude.{
  ◌+◌, ◌<◌, sym, Option-cases, ℕ, ◌-◌, zero, suc, String, ◌≡◌, refl, ◌≤◌, Bool, true, false, ◌||◌,
  Option, none, some, List, [], ◌∷◌, ◌++◌, ◌==◌, eq_iff, arith, length, drop, length-drop,
  length-append, Bool-cases, inl, inr, ap, ◌∙◌, ltb, truthy,
}
use nonetchat_web.Prelude.Dict
use nonetchat_web.Prelude.StrSet
use nonetchat_web.Prelude.StrSet.{mem-append}
use nonetchat_web.Peer.State.{Peer, Channel, Packet, Draw, Event, public_message, is_open}
use nonetchat_web.Peer.Room.{
  trim_seen_public, seen_limit, attempt, try_send, try_neighbor, retransmit, send_all, is_accepted,
  on_public_message, note_message, pass_on, broadcast_to_public_room, new_packet,
}

-- What sending on public channels leaves alone.
abbrev pub view : Peer → List String × List Event × Option String × List String
view s = (s.seen_public_messages, s.events, s.public_room_id, s.block_list)

view-try_send :
    (n : String) (m : Packet) (o : Option Channel) (s : Peer) → view (try_send n m o s).1 ≡ view s
view-try_send n m none s = refl
view-try_send n m (some dc) s = elim (Bool-cases (is_open dc.ready_state)) [
  | inr shut ↦ rw shut refl
  | inl ready ↦ rw ready (view-attempt dc.full)
]
  where
    view-attempt : (full : Bool) → view (attempt n m dc s full).1 ≡ view s
    view-attempt true = refl
    view-attempt false = refl

view-retransmit :
    (from : String) (m : Packet) (ns : List String) (s : Peer)
    → view (retransmit from m ns s) ≡ view s
unfolding retransmit
view-retransmit from m [] s = refl
view-retransmit from m (n ∷ ns) s = elim (Bool-cases (n == from || n == m.origin)) [
  | inl skip ↦ rw skip (view-retransmit from m ns s)
  | inr send ↦
      let r = try_neighbor n m s in
      let same = view-try_send n m (Dict.get n s.public_data_channels) s in
      rw send (elim (Bool-cases r.0) [
        | inl threw ↦ rw threw same
        | inr went ↦ rw went (view-retransmit from m ns r.1 ∙ same)
      ])
]

view-send_all : (m : Packet) (ns : List String) (s : Peer) → view (send_all m ns s) ≡ view s
unfolding send_all
view-send_all m [] s = refl
view-send_all m (n ∷ ns) s =
    view-send_all m ns (try_neighbor n m s).1
    ∙ view-try_send n m (Dict.get n s.public_data_channels) s

-- The id is in the list, with at most `n` ids after it.
IsRecent : String → ℕ → List String → Type 0
IsRecent k n xs =
    (before : List String) × (after : List String) × (xs ≡ before ++ k ∷ after) × (length after ≤ n)

mem-IsRecent : (k : String) (n : ℕ) (xs : List String) → IsRecent k n xs → StrSet.mem k xs ≡ true
unfolding IsRecent StrSet.mem
mem-IsRecent k n xs (before, after, e, few) =
    rw e (mem-append k before (k ∷ after) ∙ ground (arith, eq_iff k k))

later-IsRecent : (k : String) (n : ℕ) (xs : List String) → IsRecent k n xs → IsRecent k (n + 1) xs
unfolding IsRecent
later-IsRecent k n xs (before, after, e, few) = (before, after, e, omega (arith, few))

drop-append_short :
    (n : ℕ) (xs ys : List String) → n ≤ length xs → drop n (xs ++ ys) ≡ drop n xs ++ ys
drop-append_short zero [] ys h = refl
drop-append_short zero (x ∷ xs) ys h = refl
drop-append_short (suc n) [] ys h = ground arith
drop-append_short (suc n) (x ∷ xs) ys h = drop-append_short n xs ys (omega (arith, h))

add-IsRecent :
    (k new : String) (n : ℕ) (xs : List String)
    → IsRecent k n xs
    → IsRecent k (n + 1) (StrSet.add new xs)
unfolding IsRecent StrSet.add
add-IsRecent k new n xs (before, after, e, few) = elim (Bool-cases (StrSet.mem new xs)) [
  | inl old ↦ rw old (before, after, e, omega (arith, few))
  | inr fresh ↦ rw fresh (
    before,
    after ++ new ∷ [],
    rw e (append_assoc before (k ∷ after) (new ∷ [])),
    omega (arith, length-append after (new ∷ []), few),
  )
]

add_new-IsRecent :
    (k : String) (xs : List String) → StrSet.mem k xs ≡ false → IsRecent k 0 (StrSet.add k xs)
unfolding IsRecent StrSet.add
add_new-IsRecent k xs new = rw new (xs, [], refl, ground arith)

-- Trimming takes the oldest ids.
trim-IsRecent :
    (k : String) (n : ℕ) (xs : List String)
    → n < seen_limit
    → IsRecent k n xs
    → IsRecent k n (trim_seen_public xs)
unfolding IsRecent trim_seen_public
trim-IsRecent k n xs within (before, after, e, few) =
    let over = length xs - seen_limit in
    let all : length xs ≡ length before + (length after + 1) =
      ap length e ∙ length-append before (k ∷ after) ∙ omega arith in
    (
      drop over before,
      after,
      ap (drop over) e
          ∙ drop-append_short over before (k ∷ after) (omega (arith, all, few, within)),
      few,
    )

view-pass_on : (from : String) (m : Packet) (s : Peer) → view (pass_on from m s) ≡ view s
view-pass_on from m s = elim (Bool-cases (ltb 0 m.ttl)) [
  | inl more ↦ rw more (view-retransmit from (record m { ttl = m.ttl - 1 }) s.public_neighbors s)
  | inr over ↦ rw over refl
]

-- A message whose id has been seen changes nothing.
seen_is_dropped :
    (from : String) (m : Packet) (s : Peer)
    → StrSet.mem m.id s.seen_public_messages ≡ true
    → on_public_message from m s ≡ s
unfolding on_public_message is_accepted
seen_is_dropped from m s old = ground arith

-- What may happen in a room: a message comes from a peer, or the peer says something itself.
pub data RoomEvent : Type 0 where
  incoming : String → Packet → RoomEvent
  spoken : String → Draw → RoomEvent

abbrev pub take_part : RoomEvent → Peer → Peer
take_part (incoming from m) s = on_public_message from m s
take_part (spoken content d) s = broadcast_to_public_room content d s

abbrev pub take_part_all : List RoomEvent → Peer → Peer
take_part_all [] s = s
take_part_all (e ∷ es) s = take_part_all es (take_part e s)

seen-on_public_message :
    (from : String) (m : Packet) (s : Peer)
    → is_accepted from m s ≡ true
    → (on_public_message from m s).seen_public_messages
      ≡ trim_seen_public (StrSet.add m.id s.seen_public_messages)
unfolding on_public_message
seen-on_public_message from m s taken =
    rw taken (ap (λ v. v.0) (view-pass_on from m (note_message m s)))

seen-broadcast :
    (content room : String) (d : Draw) (s : Peer)
    → truthy s.public_room_id ≡ some room
    → (broadcast_to_public_room content d s).seen_public_messages
      ≡ StrSet.add d.uuid s.seen_public_messages
unfolding broadcast_to_public_room
seen-broadcast content room d s inside =
    let m = new_packet room content d s in
    rw inside (
      ap (λ v. v.0)
        (view-send_all m s.public_neighbors (record s {
          seen_public_messages = StrSet.add m.id s.seen_public_messages;
          events = s.events ++ public_message m ∷ [];
        })))

module _ (k : String) where
  take_part-IsRecent :
      (e : RoomEvent) (n : ℕ) (s : Peer)
      → n + 1 < seen_limit
      → IsRecent k n s.seen_public_messages
      → IsRecent k (n + 1) (take_part e s).seen_public_messages
  take_part-IsRecent (incoming from m) n s within seen = elim (Bool-cases (is_accepted from m s)) [
    | inl taken ↦ subst (IsRecent k (n + 1)) (sym (seen-on_public_message from m s taken)) (
        trim-IsRecent k (n + 1) (StrSet.add m.id s.seen_public_messages) within
          (add-IsRecent k m.id n s.seen_public_messages seen))
    | inr refused ↦
        unfold on_public_message in rw refused (later-IsRecent k n s.seen_public_messages seen)
  ]
  take_part-IsRecent (spoken content d) n s within seen =
      elim (Option-cases (truthy s.public_room_id)) [
        | inr (room, inside) ↦
            subst (IsRecent k (n + 1)) (sym (seen-broadcast content room d s inside))
              (add-IsRecent k d.uuid n s.seen_public_messages seen)
        | inl outside ↦
            unfold broadcast_to_public_room in
            rw outside (later-IsRecent k n s.seen_public_messages seen)
      ]

  still_seen :
      (es : List RoomEvent) (n : ℕ) (s : Peer)
      → n + length es < seen_limit
      → IsRecent k n s.seen_public_messages
      → StrSet.mem k (take_part_all es s).seen_public_messages ≡ true
  still_seen [] n s within seen = mem-IsRecent k n s.seen_public_messages seen
  still_seen (e ∷ es) n s within seen =
      still_seen es (n + 1) (take_part e s) (omega (arith, within))
        (take_part-IsRecent e n s (omega (arith, within)) seen)

-- After a public message was shown, the same message, from any peer and with any hop count left,
-- changes nothing while at most 2047 public messages, of others or own, have come in between and
-- nothing else has: it is neither shown again nor passed on again.
pub on_public_message_once :
    (from again : String) (m : Packet) (ttl : ℕ) (between : List RoomEvent) (s : Peer)
    → is_accepted from m s ≡ true
    → length between ≤ 2047
    → let t = take_part_all between (on_public_message from m s) in
      on_public_message again (record m { ttl = ttl }) t ≡ t
on_public_message_once from again m ttl between s taken few =
    let t = on_public_message from m s in
    seen_is_dropped again (record m { ttl = ttl }) (take_part_all between t)
      (still_seen m.id between 0 t (omega (arith, few)) (
        subst (IsRecent m.id 0) (sym (seen-on_public_message from m s taken)) (
          trim-IsRecent m.id 0 (StrSet.add m.id s.seen_public_messages) (omega arith)
            (add_new-IsRecent m.id s.seen_public_messages (unfold is_accepted in ground arith)))))

-- A peer's own message that comes back to it, from any peer and with any hop count, changes nothing
-- while at most 2047 public messages, of others or own, have come in between and nothing else has.
-- The peer is in a room, and the id of the message is new to it.
pub broadcast_is_not_shown_again :
    (content room from : String) (ttl : ℕ) (d : Draw) (between : List RoomEvent) (s : Peer)
    → truthy s.public_room_id ≡ some room
    → StrSet.mem d.uuid s.seen_public_messages ≡ false
    → length between ≤ 2047
    → let t = take_part_all between (broadcast_to_public_room content d s) in
      on_public_message from (record (new_packet room content d s) { ttl = ttl }) t ≡ t
broadcast_is_not_shown_again content room from ttl d between s inside new few =
    let t = broadcast_to_public_room content d s in
    seen_is_dropped from (record (new_packet room content d s) { ttl = ttl })
      (take_part_all between t)
      (still_seen d.uuid between 0 t (omega (arith, few)) (
        subst (IsRecent d.uuid 0) (sym (seen-broadcast content room d s inside))
          (add_new-IsRecent d.uuid s.seen_public_messages new)))

-- Whatever comes in, the set of seen ids has at most 2048 ids after it if it had before.
pub seen_within_limit :
    (from : String) (m : Packet) (s : Peer)
    → length s.seen_public_messages ≤ seen_limit
    → length (on_public_message from m s).seen_public_messages ≤ seen_limit
unfolding on_public_message
seen_within_limit from m s within = elim (Bool-cases (is_accepted from m s)) [
  | inl taken ↦
      let added = StrSet.add m.id s.seen_public_messages in
      rw taken (
        rw (ap (λ v. v.0) (view-pass_on from m (note_message m s)))
          (unfold trim_seen_public in omega (arith, length-drop (length added - seen_limit) added)))
  | inr refused ↦ rw refused within
]
