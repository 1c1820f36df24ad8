-- ===== src/Server/Discovery/Rooms.antt =====
-- The rooms that the server gives by distance, as the clients read them (src/server/server.js, lines 821-834,
-- and src/services/PeerService.ts, lines 900-922).
use nonetchat_web.Prelude.{
  ℕ, ◌≤◌, String, ◌≡◌, refl, some, true, false, List, [], ◌∷◌, ◌++◌, eq_iff, arith, ap, ◌∙◌, sym,
  nat_eq, starts_with, All, Bool-cases, inl, inr, ◌⊎◌, ltb,
}
use Prim.Native.Char.{Char, code}
use Prim.Native.String.{[] as empty, ◌∷◌ as ◌&◌, ◌++◌ as ◌⧺◌}
use text.Mathlib.TextEquality.{starts_with_iff}
use text.Mathlib.TextLemmas.{nil-append, cons-append, append_assoc}
use nonetchat_web.Prelude.TextParts.{
  chars, text_of_chars, split, plus, parse_int_after_first, parse_int, digits,
}
use nonetchat_web.Peer.Room.{kilometre_room, kilometre_parts, km_prefix, sees}
use nonetchat_web.Server.State.{World, Location}
use nonetchat_web.Server.Discovery.{km_room_id, precision_of, precision_text}

chars-append : (a b : String) → chars (a ⧺ b) ≡ chars a ++ chars b
chars-append empty b = ap chars (nil-append b)
chars-append (c & a) b = ap chars (cons-append c a b) ∙ ap (◌∷◌ c) (chars-append a b)

text_of_chars-chars : (a : String) → text_of_chars (chars a) ≡ a
text_of_chars-chars empty = refl
text_of_chars-chars (c & a) = ap (◌&◌ c) (text_of_chars-chars a)

-- A text with no colon, as every geohash is.
abbrev pub HasNoColon : String → Type 0
HasNoColon t = All (λ c. nat_eq (code c) 58 ≡ false) (chars t)

split-one : (cs : List Char) → All (λ c. nat_eq (code c) 58 ≡ false) cs → split 58 cs ≡ cs ∷ []
unfolding split
split-one [] h = refl
split-one (c ∷ cs) h = rw h.0 (rw (split-one cs h.1) refl)

abbrev room_text : String → String → String
room_text p hash = "group:km:p" ⧺ (p ⧺ (":" ⧺ hash))

chars-room_text :
    (p hash : String)
    → chars (room_text p hash) ≡ chars "group:km:p" ++ (chars p ++ (chars ":" ++ chars hash))
chars-room_text p hash =
    chars-append "group:km:p" (p ⧺ (":" ⧺ hash))
    ∙ ap (λ cs. chars "group:km:p" ++ cs)
        (chars-append p (":" ⧺ hash) ∙ ap (λ cs. chars p ++ cs) (chars-append ":" hash))

starts_with-room_text : (p hash : String) → starts_with (room_text p hash) km_prefix ≡ true
starts_with-room_text p hash =
    (starts_with_iff (room_text p hash) km_prefix).1
      ("p" ⧺ (p ⧺ (":" ⧺ hash)), sym (append_assoc "group:km:" "p" (p ⧺ (":" ⧺ hash))))

by_parts :
    (p hash : String)
    → kilometre_room (room_text p hash)
      ≡ kilometre_parts (split 58 (chars "group:km:p" ++ (chars p ++ (chars ":" ++ chars hash))))
unfolding kilometre_room
by_parts p hash =
    rw (starts_with-room_text p hash)
      (ap (λ cs. kilometre_parts (split 58 cs)) (chars-room_text p hash))

-- A precision that is in use.
abbrev IsPrecision : ℕ → Type 0
IsPrecision n = (n ≡ 7) ⊎ ((n ≡ 6) ⊎ ((n ≡ 5) ⊎ ((n ≡ 4) ⊎ (n ≡ 3))))

precision_of-IsPrecision : (radius : ℕ) → IsPrecision (precision_of radius)
unfolding precision_of
precision_of-IsPrecision radius = ground arith

-- The clients read the precision and the geohash of such a room.
parsed :
    (n : ℕ) (hash : String)
    → IsPrecision n
    → HasNoColon hash
    → kilometre_room (room_text (precision_text n) hash) ≡ some (some (plus n), hash)
unfolding split parse_int_after_first parse_int digits
parsed n hash p h =
    let one = split-one (chars hash) h in
    let back = text_of_chars-chars hash in
    elim p [
      | inl e ↦ rw e (by_parts "7" hash ∙ rw one (rw back refl))
      | inr (inl e) ↦ rw e (by_parts "6" hash ∙ rw one (rw back refl))
      | inr (inr (inl e)) ↦ rw e (by_parts "5" hash ∙ rw one (rw back refl))
      | inr (inr (inr (inl e))) ↦ rw e (by_parts "4" hash ∙ rw one (rw back refl))
      | inr (inr (inr (inr e))) ↦ rw e (by_parts "3" hash ∙ rw one (rw back refl))
    ]

precision_of_antitone : (r r' : ℕ) → r ≤ r' → precision_of r' ≤ precision_of r
unfolding precision_of
precision_of_antitone r r' h = ground (arith, h)

module _ (w : World) (colonless : (x y p : ℕ) → HasNoColon (w.geohash x y p))
    (nested : (x y p q : ℕ) → p ≤ q → starts_with (w.geohash x y q) (w.geohash x y p) ≡ true) where
  -- The room by distance that the server gives is read by the clients as its precision and geohash.
  pub kilometre_room-km_room_id :
      (radius : ℕ) (l : Location)
      → kilometre_room (km_room_id w radius l)
        ≡ some (
          some (plus (precision_of radius)),
          w.geohash l.latitude l.longitude (precision_of radius),
        )
  unfolding km_room_id
  kilometre_room-km_room_id radius l =
      parsed (precision_of radius) (w.geohash l.latitude l.longitude (precision_of radius))
        (precision_of-IsPrecision radius) (colonless l.latitude l.longitude (precision_of radius))

  same_precision :
      (r r' : ℕ) (l : Location)
      → precision_of r ≡ precision_of r'
      → km_room_id w r l ≡ km_room_id w r' l
  unfolding km_room_id
  same_precision r r' l e =
      ap (λ n. room_text (precision_text n) (w.geohash l.latitude l.longitude n)) e

  -- At one place, a client with a radius sees what is said in the room of any smaller radius. A
  -- geohash has no colon, and a shorter one of a place is the start of a longer one.
  pub sees-km_room_id :
      (r r' : ℕ) (l : Location) → r ≤ r' → sees (km_room_id w r' l) (km_room_id w r l) ≡ true
  unfolding sees
  sees-km_room_id r r' l h = elim (Bool-cases (ltb (precision_of r') (precision_of r))) [
    | inl less ↦
        let prefix =
          nested l.latitude l.longitude (precision_of r') (precision_of r)
            (precision_of_antitone r r' h) in
        rw (kilometre_room-km_room_id r l, kilometre_room-km_room_id r' l)
          (ground (arith, less, prefix))
    | inr same ↦
        let equal : precision_of r ≡ precision_of r' =
          ground (arith, same, precision_of_antitone r r' h) in
        let rooms = same_precision r r' l equal in
        ground (arith, eq_iff (km_room_id w r' l) (km_room_id w r l), rooms)
  ]
