-- ===== src/Peer/Mesh/Neighbors.antt =====
-- Who the neighbours of a peer are, and how many.
use native.Mathlib.Nat.{mod-eq_of_lt, mod-eq-sub-mod}
use nonetchat_web.Prelude.{
  ℕ, zero, suc, ◌+◌, ◌-◌, ◌*◌, ◌/◌, ◌%◌, ◌≤◌, ◌<◌, String, ◌≡◌, refl, ◌≢◌, ◌⊎◌, true, false, not,
  ◌&&◌, Option, none, some, List, [], ◌∷◌, ◌==◌, eq_iff, arith, leb, if◌then◌else◌, length,
  length-filter-le, get_elem?, filter, Bool-cases, inl, inr, ap, ◌∙◌,
}
use nonetchat_web.Prelude.StrSet
use nonetchat_web.Prelude.StrSet.{Distinct, mem-add, mem-of_list, length-add-le, length-of_list-le}
use nonetchat_web.Peer.State.{Peer}
use nonetchat_web.Prelude.Sort.{sort_by, insert_by, ascending, length-sort_by}
use nonetchat_web.Peer.Mesh.{
  str_hash, in_ring, index_of, add_at, both_sides, neighbors_at, new_neighbors, k_neighbors,
}
use nonetchat_web.Peer.Mesh.Bridges.{mem-insert_by, mem-sort_by, mem-filter}

length-add_at :
    (ring : List String) (i : ℕ) (s : List String) → length (add_at ring i s) ≤ length s + 1
length-add_at ring i s = go (get_elem? ring i)
  where
    go : (o : Option String) → length (elim o [ none ↦ s | some p ↦ StrSet.add p s ]) ≤ length s + 1
    go none = omega arith
    go (some p) = length-add-le p s

length-both_sides :
    (ring : List String) (me i left : ℕ) (s : List String)
    → length (both_sides ring me i left s) ≤ length s + 2 * left
unfolding both_sides
length-both_sides ring me i zero s = omega arith
length-both_sides ring me i (suc left) s =
    let n = length ring in
    let right = add_at ring ((me + i) % n) s in
    omega (
      arith,
      length-both_sides ring me (i + 1) left (add_at ring ((me + n - i) % n) right),
      length-add_at ring ((me + n - i) % n) right,
      length-add_at ring ((me + i) % n) s,
    )

mem_get :
    (p : String) (ring : List String) (i : ℕ) → get_elem? ring i ≡ some p → StrSet.mem p ring ≡ true
unfolding StrSet.mem
mem_get p [] i h = ground arith
mem_get p (x ∷ xs) zero h = ground (arith, eq_iff x p)
mem_get p (x ∷ xs) (suc i) h = ground (arith, mem_get p xs i h)

-- In a list without repetition an element has one index.
get_once :
    (p : String) (ring : List String) (i j : ℕ)
    → Distinct ring
    → get_elem? ring i ≡ some p
    → get_elem? ring j ≡ some p
    → i ≡ j
get_once p [] i j d h k = ground arith
get_once p (x ∷ xs) zero zero d h k = refl
get_once p (x ∷ xs) zero (suc j) d h k = ground (arith, mem_get p xs j k)
get_once p (x ∷ xs) (suc i) zero d h k = ground (arith, mem_get p xs i h)
get_once p (x ∷ xs) (suc i) (suc j) d h k = ap suc (get_once p xs i j d.1 h k)

wrap : (x n : ℕ) → x < n + n → (x % n ≡ x) ⊎ ((x % n ≡ x - n) × (n ≤ x))
wrap x n h = elim (Bool-cases (leb n x)) [
  | inl over ↦ inr (mod-eq-sub-mod (ground arith) ∙ mod-eq_of_lt (ground arith), ground arith)
  | inr under ↦ inl (mod-eq_of_lt (ground arith))
]

right_is_other : (me i n : ℕ) → me < n → 1 ≤ i → i < n → (me + i) % n ≢ me
right_is_other me i n h k l = ground (arith, wrap (me + i) n (omega (arith, h, l)))

left_is_other : (me i n : ℕ) → me < n → 1 ≤ i → i < n → (me + n - i) % n ≢ me
left_is_other me i n h k l = ground (arith, wrap (me + n - i) n (omega (arith, h, k)))

found :
    (p : String) (ring : List String) (me : ℕ)
    → index_of p ring ≡ some me
    → (get_elem? ring me ≡ some p) × (me < length ring)
unfolding index_of
found p [] me h = ground arith
found p (x ∷ xs) zero h = ground (arith, eq_iff x p)
found p (x ∷ xs) (suc me) h = ground (arith, found p xs me)

module _ (p : String) (ring : List String) where
  mem-add_at :
      (i : ℕ) (s : List String)
      → get_elem? ring i ≢ some p
      → StrSet.mem p (add_at ring i s) ≡ StrSet.mem p s
  mem-add_at i s other = go (get_elem? ring i) other
    where
      go :
          (o : Option String)
          → o ≢ some p
          → StrSet.mem p (elim o [ none ↦ s | some q ↦ StrSet.add q s ]) ≡ StrSet.mem p s
      go none h = refl
      go (some q) h = ground (arith, mem-add p q s, eq_iff q p)

  -- What stands at none of the places around `me` does not come in.
  mem-both_sides :
      (me i left : ℕ) (s : List String)
      → ((j : ℕ) → 1 ≤ j → j < i + left → get_elem? ring ((me + j) % length ring) ≢ some p)
      → ((j : ℕ)
          → 1 ≤ j
          → j < i + left
          → get_elem? ring ((me + length ring - j) % length ring) ≢ some p)
      → 1 ≤ i
      → StrSet.mem p (both_sides ring me i left s) ≡ StrSet.mem p s
  unfolding both_sides
  mem-both_sides me i zero s right left_ h = refl
  mem-both_sides me i (suc left) s right left_ h =
      let n = length ring in
      let s₁ = add_at ring ((me + i) % n) s in
      mem-both_sides me (i + 1) left (add_at ring ((me + n - i) % n) s₁)
        (λ j a b. right j a (omega (arith, b))) (λ j a b. left_ j a (omega (arith, b)))
        (omega arith)
      ∙ (mem-add_at ((me + n - i) % n) s₁ (left_ i h (omega arith))
          ∙ mem-add_at ((me + i) % n) s (right i h (omega arith)))

  -- A text that is not in the ring.
  neighbors_from_ring :
      (my_id : String) (o : Option ℕ)
      → StrSet.mem p ring ≡ false
      → StrSet.mem p (neighbors_at my_id ring o) ≡ false
  neighbors_from_ring my_id none out = unfold StrSet.mem in refl
  neighbors_from_ring my_id (some me) out = elim (Bool-cases (leb (length ring) k_neighbors)) [
    | inl small ↦ rw small (
        mem-of_list p (filter (λ q. not (q == my_id)) ring)
        ∙ (mem-filter (λ q. not (q == my_id)) p ring ∙ ground arith))
    | inr large ↦ rw large (
        mem-both_sides me 1 (k_neighbors / 2) [] (λ j a b h. absent ((me + j) % length ring) h)
          (λ j a b h. absent ((me + length ring - j) % length ring) h) (omega arith)
        ∙ unfold StrSet.mem in refl)
  ]
    where
      absent : (i : ℕ) → get_elem? ring i ≢ some p
      absent i h = ground (arith, mem_get p ring i h)

  -- This peer itself.
  not_own :
      (o : Option ℕ)
      → index_of p ring ≡ o
      → Distinct ring
      → StrSet.mem p (neighbors_at p ring o) ≡ false
  not_own none e d = unfold StrSet.mem in refl
  not_own (some me) e d = elim (Bool-cases (leb (length ring) k_neighbors)) [
    | inl small ↦ rw small (
        mem-of_list p (filter (λ q. not (q == p)) ring)
        ∙ (mem-filter (λ q. not (q == p)) p ring ∙ ground (arith, eq_iff p p)))
    | inr large ↦
        let n = length ring in
        let (here, inside) = found p ring me e in
        rw large (
          mem-both_sides me 1 (k_neighbors / 2) []
            (λ j a b h.
              right_is_other me j n inside a (ground (arith, b, large))
                (get_once p ring ((me + j) % n) me d h here))
            (λ j a b h.
              left_is_other me j n inside a (ground (arith, b, large))
                (get_once p ring ((me + n - j) % n) me d h here))
            (omega arith)
          ∙ unfold StrSet.mem in refl)
  ]

Distinct-insert_by :
    (x : String) (xs : List String)
    → Distinct xs
    → StrSet.mem x xs ≡ false
    → Distinct (insert_by (ascending str_hash) x xs)
unfolding insert_by StrSet.mem
Distinct-insert_by x [] d h = (refl, tt)
Distinct-insert_by x (y ∷ ys) d h =
    ground (arith, Distinct-insert_by x ys d.1, mem-insert_by y x ys, eq_iff x y, eq_iff y x)

Distinct-in_ring : (xs : List String) → Distinct xs → Distinct (in_ring xs)
unfolding sort_by
Distinct-in_ring [] d = tt
Distinct-in_ring (x ∷ xs) d =
    Distinct-insert_by x (in_ring xs) (Distinct-in_ring xs d.1) (mem-sort_by x xs ∙ d.0)

length-neighbors_at :
    (my_id : String) (ring : List String) (o : Option ℕ)
    → length (neighbors_at my_id ring o)
      ≤ (if leb (length ring) k_neighbors then length ring else 6)
length-neighbors_at my_id ring none = ground arith
length-neighbors_at my_id ring (some me) = elim (Bool-cases (leb (length ring) k_neighbors)) [
  | inl small ↦
      let others = filter (λ q. not (q == my_id)) ring in
      rw small
        (omega (arith, length-of_list-le others, length-filter-le (λ q. not (q == my_id)) ring))
  | inr large ↦ rw large (omega (arith, length-both_sides ring me 1 (k_neighbors / 2) []))
]

-- The neighbours of a peer are other peers of its room: neither itself nor a peer that is not
-- listed; and in a room of more than seven peers there are at most six of them. The listed peers
-- are a set.
pub new_neighbors_are_others :
    (s : Peer) (p : String)
    → Distinct s.public_peers
    → (StrSet.mem s.my_id (new_neighbors s) ≡ false)
      × ((StrSet.mem p (new_neighbors s) && not (StrSet.mem p s.public_peers)) ≡ false)
      × (length (new_neighbors s)
          ≤ (if leb (length s.public_peers) k_neighbors then length s.public_peers else 6))
unfolding new_neighbors
new_neighbors_are_others s p d =
    let ring = in_ring s.public_peers in
    let o = index_of s.my_id ring in
    (
      not_own s.my_id ring o refl (Distinct-in_ring s.public_peers d),
      elim (Bool-cases (StrSet.mem p s.public_peers)) [
        | inl listed ↦ rw listed (ground arith)
        | inr unlisted ↦
            rw (neighbors_from_ring p ring s.my_id o (mem-sort_by p s.public_peers ∙ unlisted)) refl
      ],
      rw (← length-sort_by (ascending str_hash) s.public_peers)
          (length-neighbors_at s.my_id ring o),
    )
