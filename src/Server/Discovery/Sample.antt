-- ===== src/Server/Discovery/Sample.antt =====
-- The sample of the clients that a client with no bound on the distance is told of (src/server/server.js,
-- lines 848-884).
use nonetchat_web.Prelude.{
  ℕ, zero, suc, ◌+◌, ◌≤◌, String, ◌≡◌, refl, none, Bool, false, not, List, [], ◌∷◌, ◌==◌, eq_iff,
  arith, ap, ◌∙◌, Bool-cases, Option-cases, inl, inr, filter, take, length, length-take,
  if◌then◌else◌,
}
use nonetchat_web.Prelude.Dict
use nonetchat_web.Prelude.Dict.{Dict}
use nonetchat_web.Server.State.{Server, Client, World, Radius, world, country, city, km}
use nonetchat_web.Server.Discovery.Shuffle.{times, times-shuffle, shuffle}
use nonetchat_web.Prelude.Keys.{DistinctKeys}
use nonetchat_web.Server.Discovery.{
  Chance, is_listed, resolve, world_entries, world_sample, peers_of, sample_size, listing,
}
use nonetchat_web.Server.Discovery.Listed.{IsListing, IsOther, nearby_of-IsListing}

times-filter-le :
    (x : String) (p : String → Bool) (xs : List String) → times x (filter p xs) ≤ times x xs
times-filter-le x p [] = ground arith
times-filter-le x p (y ∷ ys) = ground (arith, times-filter-le x p ys)

times-filter_other :
    (self : String) (xs : List String) → times self (filter (λ id. not (id == self)) xs) ≡ 0
times-filter_other self [] = refl
times-filter_other self (y ∷ ys) = ground (arith, times-filter_other self ys)

times-take-le : (x : String) (n : ℕ) (xs : List String) → times x (take n xs) ≤ times x xs
times-take-le x zero xs = ground arith
times-take-le x (suc n) [] = ground arith
times-take-le x (suc n) (y ∷ ys) = ground (arith, times-take-le x n ys)

add_nothing : (n : ℕ) → 0 + n ≡ n
add_nothing n = omega arith

times-keys :
    {V : Type 0} (x : String) (m : Dict V)
    → DistinctKeys m
    → times x (Dict.keys m) ≡ (if Dict.has x m then 1 else 0)
unfolding Dict.keys Dict.has Dict.get
times-keys x [] d = refl
times-keys x ((k, v) ∷ m) (new, d) = elim (Bool-cases (k == x)) [
  | inl e ↦
      let same : x ≡ k = ground (arith, eq_iff k x) in
      let gone : Dict.get x m ≡ none = ap (λ i. Dict.get i m) same ∙ new in
      let zero : times x (Dict.keys m) ≡ 0 = times-keys x m d ∙ rw gone refl in
      rw e (ap (λ n. 1 + n) zero)
  | inr e ↦ rw e (add_nothing (times x (Dict.keys m)) ∙ times-keys x m d)
]

module _ (m : Dict Client) where
  unlisted :
      (x : String) (ids : List String)
      → times x ids ≡ 0
      → is_listed x (world_entries (resolve m ids)) ≡ false
  unfolding resolve world_entries
  unlisted x [] h = refl
  unlisted x (id ∷ ids) h = elim (Option-cases (Dict.get id m)) [
    | inl e ↦ rw e (unlisted x ids (ground (arith, h)))
    | inr (c, e) ↦ rw e (ground (arith, unlisted x ids, h))
  ]

  sample-IsListing :
      (s : Server) (self : String) (ids : List String)
      → m ≡ s.clients
      → times self ids ≡ 0
      → ((x : String) → times x ids ≤ 1)
      → IsListing (IsOther s self) (world_entries (resolve m ids))
  unfolding resolve world_entries
  sample-IsListing s self [] same absent once = tt
  sample-IsListing s self (id ∷ ids) same absent once =
      let rest =
        sample-IsListing s self ids same (ground (arith, absent)) (λ x. ground (arith, once x)) in
      elim (Option-cases (Dict.get id m)) [
        | inl e ↦ rw e rest
        | inr (c, e) ↦ rw e (
          (
            λ f. ground (arith, eq_iff id self, f, absent),
            unfold Dict.has in rw (← same) (rw e refl),
          ),
          unlisted id ids (ground (arith, eq_iff id id, once id)),
          rest,
        )
      ]

length-world_entries-le :
    (m : Dict Client) (ids : List String) → length (world_entries (resolve m ids)) ≤ length ids
unfolding world_entries resolve
length-world_entries-le m [] = ground arith
length-world_entries-le m (id ∷ ids) = elim (Option-cases (Dict.get id m)) [
  | inl e ↦ rw e (ground (arith, length-world_entries-le m ids))
  | inr (c, e) ↦ rw e (ground (arith, length-world_entries-le m ids))
]

module _ (w : World) (h : Chance) (s : Server) (distinct : DistinctKeys s.clients)
    (self : String) where
  world_sample-IsListing :
      (random : ℕ → ℕ)
      → IsListing (IsOther s self) (world_sample random s self)
        × (length (world_sample random s self) ≤ sample_size)
  unfolding world_sample
  world_sample-IsListing random =
      let rest = filter (λ id. not (id == self)) (Dict.keys s.clients) in
      let shuffled = shuffle random rest in
      let ids = take sample_size shuffled in
      let gone : times self ids ≡ 0 = ground (
        arith,
        times-take-le self sample_size shuffled,
        times-shuffle self random rest,
        times-filter_other self (Dict.keys s.clients),
      ) in
      let few : length ids ≤ sample_size = omega (arith, length-take sample_size shuffled) in
      (
        sample-IsListing s.clients s self ids refl gone (λ x. ground (
          arith,
          times-take-le x sample_size shuffled,
          times-shuffle x random rest,
          times-filter-le x (λ id. not (id == self)) (Dict.keys s.clients),
          times-keys x s.clients distinct,
        )),
        omega (arith, length-world_entries-le s.clients ids, few),
      )

  -- Whatever its radius and whatever is drawn, the list that a client is sent names registered
  -- clients only, none of them twice, and never the client itself. The map of the clients holds no
  -- key twice.
  pub peers_of-IsListing : (me : Client) → IsListing (IsOther s self) (peers_of w h s self me)
  unfolding peers_of
  peers_of-IsListing me = by_kind me.radius
    where
      by_kind : (r : Radius) → IsListing (IsOther s self) (listing w h s self me r)
      by_kind world = (world_sample-IsListing (h.random self)).0
      by_kind country = nearby_of-IsListing w h.now s self me
      by_kind city = nearby_of-IsListing w h.now s self me
      by_kind (km radius) = nearby_of-IsListing w h.now s self me
