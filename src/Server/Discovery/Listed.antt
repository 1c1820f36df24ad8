-- ===== src/Server/Discovery/Listed.antt =====
-- Whom a client is told of (src/server/server.js, lines 843-1002).
use nonetchat_web.Prelude.{
  ℕ, String, ◌≡◌, ◌≢◌, refl, Option, none, some, Bool, true, false, ◌||◌, List, [], ◌∷◌, ◌++◌, ◌==◌,
  eq_iff, arith, ap, ◌∙◌, sym, All, All-imp, Bool-cases, Option-cases, inl, inr, truthy, ◌&&◌,
  if◌then◌else◌,
}
use mathlib.Core.Path.{subst}
use nonetchat_web.Prelude.Dict
use nonetchat_web.Prelude.Dict.{Dict}
use nonetchat_web.Server.State.{
  Server, Client, ListedPeer, World, Radius, world, country, city, km, Location, Float,
}
use nonetchat_web.Server.Discovery.{
  collect, add_listed, is_listed, nearby_of, resolve, when, lan_entry, country_entry, city_entry,
  reach_entry, measured, by_radius, by_place, entry, is_recent, same_text, is_geo,
}

-- Each entry's id has the property, and no id is listed twice.
abbrev pub IsListing : (String → Type 0) → List ListedPeer → Type 0
IsListing P [] = Unit
IsListing P (q ∷ qs) = P q.peer_id × (is_listed q.peer_id qs ≡ false) × IsListing P qs

module _ (P : String → Type 0) where
  is_listed-append :
      (id : String) (ps qs : List ListedPeer)
      → is_listed id (ps ++ qs) ≡ (is_listed id ps || is_listed id qs)
  is_listed-append id [] qs = refl
  is_listed-append id (p ∷ ps) qs = ground (arith, is_listed-append id ps qs)

  concat-IsListing :
      (ps : List ListedPeer) (q : ListedPeer)
      → IsListing P ps
      → P q.peer_id
      → is_listed q.peer_id ps ≡ false
      → IsListing P (ps ++ q ∷ [])
  concat-IsListing [] q h p new = (p, refl, tt)
  concat-IsListing (x ∷ xs) q (px, lx, h) p new = (
    px,
    ground (
      arith,
      is_listed-append x.peer_id xs (q ∷ []),
      eq_iff x.peer_id q.peer_id,
      eq_iff q.peer_id x.peer_id,
      lx,
      new,
    ),
    concat-IsListing xs q h p (ground (arith, new)),
  )

  -- What is chosen carries the id that it was chosen for.
  collect-IsListing :
      (self : String) (choose : String → Client → Option ListedPeer)
      → ((id : String) (c : Client) (q : ListedPeer) → choose id c ≡ some q → q.peer_id ≡ id)
      → (cs : List (String × Client)) (ps : List ListedPeer) → All (λ e. (e.0 ≢ self) → P e.0) cs
      → IsListing P ps
      → IsListing P (collect self choose cs ps)
  unfolding collect
  collect-IsListing self choose named [] ps all h = h
  collect-IsListing self choose named ((id, c) ∷ cs) ps all h =
      elim (Bool-cases (id == self || is_listed id ps)) [
        | inl e ↦ rw e (collect-IsListing self choose named cs ps all.1 h)
        | inr e ↦ rw e (
            collect-IsListing self choose named cs (add_listed ps (choose id c)) all.1
              (added (choose id c) refl e))
      ]
    where
      added :
          (o : Option ListedPeer)
          → choose id c ≡ o
          → (id == self || is_listed id ps) ≡ false
          → IsListing P (add_listed ps o)
      added none f e = h
      added (some q) f e =
          let same = named id c q f in
          let other : id ≢ self = λ g. ground (arith, eq_iff id self, e, g) in
          concat-IsListing ps q h (subst P (sym same) (all.0 other))
            (ap (λ x. is_listed x ps) same ∙ ground (arith, e))

-- A registered client that is not `self`.
abbrev pub IsOther : Server → String → String → Type 0
IsOther s self id = (id ≢ self) × (Dict.has id s.clients ≡ true)

entries_there : (m : Dict Client) → All (λ (e : String × Client). Dict.has e.0 m ≡ true) m
unfolding Dict.has Dict.get
entries_there [] = tt
entries_there ((k, v) ∷ m) = (
  ground (arith, eq_iff k k),
  All-imp m (λ e h. ground (arith, eq_iff k e.0, h)) (entries_there m),
)

resolved_there :
    (m : Dict Client) (ids : List String)
    → All (λ (e : String × Client). Dict.has e.0 m ≡ true) (resolve m ids)
unfolding resolve Dict.has
resolved_there m [] = tt
resolved_there m (id ∷ ids) = elim (Option-cases (Dict.get id m)) [
  | inl e ↦ rw e (resolved_there m ids)
  | inr (c, e) ↦ rw e (rw e refl, resolved_there m ids)
]

others :
    (s : Server) (self : String) (cs : List (String × Client))
    → All (λ (e : String × Client). Dict.has e.0 s.clients ≡ true) cs
    → All (λ (e : String × Client). (e.0 ≢ self) → IsOther s self e.0) cs
others s self cs h = All-imp cs (λ e there other. (other, there)) h

when_id : (b : Bool) (q x : ListedPeer) → when b q ≡ some x → x.peer_id ≡ q.peer_id
when_id true q x h = let e : q ≡ x = ground (arith, h) in ap (λ (y : ListedPeer). y.peer_id) (sym e)
when_id false q x h = ground (arith, h)

module _ (w : World) (now : ℕ) (s : Server) (self : String) (me : Client) where
  collected :
      (choose : String → Client → Option ListedPeer)
      → ((id : String) (c : Client) (q : ListedPeer) → choose id c ≡ some q → q.peer_id ≡ id)
      → (cs : List (String × Client))
      → All (λ (e : String × Client). Dict.has e.0 s.clients ≡ true) cs
      → (ps : List ListedPeer) → IsListing (IsOther s self) ps
      → IsListing (IsOther s self) (collect self choose cs ps)
  collected choose named cs there ps =
      collect-IsListing (IsOther s self) self choose named cs ps (others s self cs there)

  reached :
      (mine : Location) (radius : ℕ) (id : String) (c : Client) (o : Option Location)
      (q : ListedPeer)
      → reach_entry w now mine radius id c o ≡ some q
      → q.peer_id ≡ id
  reached mine radius id c none q h = ground (arith, h)
  reached mine radius id c (some l) q h = recent (is_recent now l) (w.reach mine radius l) h
    where
      recent :
          (b : Bool) (r : Option (Float × String))
          → (if b then measured id c r else none) ≡ some q
          → q.peer_id ≡ id
      recent false r h = ground (arith, h)
      recent true none h = ground (arith, h)
      recent true (some (d, label)) h =
          let e : entry id c (some d) label c.country_code ≡ q = ground (arith, h) in
          ap (λ (y : ListedPeer). y.peer_id) (sym e)

  by_lan : List ListedPeer
  by_lan = collect self (lan_entry me) s.clients []

  by_lan-IsListing : IsListing (IsOther s self) by_lan
  unfolding by_lan
  by_lan-IsListing =
      collected (lan_entry me)
        (λ id c q h.
          when_id (same_text (truthy me.ip) c.ip) (entry id c none "LAN" c.country_code) q h)
        s.clients (entries_there s.clients) [] tt

  in_reach-IsListing :
      (radius : ℕ) (o : Option Location)
      → IsListing (IsOther s self) (by_place w now s self me radius o by_lan)
  in_reach-IsListing radius none = by_lan-IsListing
  in_reach-IsListing radius (some l) = located (is_geo me.discovery_mode) (is_recent now l)
    where
      candidates : List (String × Client)
      candidates = resolve s.clients (w.retrieve l radius s.geo_tree)

      located :
          (b recent : Bool)
          → IsListing (IsOther s self) (
              if b
              then (if recent
                  then collect self
                      (λ id c. reach_entry w now l radius id c c.location)
                      (resolve s.clients (w.retrieve l radius s.geo_tree))
                      by_lan
                  else by_lan)
              else by_lan)
      located false recent = by_lan-IsListing
      located true false = by_lan-IsListing
      located true true =
          collected (λ id c. reach_entry w now l radius id c c.location)
            (λ id c q h. reached l radius id c c.location q h)
            (resolve s.clients (w.retrieve l radius s.geo_tree))
            (resolved_there s.clients (w.retrieve l radius s.geo_tree)) by_lan by_lan-IsListing

  by_radius-IsListing :
      (r : Radius) → IsListing (IsOther s self) (by_radius w now s self me r by_lan)
  by_radius-IsListing world = by_lan-IsListing
  by_radius-IsListing country =
      collected (country_entry me)
        (λ id c q h.
          when_id (same_text (truthy me.country_code) c.country_code)
            (entry id c none "Country" c.country_code) q h)
        s.clients (entries_there s.clients) by_lan by_lan-IsListing
  by_radius-IsListing city =
      collected (city_entry me)
        (λ id c q h.
          when_id
            (same_text (truthy me.country_code) c.country_code
              && same_text (truthy me.normalized_city_name) c.normalized_city_name)
            (entry id c none "City" c.country_code) q h)
        s.clients (entries_there s.clients) by_lan by_lan-IsListing
  by_radius-IsListing (km radius) = in_reach-IsListing radius me.location

  pub nearby_of-IsListing : IsListing (IsOther s self) (nearby_of w now s self me)
  unfolding nearby_of by_lan
  nearby_of-IsListing = by_radius-IsListing me.radius
