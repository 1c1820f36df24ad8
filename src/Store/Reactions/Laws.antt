-- ===== src/Store/Reactions/Laws.antt =====
-- What a toggle changes, and the shape of a message's reactions that it keeps.
use nonetchat_web.Prelude.{
  String, ◌≡◌, ◌≢◌, Bool, not, ◌⊎◌, ◌&&◌, some, List, [], ◌∷◌, arith, ◌==◌, eq_iff, if◌then◌else◌,
  or_else, inl, inr, Option-cases, Bool-cases,
}
use nonetchat_web.Prelude.Dict
use nonetchat_web.Prelude.Dict.{get-set, get-delete}
use nonetchat_web.Prelude.StrSet.{mem, mem-append, Distinct, Distinct-concat}
use nonetchat_web.Store.Types.{Reactions}
use nonetchat_web.Store.Reactions.{remove_first, store_array, toggle_reactor, toggle_reaction}

-- `reactor` has reacted with `emoji`.
abbrev pub reacted : String → String → Reactions → Bool
reacted emoji reactor reactions = mem reactor (or_else (Dict.get emoji reactions) [])

-- Nobody is listed twice under an emoji, and no emoji is listed with nobody.
pub record IsTidy (reactions : Reactions) : Type 0 where
  pub arrays :
      (emoji : String) (arr : List String)
      → Dict.get emoji reactions ≡ some arr
      → Distinct arr × (arr ≢ [])

mem-remove_first :
    (j k : String) (xs : List String)
    → Distinct xs
    → mem j (remove_first k xs) ≡ (not (k == j) && mem j xs)
unfolding remove_first mem
mem-remove_first j k [] d = ground arith
mem-remove_first j k (x ∷ xs) d =
    ground (arith, mem-remove_first j k xs d.1, eq_iff x k, eq_iff x j, eq_iff k j)

Distinct-remove_first : (k : String) (xs : List String) → Distinct xs → Distinct (remove_first k xs)
unfolding remove_first
Distinct-remove_first k [] d = tt
Distinct-remove_first k (x ∷ xs) d =
    ground (arith, Distinct-remove_first k xs d.1, mem-remove_first x k xs d.1)

mem-toggle_reactor :
    (j k : String) (xs : List String)
    → Distinct xs
    → mem j (toggle_reactor k xs) ≡ (if k == j then not (mem j xs) else mem j xs)
unfolding toggle_reactor mem
mem-toggle_reactor j k xs d =
    ground (arith, mem-remove_first j k xs d, mem-append j xs (k ∷ []), eq_iff k j)

Distinct-toggle_reactor :
    (k : String) (xs : List String) → Distinct xs → Distinct (toggle_reactor k xs)
unfolding toggle_reactor
Distinct-toggle_reactor k xs d =
    ground (arith, Distinct-remove_first k xs d, Distinct-concat xs k d)

array-store_array :
    (e emoji : String) (arr : List String) (reactions : Reactions)
    → or_else (Dict.get e (store_array emoji arr reactions)) []
      ≡ (if emoji == e then arr else or_else (Dict.get e reactions) [])
unfolding store_array
array-store_array e emoji [] reactions = ground (arith, get-delete e emoji reactions)
array-store_array e emoji (x ∷ xs) reactions = ground (arith, get-set e emoji (x ∷ xs) reactions)

get-store_array :
    (e emoji : String) (arr found : List String) (reactions : Reactions)
    → Dict.get e (store_array emoji arr reactions) ≡ some found
    → ((emoji ≡ e) × (found ≡ arr) × (arr ≢ [])) ⊎ (Dict.get e reactions ≡ some found)
unfolding store_array
get-store_array e emoji [] found reactions h = inr (ground (arith, get-delete e emoji reactions))
get-store_array e emoji (x ∷ xs) found reactions h = elim (Bool-cases (emoji == e)) [
  | inl same ↦
      inl ((eq_iff emoji e).0 same, ground (arith, get-set e emoji (x ∷ xs) reactions), λ q. cc)
  | inr other ↦ inr (ground (arith, get-set e emoji (x ∷ xs) reactions))
]

module _ (reactions : Reactions) (tidy : IsTidy reactions) where
  Distinct-array : (emoji : String) → Distinct (or_else (Dict.get emoji reactions) [])
  Distinct-array emoji = elim (Option-cases (Dict.get emoji reactions)) [
    | inl e ↦ rw e tt
    | inr (arr, e) ↦ rw e (tidy.arrays emoji arr e).0
  ]

  -- Toggling changes whether that reactor has reacted with that emoji, and nothing else.
  pub reacted-toggle_reaction :
      (emoji reactor e r : String)
      → reacted e r (toggle_reaction emoji reactor reactions) ≡ (
          if emoji == e && reactor == r then not (reacted e r reactions) else reacted e r reactions)
  unfolding toggle_reaction
  reacted-toggle_reaction emoji reactor e r = rw array-store_array (
      ground (
        arith,
        eq_iff emoji e,
        mem-toggle_reactor r reactor (or_else (Dict.get emoji reactions) []) (Distinct-array emoji),
      ))

  -- A toggle keeps tidy reactions tidy: nobody stands twice under an emoji, and no emoji with nobody.
  pub toggle_reaction-IsTidy :
      (emoji reactor : String) → IsTidy (toggle_reaction emoji reactor reactions)
  unfolding toggle_reaction
  toggle_reaction-IsTidy emoji reactor = record {
    arrays = λ e found h. elim (get-store_array e emoji _ found reactions h) [
      | inl (_, same, filled) ↦
          (rw same (Distinct-toggle_reactor reactor _ (Distinct-array emoji)), rw same filled)
      | inr old ↦ tidy.arrays e found old
    ];
  }
