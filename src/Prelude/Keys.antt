-- ===== src/Prelude/Keys.antt =====
-- Maps that hold no key twice, as a JavaScript `Map` does.
use Prim.Native.String.{String}
use mathlib.Core.Path.{◌≡◌, refl}
use mathlib.Core.Option.{none}
use mathlib.Core.List.{[], ◌∷◌}
use native.Mathlib.Omega.{arith}
use text.Mathlib.TextEquality.{eq_iff}
use nonetchat_web.Prelude.Dict
use nonetchat_web.Prelude.Dict.{Dict, get-set, get-delete}

module _ {V : Type 0} where
  abbrev pub DistinctKeys : Dict V → Type 0
  DistinctKeys [] = Unit
  DistinctKeys ((k, v) ∷ m) = (Dict.get k m ≡ none) × DistinctKeys m

  pub set-DistinctKeys :
      (k : String) (v : V) (m : Dict V) → DistinctKeys m → DistinctKeys (Dict.set k v m)
  unfolding Dict.set Dict.get
  set-DistinctKeys k v [] h = (refl, tt)
  set-DistinctKeys k v ((j, w) ∷ m) (new, h) =
      ground (arith, eq_iff j k, eq_iff k j, get-set j k v m, set-DistinctKeys k v m h)

  pub delete-DistinctKeys :
      (k : String) (m : Dict V) → DistinctKeys m → DistinctKeys (Dict.delete k m)
  unfolding Dict.delete Dict.get
  delete-DistinctKeys k [] h = tt
  delete-DistinctKeys k ((j, w) ∷ m) (new, h) =
      ground (arith, eq_iff j k, eq_iff k j, get-delete j k m, delete-DistinctKeys k m h)
