-- ===== src/Prelude/Keyed.antt =====
-- Object stores whose records carry their own key (`keyPath: 'id'`): each record stands under its
-- key, and no key stands twice.
use Prim.Native.String.{String}
use mathlib.Core.Path.{◌≡◌, refl}
use mathlib.Core.Bool.{Bool, false}
use mathlib.Core.Option.{none, some}
use mathlib.Core.List.{[], ◌∷◌, map}
use native.Mathlib.Omega.{arith}
use text.Mathlib.TextEquality.{eq_iff}
use nonetchat_web.Prelude.Lists.{filter}
use nonetchat_web.Prelude.Dict
use nonetchat_web.Prelude.Dict.{Dict, get-set, get-insert, get-delete}
use nonetchat_web.Prelude.StrSet.{mem}

module _ {V : Type 0} (key : V → String) where
  abbrev pub IsKeyed : Dict V → Type 0
  IsKeyed [] = Unit
  IsKeyed ((k, v) ∷ m) = (key v ≡ k) × (Dict.get k m ≡ none) × IsKeyed m

  set-IsKeyed : (k : String) (v : V) (m : Dict V) → key v ≡ k → IsKeyed m → IsKeyed (Dict.set k v m)
  unfolding Dict.set Dict.get
  set-IsKeyed k v [] e h = (e, refl, tt)
  set-IsKeyed k v ((j, w) ∷ m) e (same, new, h) =
      ground (arith, eq_iff j k, eq_iff k j, get-set j k v m, set-IsKeyed k v m e h)

  insert-IsKeyed :
      (k : String) (v : V) (m : Dict V)
      → key v ≡ k
      → Dict.get k m ≡ none
      → IsKeyed m
      → IsKeyed (Dict.insert k v m)
  unfolding Dict.insert Dict.get
  insert-IsKeyed k v [] e absent h = (e, refl, tt)
  insert-IsKeyed k v ((j, w) ∷ m) e absent (same, new, h) =
      ground (arith, eq_iff j k, eq_iff k j, get-insert j k v m, insert-IsKeyed k v m e)

  pub put-IsKeyed :
      (k : String) (v : V) (m : Dict V) → key v ≡ k → IsKeyed m → IsKeyed (Dict.put k v m)
  unfolding Dict.put
  put-IsKeyed k v m e h = ground (arith, set-IsKeyed k v m e h, insert-IsKeyed k v m e)

  pub delete-IsKeyed : (k : String) (m : Dict V) → IsKeyed m → IsKeyed (Dict.delete k m)
  unfolding Dict.delete
  delete-IsKeyed k [] h = tt
  delete-IsKeyed k ((j, w) ∷ m) (e, new, h) = ground (arith, delete-IsKeyed k m h, get-delete j k m)

  mem-ids_of_absent :
      (p : V → Bool) (k : String) (m : Dict V)
      → IsKeyed m
      → Dict.get k m ≡ none
      → mem k (map key (filter p (Dict.values m))) ≡ false
  unfolding mem Dict.get Dict.values
  mem-ids_of_absent p k [] h e = refl
  mem-ids_of_absent p k ((j, w) ∷ m) (same, new, h) e =
      ground (arith, eq_iff (key w) k, eq_iff j k, mem-ids_of_absent p k m h)

  -- A record that fails a test is not among the keys of those that pass it.
  pub mem-ids_of_failing :
      (p : V → Bool) (k : String) (v : V) (m : Dict V)
      → IsKeyed m
      → Dict.get k m ≡ some v
      → p v ≡ false
      → mem k (map key (filter p (Dict.values m))) ≡ false
  unfolding mem Dict.get Dict.values
  mem-ids_of_failing p k v [] h e f = refl
  mem-ids_of_failing p k v ((j, w) ∷ m) (same, new, h) e f = ground (
    arith,
    eq_iff (key w) k,
    eq_iff j k,
    mem-ids_of_failing p k v m h,
    mem-ids_of_absent p j m h new,
  )
