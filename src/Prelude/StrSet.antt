-- ===== src/Prelude/StrSet.antt =====
-- A JavaScript `Set` of texts: a list in the order of insertion, without repetition.
use Prim.Native.Nat.{◌≤◌, ◌+◌}
use Prim.Native.String.{String}
use mathlib.Core.Path.{◌≡◌, refl}
use mathlib.Core.Bool.{Bool, false, not, ◌||◌, ◌&&◌}
use mathlib.Core.List.{List, [], ◌∷◌, ◌++◌}
use native.Mathlib.Omega.{arith}
use text.Mathlib.Text.{◌==◌}
use text.Mathlib.TextEquality.{eq_iff}
use nonetchat_web.Prelude.Tests.{if◌then◌else◌}
use nonetchat_web.Prelude.Lists.{length, length-append, filter}

unfoldable pub mem : String → List String → Bool
mem k [] = false
mem k (j ∷ s) = j == k || mem k s

unfoldable pub add : String → List String → List String
unfolding mem
add k s = if mem k s then s else s ++ k ∷ []

unfoldable pub remove : String → List String → List String
remove k [] = []
remove k (j ∷ s) = if j == k then remove k s else j ∷ remove k s

-- `new Set(iterable)`
unfoldable pub of_list_from : List String → List String → List String
unfolding add
of_list_from s [] = s
of_list_from s (x ∷ xs) = of_list_from (add x s) xs

unfoldable pub of_list : List String → List String
unfolding of_list_from
of_list = of_list_from []

-- No text stands twice.
abbrev pub Distinct : List String → Type 0
Distinct [] = Unit
Distinct (k ∷ s) = (mem k s ≡ false) × Distinct s

pub mem-append : (k : String) (s t : List String) → mem k (s ++ t) ≡ (mem k s || mem k t)
unfolding mem
mem-append k [] t = refl
mem-append k (j ∷ s) t = ground (arith, mem-append k s t)

pub mem-add : (j k : String) (s : List String) → mem j (add k s) ≡ (k == j || mem j s)
unfolding mem add
mem-add j k s = ground (arith, mem-append j s (k ∷ []), eq_iff k j)

pub mem-remove : (j k : String) (s : List String) → mem j (remove k s) ≡ (not (k == j) && mem j s)
unfolding mem remove
mem-remove j k [] = ground arith
mem-remove j k (i ∷ s) = ground (arith, mem-remove j k s, eq_iff i k, eq_iff i j, eq_iff k j)

pub ruleset set_laws = (mem-add, mem-remove, mem-append)

pub Distinct-concat :
    (s : List String) (k : String) → Distinct s → mem k s ≡ false → Distinct (s ++ k ∷ [])
unfolding mem
Distinct-concat [] k d h = (refl, tt)
Distinct-concat (j ∷ s) k d h = (
  ground (arith, mem-append j s (k ∷ []), eq_iff j k, eq_iff k j),
  Distinct-concat s k d.1 (ground arith),
)

pub Distinct-add : (k : String) (s : List String) → Distinct s → Distinct (add k s)
unfolding add
Distinct-add k s d = ground (arith, Distinct-concat s k d)

pub Distinct-remove : (k : String) (s : List String) → Distinct s → Distinct (remove k s)
unfolding remove
Distinct-remove k [] d = tt
Distinct-remove k (j ∷ s) d = ground (arith, Distinct-remove k s d.1, mem-remove j k s)

pub Distinct-of_list_from : (s xs : List String) → Distinct s → Distinct (of_list_from s xs)
unfolding of_list_from
Distinct-of_list_from s [] d = d
Distinct-of_list_from s (x ∷ xs) d = Distinct-of_list_from (add x s) xs (Distinct-add x s d)

pub Distinct-of_list : (xs : List String) → Distinct (of_list xs)
unfolding of_list
Distinct-of_list xs = Distinct-of_list_from [] xs tt

pub mem-of_list_from :
    (k : String) (s xs : List String) → mem k (of_list_from s xs) ≡ (mem k s || mem k xs)
unfolding mem of_list_from
mem-of_list_from k s [] = ground arith
mem-of_list_from k s (x ∷ xs) = ground (arith, mem-of_list_from k (add x s) xs, mem-add k x s)

pub mem-of_list : (k : String) (xs : List String) → mem k (of_list xs) ≡ mem k xs
unfolding mem of_list
mem-of_list k xs = mem-of_list_from k [] xs

pub length-remove-le : (k : String) (s : List String) → length (remove k s) ≤ length s
unfolding remove
length-remove-le k [] = omega arith
length-remove-le k (j ∷ s) = ground (arith, length-remove-le k s)

pub mem-filter-false :
    (p : String → Bool) (k : String) (s : List String) → p k ≡ false → mem k (filter p s) ≡ false
unfolding mem
mem-filter-false p k [] h = refl
mem-filter-false p k (j ∷ s) h = ground (arith, mem-filter-false p k s h, eq_iff j k)

pub length-add-le : (k : String) (s : List String) → length (add k s) ≤ length s + 1
unfolding add
length-add-le k s = ground (arith, length-append s (k ∷ []))

length-of_list_from-le : (s xs : List String) → length (of_list_from s xs) ≤ length s + length xs
unfolding of_list_from
length-of_list_from-le s [] = omega arith
length-of_list_from-le s (x ∷ xs) =
    omega (arith, length-of_list_from-le (add x s) xs, length-add-le x s)

pub length-of_list-le : (xs : List String) → length (of_list xs) ≤ length xs
unfolding of_list
length-of_list-le xs = omega (arith, length-of_list_from-le [] xs)
