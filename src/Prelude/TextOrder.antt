-- ===== src/Prelude/TextOrder.antt =====
-- Of two different texts exactly one is before the other.
use Prim.Native.Nat.compare as compare_ℕ
use Prim.Native.Nat.{ℕ, zero, suc, Ordering, compare as compare_ℕ}
use Prim.Native.Char.{code}
use Prim.Native.String.compare
use Prim.Native.String.{String, [], ◌∷◌, compare, then}
use mathlib.Core.Path.{◌≡◌, refl, sym, ap, ap₂, ◌∙◌}
use mathlib.Core.Logic.{◌≢◌}
use mathlib.Core.Bool.{not}
use text.Mathlib.TextEquality.{path_by_compare}
use nonetchat_web.Prelude.Tests.{text_lt}
use native.Mathlib.Omega.{arith}

abbrev flip : Ordering → Ordering
flip Ordering.lt = Ordering.gt
flip Ordering.eq = Ordering.eq
flip Ordering.gt = Ordering.lt

flip-compare_ℕ : (m n : ℕ) → flip (compare_ℕ m n) ≡ compare_ℕ n m
flip-compare_ℕ zero zero = ap flip compare_ℕ.zero-zero ∙ sym compare_ℕ.zero-zero
flip-compare_ℕ zero (suc n) = ap flip (compare_ℕ.zero-suc n) ∙ sym (compare_ℕ.suc-zero n)
flip-compare_ℕ (suc m) zero = ap flip (compare_ℕ.suc-zero m) ∙ sym (compare_ℕ.zero-suc m)
flip-compare_ℕ (suc m) (suc n) =
    ap flip (compare_ℕ.suc-suc m n) ∙ (flip-compare_ℕ m n ∙ sym (compare_ℕ.suc-suc n m))

flip-then : (o p : Ordering) → flip (then o p) ≡ then (flip o) (flip p)
flip-then Ordering.lt p = refl
flip-then Ordering.eq p = refl
flip-then Ordering.gt p = refl

pub flip-compare : (s t : String) → flip (compare s t) ≡ compare t s
flip-compare [] [] = ap flip compare.nil-nil ∙ sym compare.nil-nil
flip-compare [] (d ∷ t) = ap flip (compare.nil-cons d t) ∙ sym (compare.cons-nil d t)
flip-compare (c ∷ s) [] = ap flip (compare.cons-nil c s) ∙ sym (compare.nil-cons c s)
flip-compare (c ∷ s) (d ∷ t) =
    ap flip (compare.cons-cons c d s t)
    ∙ (flip-then (compare_ℕ (code c) (code d)) (compare s t)
        ∙ (ap₂ then (flip-compare_ℕ (code c) (code d)) (flip-compare s t)
            ∙ sym (compare.cons-cons d c t s)))

pub text_lt-not : (s t : String) → s ≢ t → text_lt s t ≡ not (text_lt t s)
text_lt-not s t differ = go (compare s t) refl
  where
    go : (o : Ordering) → compare s t ≡ o → text_lt s t ≡ not (text_lt t s)
    go Ordering.lt e = ground (arith, e, flip-compare s t)
    go Ordering.eq e = absurd (differ (path_by_compare s t e))
    go Ordering.gt e = ground (arith, e, flip-compare s t)
