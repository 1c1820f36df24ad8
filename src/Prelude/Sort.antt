-- ===== src/Prelude/Sort.antt =====
-- `Array.prototype.sort` with a comparator: a stable sort. `before a b` says that the comparator is
-- negative at `a b`.
use Prim.Native.Nat.{ℕ, ◌≤◌, ◌+◌}
use mathlib.Core.Path.{◌≡◌, refl, ◌∙◌}
use mathlib.Core.Bool.{Bool, true, false}
use mathlib.Core.List.{List, [], ◌∷◌}
use mathlib.Core.Option.{none, some}
use native.Mathlib.Omega.{arith}
use nonetchat_web.Prelude.Tests.{if◌then◌else◌, ltb}
use mathlib.Core.Logic.{◌⊎◌, inl, inr}
use nonetchat_web.Prelude.Lists.{length, filter, All, All-self, All-imp, All-Member, Member, head?}

module _ {ℓ} {A : Type ℓ} (before : A → A → Bool) where
  unfoldable pub insert_by : A → List A → List A
  insert_by x [] = x ∷ []
  insert_by x (y ∷ ys) = if before y x then y ∷ insert_by x ys else x ∷ y ∷ ys

  unfoldable pub sort_by : List A → List A
  unfolding insert_by
  sort_by [] = []
  sort_by (x ∷ xs) = insert_by x (sort_by xs)

  -- No later element is before an earlier one.
  abbrev pub IsOrdered : List A → Type 0
  IsOrdered [] = Unit
  IsOrdered (x ∷ xs) = All (λ y. before y x ≡ false) xs × IsOrdered xs

module _ {ℓ} {A : Type ℓ} (before : A → A → Bool) where
  length-filter-insert_by :
      (p : A → Bool) (x : A) (xs : List A)
      → length (filter p (insert_by before x xs)) ≡ length (filter p (x ∷ xs))
  unfolding insert_by
  length-filter-insert_by p x [] = refl
  length-filter-insert_by p x (y ∷ ys) = ground (arith, length-filter-insert_by p x ys)

  -- Sorting keeps the number of elements that pass a test.
  pub length-filter-sort_by :
      (p : A → Bool) (xs : List A) → length (filter p (sort_by before xs)) ≡ length (filter p xs)
  unfolding sort_by
  length-filter-sort_by p [] = refl
  length-filter-sort_by p (x ∷ xs) =
      length-filter-insert_by p x (sort_by before xs) ∙ ground (arith, length-filter-sort_by p xs)

  pub All-insert_by {κ} :
      (P : A → Type κ) (x : A) (xs : List A) → P x → All P xs → All P (insert_by before x xs)
  unfolding insert_by
  All-insert_by P x [] h k = (h, tt)
  All-insert_by P x (y ∷ ys) h k = ground (arith, All-insert_by P x ys h k.1)

  pub All-sort_by {κ} : (P : A → Type κ) (xs : List A) → All P xs → All P (sort_by before xs)
  unfolding sort_by
  All-sort_by P [] h = tt
  All-sort_by P (x ∷ xs) h = All-insert_by P x (sort_by before xs) h.0 (All-sort_by P xs h.1)

  All-of_insert_by {κ} :
      (P : A → Type κ) (x : A) (xs : List A) → All P (insert_by before x xs) → P x × All P xs
  unfolding insert_by
  All-of_insert_by P x [] h = (h.0, tt)
  All-of_insert_by P x (y ∷ ys) h = ground (arith, All-of_insert_by P x ys)

  pub All-of_sort_by {κ} : (P : A → Type κ) (xs : List A) → All P (sort_by before xs) → All P xs
  unfolding sort_by
  All-of_sort_by P [] h = tt
  All-of_sort_by P (x ∷ xs) h =
      let (here, later) = All-of_insert_by P x (sort_by before xs) h in
      (here, All-of_sort_by P xs later)

  pub length-insert_by : (x : A) (xs : List A) → length (insert_by before x xs) ≡ length xs + 1
  unfolding insert_by
  length-insert_by x [] = refl
  length-insert_by x (y ∷ ys) = ground (arith, length-insert_by x ys)

  pub length-sort_by : (xs : List A) → length (sort_by before xs) ≡ length xs
  unfolding sort_by
  length-sort_by [] = refl
  length-sort_by (x ∷ xs) = omega (arith, length-insert_by x (sort_by before xs), length-sort_by xs)

module _ {ℓ} {A : Type ℓ} (before : A → A → Bool)
    (asym : (a b : A) → before a b ≡ true → before b a ≡ false)
    (cotrans : (a b c : A) → before a b ≡ false → before b c ≡ false → before a c ≡ false) where
  All-after :
      (x y : A) (ys : List A)
      → before y x ≡ false
      → All (λ z. before z y ≡ false) ys
      → All (λ z. before z x ≡ false) ys
  All-after x y [] h k = tt
  All-after x y (z ∷ zs) h k = (cotrans z y x k.0 h, All-after x y zs h k.1)

  insert_by-IsOrdered :
      (x : A) (xs : List A) → IsOrdered before xs → IsOrdered before (insert_by before x xs)
  unfolding insert_by
  insert_by-IsOrdered x [] h = (tt, tt)
  insert_by-IsOrdered x (y ∷ ys) h = ground (
    arith,
    asym y x,
    insert_by-IsOrdered x ys h.1,
    All-insert_by before (λ z. before z y ≡ false) x ys,
    All-after x y ys,
  )

  pub sort_by-IsOrdered : (xs : List A) → IsOrdered before (sort_by before xs)
  unfolding sort_by
  sort_by-IsOrdered [] = tt
  sort_by-IsOrdered (x ∷ xs) = insert_by-IsOrdered x (sort_by before xs) (sort_by-IsOrdered xs)

-- The comparators `(a, b) => key(a) - key(b)` and `(a, b) => key(b) - key(a)`.
abbrev pub ascending {ℓ} : {A : Type ℓ} → (A → ℕ) → A → A → Bool
ascending key a b = ltb (key a) (key b)

abbrev pub descending {ℓ} : {A : Type ℓ} → (A → ℕ) → A → A → Bool
descending key a b = ltb (key b) (key a)

module _ {ℓ} {A : Type ℓ} (key : A → ℕ) where
  pub sort_ascending-IsOrdered :
      (xs : List A) → IsOrdered (ascending key) (sort_by (ascending key) xs)
  sort_ascending-IsOrdered =
      sort_by-IsOrdered (ascending key) (λ a b h. ground arith) (λ a b c h k. ground arith)

  pub sort_descending-IsOrdered :
      (xs : List A) → IsOrdered (descending key) (sort_by (descending key) xs)
  sort_descending-IsOrdered =
      sort_by-IsOrdered (descending key) (λ a b h. ground arith) (λ a b c h k. ground arith)

module _ {A : Type 0} (key : A → ℕ) where
  -- The first element after a descending sort is one of the list with the greatest key.
  pub head?-sort_descending :
      (xs : List A)
      → ((head? (sort_by (descending key) xs) ≡ none) × (xs ≡ []))
        ⊎ ((x : A) × (head? (sort_by (descending key) xs) ≡ some x)
            × Member x xs
            × All (λ y. key y ≤ key x) xs)
  head?-sort_descending [] = unfold sort_by in inl (refl, refl)
  head?-sort_descending (z ∷ zs) =
      go (sort_by (descending key) (z ∷ zs)) (sort_descending-IsOrdered key (z ∷ zs))
        (All-sort_by (descending key) (λ y. Member y (z ∷ zs)) (z ∷ zs) (All-self (z ∷ zs)))
        (All-of_sort_by (descending key) (λ y. Member y (sort_by (descending key) (z ∷ zs)))
          (z ∷ zs) (All-self _))
    where
      go :
          (s : List A)
          → IsOrdered (descending key) s
          → All (λ y. Member y (z ∷ zs)) s
          → All (λ y. Member y s) (z ∷ zs)
          → ((head? s ≡ none) × (z ∷ zs ≡ []))
            ⊎ ((x : A) × (head? s ≡ some x) × Member x (z ∷ zs) × All (λ y. key y ≤ key x) (z ∷ zs))
      go [] o m k = elim k.0 [ ]
      go (x ∷ xs) o m k = inr (
        x,
        refl,
        m.0,
        All-imp (z ∷ zs)
            (λ y here. elim here [
              | inl e ↦ rw e (omega arith)
              | inr later ↦
                  All-Member (λ w. key w ≤ key x) y xs (All-imp xs (λ w h. ground arith) o.0) later
            ])
            k,
      )
