-- ===== src/Server/Discovery/Shuffle.antt =====
-- The shuffle of Fisher and Yates (src/server/server.js, lines 850-855): it puts a list in another order.
use nonetchat_web.Prelude.{
  ℕ, zero, suc, ◌+◌, ◌-◌, ◌%◌, String, ◌≡◌, refl, Option, none, some, List, [], ◌∷◌, ◌==◌, arith,
  if◌then◌else◌, get_elem?, length, ◌∙◌,
}

unfoldable pub put_at : ℕ → String → List String → List String
put_at i x [] = []
put_at zero x (y ∷ ys) = x ∷ ys
put_at (suc i) x (y ∷ ys) = y ∷ put_at i x ys

abbrev swap_found : ℕ → ℕ → List String → Option String → Option String → List String
swap_found i j xs (some a) (some b) = put_at j a (put_at i b xs)
swap_found i j xs a b = xs

-- `[xs[i], xs[j]] = [xs[j], xs[i]]`, for places inside the list.
unfoldable pub swap : ℕ → ℕ → List String → List String
unfolding put_at
swap i j xs = swap_found i j xs (get_elem? xs i) (get_elem? xs j)

-- From the last place to the second; `random i` is drawn for the place `i`.
unfoldable pub shuffle_from : (ℕ → ℕ) → ℕ → List String → List String
shuffle_from random zero xs = xs
shuffle_from random (suc i) xs =
    shuffle_from random i (swap (suc i) (random (suc i) % suc (suc i)) xs)

unfoldable pub shuffle : (ℕ → ℕ) → List String → List String
unfolding shuffle_from swap
shuffle random xs = shuffle_from random (length xs - 1) xs

abbrev one_if_equal : String → String → ℕ
one_if_equal a b = if a == b then 1 else 0

abbrev pub times : String → List String → ℕ
times x [] = 0
times x (y ∷ ys) = one_if_equal y x + times x ys

times-put_at :
    (x b a : String) (i : ℕ) (xs : List String)
    → get_elem? xs i ≡ some a
    → times x (put_at i b xs) + one_if_equal a x ≡ times x xs + one_if_equal b x
unfolding put_at
times-put_at x b a i [] h = ground arith
times-put_at x b a zero (y ∷ ys) h = let same : some y ≡ some a = h in ground arith
times-put_at x b a (suc i) (y ∷ ys) h = ground (arith, times-put_at x b a i ys h)

get-put_at :
    (b : String) (i j : ℕ) (xs : List String)
    → get_elem? xs j ≡ some b
    → get_elem? (put_at i b xs) j ≡ some b
unfolding put_at
get-put_at b i j [] h = h
get-put_at b zero zero (y ∷ ys) h = refl
get-put_at b zero (suc j) (y ∷ ys) h = h
get-put_at b (suc i) zero (y ∷ ys) h = h
get-put_at b (suc i) (suc j) (y ∷ ys) h = get-put_at b i j ys h

times-swap : (x : String) (i j : ℕ) (xs : List String) → times x (swap i j xs) ≡ times x xs
unfolding swap
times-swap x i j xs = go (get_elem? xs i) (get_elem? xs j) refl refl
  where
    go :
        (a b : Option String)
        → get_elem? xs i ≡ a
        → get_elem? xs j ≡ b
        → times x (swap_found i j xs a b) ≡ times x xs
    go (some a) (some b) e f =
        let first = times-put_at x b a i xs e in
        let second = times-put_at x a b j (put_at i b xs) (get-put_at b i j xs f) in
        omega (arith, first, second)
    go none b e f = refl
    go (some a) none e f = refl

times-shuffle_from :
    (x : String) (random : ℕ → ℕ) (n : ℕ) (xs : List String)
    → times x (shuffle_from random n xs) ≡ times x xs
unfolding shuffle_from
times-shuffle_from x random zero xs = refl
times-shuffle_from x random (suc i) xs =
    times-shuffle_from x random i (swap (suc i) (random (suc i) % suc (suc i)) xs)
    ∙ times-swap x (suc i) (random (suc i) % suc (suc i)) xs

-- Whatever is drawn, every text is in the shuffled list as often as in the list.
pub times-shuffle :
    (x : String) (random : ℕ → ℕ) (xs : List String) → times x (shuffle random xs) ≡ times x xs
unfolding shuffle
times-shuffle x random xs = times-shuffle_from x random (length xs - 1) xs
