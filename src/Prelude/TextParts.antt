-- ===== src/Prelude/TextParts.antt =====
-- JavaScript's texts where their characters count: the UTF-16 code units, `split`, and `parseInt`.
use Prim.Native.Nat.{ℕ, zero, suc, ◌+◌, ◌-◌, ◌*◌, ◌/◌, ◌%◌}
use Prim.Native.Char.{Char, code}
use Prim.Native.String.{String, [] as empty, ◌∷◌ as ◌&◌}
use mathlib.Core.Bool.{Bool, false, ◌&&◌, ◌||◌}
use mathlib.Core.Option.{Option, none, some}
use mathlib.Core.List.{List, [], ◌∷◌, ◌++◌}
use nonetchat_web.Prelude.Tests.{if◌then◌else◌, ltb, leb, nat_eq}

abbrev pub chars : String → List Char
chars empty = []
chars (c & s) = c ∷ chars s

abbrev pub text_of_chars : List Char → String
text_of_chars [] = empty
text_of_chars (c ∷ cs) = c & text_of_chars cs

-- Beyond U+FFFF a character is two units.
abbrev pub units_of : ℕ → List ℕ
units_of n =
    if ltb n 65536 then n ∷ [] else (55296 + (n - 65536) / 1024) ∷ (56320 + (n - 65536) % 1024) ∷ []

unfoldable pub units : List Char → List ℕ
units [] = []
units (c ∷ cs) = units_of (code c) ++ units cs

abbrev push_first : Char → List (List Char) → List (List Char)
push_first c [] = (c ∷ []) ∷ []
push_first c (p ∷ ps) = (c ∷ p) ∷ ps

-- `split` at a separator of one character, by its code.
unfoldable pub split : ℕ → List Char → List (List Char)
split sep [] = [] ∷ []
split sep (c ∷ cs) =
    let parts = split sep cs in if nat_eq (code c) sep then [] ∷ parts else push_first c parts

abbrev is_digit : Char → Bool
is_digit c = leb 48 (code c) && leb (code c) 57

-- The white space that `parseInt` skips.
abbrev is_space : Char → Bool
is_space c =
    leb 9 (code c) && leb (code c) 13
    || nat_eq (code c) 32
    || nat_eq (code c) 160
    || nat_eq (code c) 5760
    || leb 8192 (code c) && leb (code c) 8202
    || nat_eq (code c) 8232
    || nat_eq (code c) 8233
    || nat_eq (code c) 8239
    || nat_eq (code c) 8287
    || nat_eq (code c) 12288
    || nat_eq (code c) 65279

-- The digits in front, after a number read so far.
unfoldable pub digits : Option ℕ → List Char → Option ℕ
digits read [] = read
digits read (c ∷ cs) =
    let rest =
      digits (some (elim read [ none ↦ code c - 48 | some n ↦ 10 * n + (code c - 48) ])) cs in
    if is_digit c then rest else read

-- An integer by its sign and its size.
pub data Signed : Type 0 where
  plus minus : ℕ → Signed

abbrev pub signed_lt : Signed → Signed → Bool
signed_lt (plus a) (plus b) = ltb a b
signed_lt (plus a) (minus b) = false
signed_lt (minus a) (plus b) = ltb 0 (a + b)
signed_lt (minus a) (minus b) = ltb b a

abbrev signed : (ℕ → Signed) → Option ℕ → Option Signed
signed sign none = none
signed sign (some n) = some (sign n)

unfoldable pub parse_int : List Char → Option Signed
unfolding digits
parse_int [] = none
parse_int (c ∷ cs) =
    let rest = parse_int cs in
    if is_space c
    then rest
    else if nat_eq (code c) 45
    then signed minus (digits none cs)
    else if nat_eq (code c) 43
    then signed plus (digits none cs)
    else signed plus (digits none (c ∷ cs))

-- `text.substring(1)`, of which half a character is left where the first one is two units: no number
-- begins with it.
unfoldable pub parse_int_after_first : List Char → Option Signed
unfolding parse_int
parse_int_after_first [] = none
parse_int_after_first (c ∷ cs) = if ltb (code c) 65536 then parse_int cs else none

-- `^` on the lowest bits of two numbers.
unfoldable pub bit_xor : (bits : ℕ) → ℕ → ℕ → ℕ
bit_xor zero a b = 0
bit_xor (suc n) a b = (a + b) % 2 + 2 * bit_xor n (a / 2) (b / 2)
