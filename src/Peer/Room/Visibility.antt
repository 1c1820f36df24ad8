-- ===== src/Peer/Room/Visibility.antt =====
-- The rooms are ordered by what is seen in them.
use nonetchat_web.Prelude.{
  String, ◌≡◌, refl, true, false, Option, none, some, eq_iff, arith, starts_with, ap, sym, ◌∙◌,
}
use text.Mathlib.TextEquality.{starts_with_iff}
use text.Mathlib.TextLemmas.{append_assoc}
use Prim.Native.String.{◌++◌}
use nonetchat_web.Prelude.TextParts.{Signed, signed_lt}
use nonetchat_web.Peer.Room.{covers, kilometre_room, sees}

signed_lt_asymm : (a b : Signed) → signed_lt a b ≡ true → signed_lt b a ≡ false
signed_lt_asymm a b h = ground arith

signed_lt_trans :
    (a b c : Signed) → signed_lt a b ≡ true → signed_lt b c ≡ true → signed_lt a c ≡ true
signed_lt_trans a b c h k = ground arith

starts_with_trans :
    (a b c : String) → starts_with b a ≡ true → starts_with c b ≡ true → starts_with c a ≡ true
starts_with_trans a b c h k =
    let (u, e) = (starts_with_iff b a).0 h in
    let (v, f) = (starts_with_iff c b).0 k in
    (starts_with_iff c a).1 (u ++ v, sym (append_assoc a u v) ∙ ap (λ x. x ++ v) e ∙ f)

covers_asymm : (r t : Option (Option Signed × String)) → covers r t ≡ true → covers t r ≡ false
covers_asymm (some (none, x)) t h = ground arith
covers_asymm (some (some a, x)) none h = ground arith
covers_asymm (some (some a, x)) (some (none, y)) h = ground arith
covers_asymm (some (some a, x)) (some (some b, y)) h = rw (signed_lt_asymm a b (ground arith)) refl
covers_asymm none t h = ground arith

covers_trans :
    (r t u : Option (Option Signed × String))
    → covers r t ≡ true
    → covers t u ≡ true
    → covers r u ≡ true
covers_trans (some (some a, x)) (some (some b, y)) (some (some c, z)) h k =
    rw (signed_lt_trans a b c (ground arith) (ground arith))
      (starts_with_trans x y z (ground arith) (ground arith))
covers_trans none t u h k = ground arith
covers_trans (some (none, x)) t u h k = ground arith
covers_trans (some (some a, x)) none u h k = ground arith
covers_trans (some (some a, x)) (some (none, y)) u h k = ground arith
covers_trans (some (some a, x)) (some (some b, y)) none h k = ground arith
covers_trans (some (some a, x)) (some (some b, y)) (some (none, z)) h k = ground arith

-- Two different rooms never see each other's messages both ways.
pub sees_antisymm : (r t : String) → sees r t ≡ true → sees t r ≡ true → r ≡ t
unfolding sees
sees_antisymm r t h k =
    ground (arith, eq_iff r t, eq_iff t r, covers_asymm (kilometre_room r) (kilometre_room t))

-- What is seen in a room that another room sees is seen in that other room.
pub sees_trans : (r t u : String) → sees r t ≡ true → sees t u ≡ true → sees r u ≡ true
unfolding sees
sees_trans r t u h k = ground (
  arith,
  eq_iff r t,
  eq_iff t u,
  eq_iff r u,
  covers_trans (kilometre_room r) (kilometre_room t) (kilometre_room u),
)
