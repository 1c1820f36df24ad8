-- ===== src/Server/Agent/Retries.antt =====
-- How often the language model is asked (src/server/server.js, lines 634-692).
use nonetchat_web.Prelude.{
  ℕ, zero, suc, ◌+◌, ◌≤◌, ◌≡◌, refl, Option, some, List, [], ◌∷◌, length, arith, Bool-cases, inl,
  inr, ap, sym, ◌∙◌, ◌-◌, true, ltb,
}
use mathlib.Core.Path.{subst}
use nonetchat_web.Server.Agent.{
  Answer, CallResult, Called, after_wait, call_fuel, call_mistral, asks_again, finish, wait_ms,
  first_retries,
}

abbrev pub sum : List ℕ → ℕ
sum [] = 0
sum (n ∷ ns) = n + sum ns

-- All the delays that a call with these retries can wait for.
abbrev pub longest : ℕ → ℕ
longest zero = 0
longest (suc r) = wait_ms (suc r) + longest r

-- The call ends, with as many delays as retries at most and one request more than delays.
abbrev pub IsBounded : ℕ → Option Called → Type 0
IsBounded r o =
    (c : Called) × (o ≡ some c)
    × (c.requests ≡ length c.waits + 1)
    × (length c.waits ≤ r)
    × (sum c.waits ≤ longest r)

after_wait-IsBounded :
    (r : ℕ) (o : Option Called) → IsBounded r o → IsBounded (suc r) (after_wait (wait_ms (suc r)) o)
after_wait-IsBounded r o (c, e, asked, few, short) = (
  record c { requests = c.requests + 1; waits = wait_ms (suc r) ∷ c.waits },
  ap (after_wait (wait_ms (suc r))) e,
  omega (arith, asked),
  omega (arith, few),
  omega (arith, short),
)

call_again :
    (answers : ℕ → Answer) (n fuel retries : ℕ)
    → asks_again (answers n) ≡ true
    → ltb 0 retries ≡ true
    → call_mistral (suc fuel) answers n retries
      ≡ after_wait (wait_ms retries) (call_mistral fuel answers (n + 1) (retries - 1))
unfolding call_mistral
call_again answers n fuel retries e more = rw e (rw more refl)

bounded : (answers : ℕ → Answer) (n r : ℕ) → IsBounded r (call_mistral (suc r) answers n r)
unfolding call_mistral
bounded answers n zero = elim (Bool-cases (asks_again (answers n))) [
  | inl e ↦ rw e (once (finish (answers n)))
  | inr e ↦ rw e (once (finish (answers n)))
]
  where
    once :
        (r : CallResult) → IsBounded zero (some (record { requests = 1; waits = []; result = r }))
    once r =
        (record { requests = 1; waits = []; result = r }, refl, refl, ground arith, ground arith)
bounded answers n (suc r) = elim (Bool-cases (asks_again (answers n))) [
  | inl e ↦
      let one_less : suc r - 1 ≡ r = omega arith in
      subst (IsBounded (suc r))
        (sym (
          call_again answers n (suc r) (suc r) e (ground arith)
          ∙ ap (λ k. after_wait (wait_ms (suc r)) (call_mistral (suc r) answers (n + 1) k))
              one_less))
        (after_wait-IsBounded r (call_mistral (suc r) answers (n + 1) r)
          (bounded answers (n + 1) r))
  | inr e ↦ rw e (
    record { requests = 1; waits = []; result = finish (answers n) },
    refl,
    refl,
    ground arith,
    ground arith,
  )
]

-- Whatever the service answers, a call with the fuel of the endpoint returns: it has made at most
-- six requests, with one delay before each but the first, and has waited for 15.5 seconds at most.
pub call_mistral_bounded :
    (answers : ℕ → Answer)
    → (c : Called) × (call_mistral call_fuel answers 0 first_retries ≡ some c)
      × (c.requests ≤ 6)
      × (c.requests ≡ length c.waits + 1)
      × (sum c.waits ≤ 15500)
call_mistral_bounded answers =
    let (c, e, asked, few, short) = bounded answers 0 5 in
    (c, e, omega (arith, asked, few), asked, short)
