-- ===== src/Server/Agent/Limits.antt =====
-- The rate limit of the AI agent's endpoint (src/server/server.js, lines 491-514).
use nonetchat_web.Prelude.{
  ℕ, ◌+◌, ◌-◌, ◌≤◌, ◌<◌, String, ◌≡◌, refl, Option, none, some, true, false, List, [], ◌∷◌, length,
  arith, All, if◌then◌else◌, Bool-cases, inl, inr, leb, ltb, leb→le,
}
use Prim.Native.Nat.{min}
use nonetchat_web.Prelude.Dict
use nonetchat_web.Prelude.Dict.{get-set_same}
use nonetchat_web.Server.State.{Server, RateLimit}
use nonetchat_web.Server.Agent.{
  check_ai_rate_limit, limit_found, ai_rate_limit_requests, ai_rate_limit_window_ms, set_limit,
  new_window,
}

-- The number of the requests of one address, at these times, that are let through.
abbrev pub allowed : String → List ℕ → Server → ℕ
allowed ip [] s = 0
allowed ip (t ∷ ts) s =
    let r = check_ai_rate_limit ip t s in (if r.0 then 1 else 0) + allowed ip ts r.1

room_left : (n : ℕ) → leb ai_rate_limit_requests n ≡ false → n + 1 ≤ 10
room_left n h = ground arith

allowed_in_window :
    (ip : String) (ts : List ℕ) (s : Server) (l : RateLimit)
    → Dict.get ip s.ai_rate_limits ≡ some l
    → All (λ t. t ≤ l.reset_time) ts
    → l.requests ≤ 10
    → allowed ip ts s ≡ min (10 - l.requests) (length ts)
unfolding check_ai_rate_limit
allowed_in_window ip [] s l h within few = ground arith
allowed_in_window ip (t ∷ ts) s l h within few =
    let in_time : ltb l.reset_time t ≡ false = ground (arith, within.0) in
    elim (Bool-cases (leb ai_rate_limit_requests l.requests)) [
      | inl full ↦ rw h (
          rw in_time (
            rw full (
              omega
                (arith, allowed_in_window ip ts s l h within.1 few, leb→le 10 l.requests full))))
      | inr room ↦ rw h (
          rw in_time (
            rw room (
              let next = record l { requests = l.requests + 1 } in
              omega (
                arith,
                room_left l.requests room,
                allowed_in_window ip ts (set_limit ip next s) next
                    (get-set_same ip next s.ai_rate_limits) within.1 (room_left l.requests room),
              ))))
    ]

abbrev IsOver : ℕ → Option RateLimit → Type 0
IsOver t none = Unit
IsOver t (some l) = l.reset_time < t

starts :
    (ip : String) (t : ℕ) (s : Server) (o : Option RateLimit)
    → IsOver t o
    → limit_found ip t s o ≡ new_window ip t s
starts ip t s none over = refl
starts ip t s (some l) over = let e : ltb l.reset_time t ≡ true = ground (arith, over) in rw e refl

-- Of the requests of one address within a minute after the first, exactly the first ten are let
-- through, where that address has no window yet or its window is over at the first.
pub check_ai_rate_limit_lets_ten :
    (ip : String) (t : ℕ) (ts : List ℕ) (s : Server)
    → IsOver t (Dict.get ip s.ai_rate_limits)
    → All (λ u. u ≤ t + 60000) ts
    → allowed ip (t ∷ ts) s ≡ min 10 (length (t ∷ ts))
unfolding check_ai_rate_limit
check_ai_rate_limit_lets_ten ip t ts s over within =
    let first : RateLimit = record { requests = 1; reset_time = t + ai_rate_limit_window_ms } in
    let fresh : limit_found ip t s (Dict.get ip s.ai_rate_limits) ≡ new_window ip t s =
      starts ip t s (Dict.get ip s.ai_rate_limits) over in
    rw fresh (
      omega (
        arith,
        allowed_in_window ip ts (set_limit ip first s) first
            (get-set_same ip first s.ai_rate_limits) within (ground arith),
      ))
