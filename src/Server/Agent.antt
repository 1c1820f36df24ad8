-- ===== src/Server/Agent.antt =====
-- The AI agent's endpoint (src/server/server.js, lines 491-514 and 543-722): its rate limit, the checks of
-- the request, and the calls of the language model, tried again on some errors.
pub mod Limits
pub mod Retries
use nonetchat_web.Prelude.{
  ℕ, zero, suc, ◌+◌, ◌-◌, ◌*◌, ◌^◌, String, Option, none, some, Bool, true, false, ◌&&◌, ◌||◌, not,
  List, [], ◌∷◌, ◌==◌, ltb, leb, nat_eq, if◌then◌else◌, truthy, is_some, length, filter, ◌⊎◌, inl,
  inr, ◌/◌,
}
use Prim.Native.Char.{Char, code}
use Prim.Native.String.{count, ◌++◌ as ◌⧺◌}
use nonetchat_web.Prelude.TextParts.{chars, text_of_chars}
use nonetchat_web.Prelude.Dict
use nonetchat_web.Server.State.{Server, RateLimit, World}

abbrev pub ai_rate_limit_requests : ℕ
ai_rate_limit_requests = 10

abbrev pub ai_rate_limit_window_ms : ℕ
ai_rate_limit_window_ms = 60 * 1000

abbrev pub set_limit : String → RateLimit → Server → Server
set_limit ip l s = record s { ai_rate_limits = Dict.set ip l s.ai_rate_limits }

abbrev pub new_window : String → ℕ → Server → Bool × Server
new_window ip now s =
    (true, set_limit ip (record { requests = 1; reset_time = now + ai_rate_limit_window_ms }) s)

abbrev pub limit_found : String → ℕ → Server → Option RateLimit → Bool × Server
limit_found ip now s none = new_window ip now s
limit_found ip now s (some l) =
    if ltb l.reset_time now
    then new_window ip now s
    else (if leb ai_rate_limit_requests l.requests
        then (false, s)
        else (true, set_limit ip (record l { requests = l.requests + 1 }) s))

unfoldable pub check_ai_rate_limit : String → ℕ → Server → Bool × Server
check_ai_rate_limit ip now s = limit_found ip now s (Dict.get ip s.ai_rate_limits)

-- A message of the conversation as it comes; `none` is a field that is not a text.
pub record Turn : Type 0 where
  pub role : Option String
  pub content : Option String

-- How the language model's service answers one request.
pub data Answer : Type 0 where
  answered : (status : ℕ) → (body : String) → Answer
  aborted unreachable failed : Answer

pub data CallError : Type 0 where
  api_error : ℕ → CallError
  request_timeout network_error other_error : CallError

pub data CallResult : Type 0 where
  replied : (body : String) → CallResult
  threw : CallError → CallResult

-- The number of requests, the delays that were waited for, and the result.
pub record Called : Type 0 where
  pub requests : ℕ
  pub waits : List ℕ
  pub result : CallResult

-- `2 ** (4 - retries) * 1000`
abbrev pub wait_ms : ℕ → ℕ
wait_ms retries = if ltb 4 retries then 1000 / 2 ^ (retries - 4) else 2 ^ (4 - retries) * 1000

abbrev is_client_error : ℕ → Bool
is_client_error status = leb 400 status && ltb status 500

abbrev is_success : ℕ → Bool
is_success status = leb 200 status && ltb status 300

abbrev pub finish : Answer → CallResult
finish (answered status body) = if is_success status then replied body else threw (api_error status)
finish aborted = threw request_timeout
finish unreachable = threw network_error
finish failed = threw other_error

abbrev asks_again : Answer → Bool
asks_again (answered status body) = is_client_error status
asks_again _ = false

abbrev pub after_wait : ℕ → Option Called → Option Called
after_wait ms none = none
after_wait ms (some c) = some (record c { requests = c.requests + 1; waits = ms ∷ c.waits })

-- `answers n` is the answer to the request `n`. Each call takes one unit of fuel for itself, and is
-- `none` where there is none left.
unfoldable pub call_mistral : (fuel : ℕ) → (ℕ → Answer) → ℕ → (retries : ℕ) → Option Called
call_mistral zero answers n retries = none
call_mistral (suc fuel) answers n retries =
    let again = after_wait (wait_ms retries) (call_mistral fuel answers (n + 1) (retries - 1)) in
    if asks_again (answers n) && ltb 0 retries
    then again
    else some (record { requests = 1; waits = []; result = finish (answers n) })

abbrev pub first_retries : ℕ
first_retries = 5

pub data AiReply : Type 0 where
  ai_error : (status : ℕ) → (error : String) → AiReply
  ai_result : (body : String) → AiReply

abbrev reply_to : CallResult → AiReply
reply_to (replied body) = ai_result body
reply_to (threw request_timeout) = ai_error 408 "Request timeout - please try again"
reply_to (threw network_error) = ai_error 503 "Network error - service temporarily unavailable"
reply_to (threw (api_error status)) =
    if nat_eq status 429
    then ai_error 429 "AI service is busy, please try again later"
    else (if nat_eq status 401
        then ai_error 500 "AI service configuration error"
        else ai_error 500 "Failed to get response from AI agent.")
reply_to (threw other_error) = ai_error 500 "Failed to get response from AI agent."

abbrev is_role : Option String → Bool
is_role none = false
is_role (some r) = r == "user" || r == "assistant"

abbrev pub max_turn : ℕ
max_turn = 4000

abbrev pub max_total : ℕ
max_total = 20000

abbrev pub max_turns : ℕ
max_turns = 50

-- Tab, line feed and carriage return stay.
abbrev is_control : ℕ → Bool
is_control c = leb c 8 || nat_eq c 11 || nat_eq c 12 || leb 14 c && leb c 31 || nat_eq c 127

abbrev pub sanitized : String → String
sanitized t = text_of_chars (filter (λ c. not (is_control (code c))) (chars t))

abbrev at_index : World → String → ℕ → String
at_index w t i = t ⧺ w.print_number i

abbrev check_content : World → ℕ → Option String → AiReply ⊎ String
check_content w i none = inl (ai_error 400 (at_index w "Invalid content at message index " i))
check_content w i (some t) =
    if ltb max_turn (count t)
    then inl (ai_error 400 (at_index w "Message too long at index " i ⧺ " (max 4000 characters)"))
    else inr (sanitized t)

-- The content of one message, without its control characters, or the error.
abbrev pub check_turn : World → ℕ → Option Turn → AiReply ⊎ String
check_turn w i none = inl (ai_error 400 (at_index w "Invalid message at index " i))
check_turn w i (some t) =
    if is_role t.role
    then check_content w i (truthy t.content)
    else inl (ai_error 400 (at_index w "Invalid role at message index " i))

abbrev and_rest : AiReply ⊎ String → AiReply ⊎ List String → AiReply ⊎ List String
and_rest (inl e) rest = inl e
and_rest (inr t) (inl e) = inl e
and_rest (inr t) (inr ts) = inr (t ∷ ts)

-- The first message that is refused decides.
unfoldable pub check_turns : World → ℕ → List (Option Turn) → AiReply ⊎ List String
check_turns w i [] = inr []
check_turns w i (t ∷ ts) = and_rest (check_turn w i t) (check_turns w (suc i) ts)

unfoldable pub total_length : List String → ℕ
total_length [] = 0
total_length (t ∷ ts) = count t + total_length ts

abbrev check_total : AiReply ⊎ List String → AiReply ⊎ List String
check_total (inl e) = inl e
check_total (inr ts) =
    if ltb max_total (total_length ts)
    then inl (ai_error 400 "Total conversation content too large")
    else inr ts

abbrev is_agent_id : Option String → Bool
is_agent_id none = false
is_agent_id (some id) = id == "ai-martine"

abbrev check_messages : World → Option (List (Option Turn)) → AiReply ⊎ List String
check_messages w none = inl (ai_error 400 "Messages must be an array")
check_messages w (some []) = inl (ai_error 400 "Messages array cannot be empty")
check_messages w (some (t ∷ ts)) =
    if ltb max_turns (length (t ∷ ts))
    then inl (ai_error 400 "Too many messages in conversation history")
    else check_total (check_turns w 0 (t ∷ ts))

-- The contents that go to the language model, or the error.
unfoldable pub check_request :
    World → Option String → Option (List (Option Turn)) → AiReply ⊎ List String
unfolding check_turns total_length
check_request w agent_id messages =
    if is_agent_id agent_id
    then check_messages w messages
    else inl (ai_error 400 "Invalid or missing agentId")

-- The environment of the endpoint; `ask` is how the service answers each request on such contents.
pub record AiConfig : Type 0 where
  pub mistral_key : Option String
  pub api_token : Option String
  pub ask : List String → ℕ → Answer

-- The fuel of the endpoint. `Server.Agent.Retries` shows that it is enough.
abbrev pub call_fuel : ℕ
call_fuel = 6

abbrev reply_called : Option Called → AiReply
reply_called none = ai_error 500 "Failed to get response from AI agent."
reply_called (some c) = reply_to c.result

abbrev answer_with : AiConfig → AiReply ⊎ List String → AiReply
answer_with a (inl e) = e
answer_with a (inr ts) = reply_called (call_mistral call_fuel (a.ask ts) 0 first_retries)

abbrev pub limited :
    World
    → AiConfig
    → Option String
    → Option (List (Option Turn))
    → Bool × Server
    → AiReply × Server
limited w a agent_id messages (false, s) =
    (ai_error 429 "Too many requests. Please wait before trying again.", s)
limited w a agent_id messages (true, s) = (answer_with a (check_request w agent_id messages), s)

abbrev pub is_authorized : AiConfig → Option String → Bool
is_authorized a none = false
is_authorized a (some t) = elim a.api_token [ none ↦ false | some u ↦ t == u ]

-- POST /api/ai-chat, with the token of its headers.
unfoldable pub ai_chat :
    World
    → AiConfig
    → String
    → ℕ
    → Option String
    → Option String
    → Option (List (Option Turn))
    → Server
    → AiReply × Server
unfolding check_ai_rate_limit check_request call_mistral
ai_chat w a ip now token agent_id messages s =
    if not (is_some (truthy a.mistral_key))
    then (ai_error 500 "MISTRAL_API_KEY is not configured on the server.", s)
    else (if is_authorized a (truthy token)
        then limited w a agent_id messages (check_ai_rate_limit ip now s)
        else (ai_error 401 "Unauthorized - valid API token required", s))
