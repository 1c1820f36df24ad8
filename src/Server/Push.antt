-- ===== src/Server/Push.antt =====
-- Push subscriptions and the notifications sent to them (src/server/server.js, lines 179-247 and 443-482).
use nonetchat_web.Prelude.{
  ℕ, String, Option, none, some, List, [], ◌∷◌, if◌then◌else◌, or_else, truthy,
}
use nonetchat_web.Prelude.Dict
use nonetchat_web.Prelude.Dict.{Dict}
use nonetchat_web.Server.State.{
  Server, Session, Subscription, Push, PushAnswer, gone, World, log_effect, pushed,
}
use nonetchat_web.Server.Sessions.{Reply, saved, get_session_info, refresh_session}
use nonetchat_web.Server.Sessions

abbrev pub subscriptions_of : String → Server → Dict Subscription
subscriptions_of user s = or_else (Dict.get user s.push_subscriptions) []

abbrev pub add_endpoint : String → Subscription → Server → Option String → Server
add_endpoint user sub s none = s
add_endpoint user sub s (some ep) = record s {
  push_subscriptions =
      Dict.set user (Dict.set ep sub (subscriptions_of user s)) s.push_subscriptions;
}

unfoldable pub add_subscription : String → Subscription → Server → Server
add_subscription user sub s = add_endpoint user sub s (truthy sub.endpoint)

-- `userId` may be undefined.
unfoldable pub get_user_subscriptions : Option String → Server → List Subscription
get_user_subscriptions none s = []
get_user_subscriptions (some user) s = Dict.values (subscriptions_of user s)

unfoldable pub delete_endpoints : List (Option String) → Dict Subscription → Dict Subscription
delete_endpoints [] m = m
delete_endpoints (none ∷ eps) m = delete_endpoints eps m
delete_endpoints (some ep ∷ eps) m = delete_endpoints eps (Dict.delete ep m)

abbrev pub keep_user : String → Dict Subscription → Server → Server
keep_user user [] s = record s { push_subscriptions = Dict.delete user s.push_subscriptions }
keep_user user (x ∷ xs) s = record s {
  push_subscriptions = Dict.set user (x ∷ xs) s.push_subscriptions;
}

abbrev pub delete_from :
    String → List (Option String) → Server → Option (Dict Subscription) → Server
delete_from user eps s none = s
delete_from user eps s (some m) = keep_user user (delete_endpoints eps m) s

-- A user with no subscription left is deleted from the map.
unfoldable pub delete_user_subscriptions : String → List (Option String) → Server → Server
unfolding delete_endpoints
delete_user_subscriptions user [] s = s
delete_user_subscriptions user (ep ∷ eps) s =
    delete_from user (ep ∷ eps) s (Dict.get user s.push_subscriptions)

abbrev pub stale : PushAnswer → Option String → List (Option String) → List (Option String)
stale gone ep rest = ep ∷ rest
stale answer ep rest = rest

-- The endpoints that a push service no longer knows (404 or 410).
unfoldable pub stale_endpoints : World → Push → List Subscription → List (Option String)
stale_endpoints w p [] = []
stale_endpoints w p (sub ∷ subs) =
    stale (w.send_notification sub p) sub.endpoint (stale_endpoints w p subs)

unfoldable pub log_pushes : Push → List Subscription → Server → Server
log_pushes p [] s = s
log_pushes p (sub ∷ subs) s = log_pushes p subs (log_effect (pushed sub.endpoint p) s)

abbrev pub push_all : World → Option String → Push → List Subscription → Server → Server
push_all w none p subs s = s
push_all w (some user) p subs s =
    delete_user_subscriptions user (stale_endpoints w p subs) (log_pushes p subs s)

unfoldable pub send_push_to_user : World → Option String → Push → Server → Server
unfolding stale_endpoints log_pushes get_user_subscriptions delete_user_subscriptions
send_push_to_user w user p s =
    if w.push_enabled then push_all w user p (get_user_subscriptions user s) s else s

abbrev pub save_for :
    World → ℕ → String → Option Subscription → Option Session × Server → Reply × Server
save_for w now token sub (none, s) = (Sessions.refused 401 "Invalid session", s)
save_for w now token none (some r, s) = (Sessions.refused 400 "Missing subscription payload", s)
save_for w now token (some x) (some r, s) =
    (saved, refresh_session w token now (add_subscription r.device_id x s))

abbrev pub save_with : World → ℕ → Option Subscription → Server → Option String → Reply × Server
save_with w now sub s none = (Sessions.refused 401 "Missing Authorization header", s)
save_with w now sub s (some token) = save_for w now token sub (get_session_info token now s)

-- POST /api/save-subscription, with the token of its header: the subscription is the session's
-- device's, whatever user the body names.
unfoldable pub save_subscription :
    World → ℕ → Option String → Option Subscription → Server → Reply × Server
unfolding add_subscription
save_subscription w now token sub s = save_with w now sub s (truthy token)
