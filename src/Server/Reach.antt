-- ===== src/Server/Reach.antt =====
-- What the server can come to from its start, one handler after the other (src/server/server.js, the handlers
-- of lines 373-482, 543-726, 742-758 and 1007-1277).
pub mod Clients
use nonetchat_web.Prelude.{ℕ, String, Option, Bool, List, [], ◌∷◌}
use nonetchat_web.Server.State.{Server, Subscription, World}
use nonetchat_web.Server.Sessions.{auth_session}
use nonetchat_web.Server.Push.{save_subscription}
use nonetchat_web.Server.Discovery.{Chance}
use nonetchat_web.Server.Signalling.{
  ClientMessage, on_connection, on_client_message, on_close, on_pong,
}
use nonetchat_web.Server.Heartbeat.{heartbeat_tick}
use nonetchat_web.Server.Agent.{AiConfig, Turn, ai_chat}

abbrev pub start : Server
start = record {
  clients = [];
  ids = [];
  open_sockets = [];
  geo_tree = [];
  device_auth = [];
  sessions = [];
  push_subscriptions = [];
  ai_rate_limits = [];
  log = [];
}

-- One run of a handler.
pub data ServerStep (w : World) : Server → Server → Type 0 where
  connects :
      {s : Server} (production : Bool) (origin : Option String) (ws : ℕ)
      → ServerStep w s (on_connection production origin ws s)
  says :
      {s : Server} (h : Chance) (ws : ℕ) (ip : Option String) (m : ClientMessage)
      → ServerStep w s (on_client_message w h ws ip m s)
  closes : {s : Server} (h : Chance) (ws : ℕ) → ServerStep w s (on_close w h ws s)
  answers : {s : Server} (ws : ℕ) → ServerStep w s (on_pong ws s)
  ticks : {s : Server} (h : Chance) → ServerStep w s (heartbeat_tick w h s)
  logs_in :
      {s : Server} (now : ℕ) (token : String) (device_id key : Option String)
      → ServerStep w s (auth_session w now token device_id key s).1
  subscribes :
      {s : Server} (now : ℕ) (token : Option String) (sub : Option Subscription)
      → ServerStep w s (save_subscription w now token sub s).1
  asks :
      {s : Server} (a : AiConfig) (ip : String) (now : ℕ) (token agent_id : Option String)
      (turns : Option (List (Option Turn)))
      → ServerStep w s (ai_chat w a ip now token agent_id turns s).1

pub data ServerSteps (w : World) : Server → Server → Type 0 where
  done : {s : Server} → ServerSteps w s s
  next : {s t u : Server} → ServerStep w s t → ServerSteps w t u → ServerSteps w s u
