-- ===== src/Peer/Links.antt =====
-- Connections and channels (src/services/PeerService.ts, lines 454-472, 737-871, 885-891, 961-975,
-- 1009-1013, 1039-1043, 1227-1230, 1520-1547, 1570-1614 and 1675-1690).
pub mod Relay
pub mod Blocking
pub mod Reach
pub mod Initiator
pub mod Pruning
use nonetchat_web.Prelude.{
  ℕ, ◌+◌, String, ◌≡◌, Bool, true, false, ◌&&◌, ◌||◌, not, Option, none, some, List, [], ◌∷◌, ◌++◌,
  ◌==◌, ltb, nat_eq, text_lt, if◌then◌else◌, or_else, map, starts_with,
}
use nonetchat_web.Prelude.Dict
use nonetchat_web.Prelude.Dict.{Dict}
use nonetchat_web.Prelude.StrSet
use nonetchat_web.Store.Tables.{add_to_block_list, remove_from_block_list, get_block_list}
use nonetchat_web.Store.Exec.{Result, ok, err}
use nonetchat_web.Peer.State.{
  Peer, Channel, Connection, IceState, fresh, checking, connected, completed, failed, disconnected,
  ReadyState, connecting, opened, closing, closed, Event, peer_left, blocklist_updated,
  ServerMessage, offer_to, answer_to,
}

abbrev pub is_agent : String → Bool
is_agent peer_id = starts_with peer_id "ai-"

abbrev pub is_blocked : String → Peer → Bool
is_blocked peer_id s = StrSet.mem peer_id s.block_list

-- `RTCPeerConnection.close` closes the channels of the connection without an event.
abbrev close_found : String → Dict Channel → Option Channel → Dict Channel
close_found peer_id chans none = chans
close_found peer_id chans (some c) = Dict.set peer_id (record c { ready_state = closed }) chans

abbrev pub close_channel : String → Dict Channel → Dict Channel
close_channel peer_id chans = close_found peer_id chans (Dict.get peer_id chans)

abbrev close_pc : String → Peer → Peer
close_pc peer_id s =
    if Dict.has peer_id s.peer_connections
    then record s {
      peer_connections = Dict.delete peer_id s.peer_connections;
      public_data_channels = close_channel peer_id s.public_data_channels;
      public_ctrl_channels = close_channel peer_id s.public_ctrl_channels;
    }
    else s

abbrev forget : String → Peer → Peer
forget peer_id s = record s {
  data_channels = Dict.delete peer_id s.data_channels;
  peers_meta = Dict.delete peer_id s.peers_meta;
  events = s.events ++ peer_left peer_id ∷ [];
}

unfoldable pub close_peer_connection : String → Peer → Peer
close_peer_connection peer_id s =
    if is_agent peer_id then s else forget peer_id (close_pc peer_id s)

abbrev pub new_channel : ℕ → Channel
new_channel id = record { id = id; ready_state = connecting; full = false; frames = [] }

unfoldable pub setup_public_data_channel : String → Channel → Peer → Peer
setup_public_data_channel peer_id c s =
    if is_blocked peer_id s
    then s
    else record s { public_data_channels = Dict.set peer_id c s.public_data_channels }

unfoldable pub setup_public_ctrl_data_channel : String → Channel → Peer → Peer
setup_public_ctrl_data_channel peer_id c s =
    if is_blocked peer_id s
    then s
    else record s { public_ctrl_channels = Dict.set peer_id c s.public_ctrl_channels }

unfoldable pub setup_data_channel : String → Channel → Peer → Peer
setup_data_channel peer_id c s =
    if is_blocked peer_id s
    then s
    else record s { data_channels = Dict.set peer_id c s.data_channels }

-- `pc.ondatachannel`, by the label of the channel.
unfoldable pub on_data_channel : String → String → Channel → Peer → Peer
unfolding setup_public_data_channel setup_public_ctrl_data_channel setup_data_channel
on_data_channel peer_id label c s =
    if label == "public"
    then setup_public_data_channel peer_id c s
    else if label == "public-ctrl"
    then setup_public_ctrl_data_channel peer_id c s
    else setup_data_channel peer_id c s

-- A closing channel leaves the map only if it is the one that stands there.
abbrev drop_same : String → ℕ → Dict Channel → Option Channel → Dict Channel
drop_same peer_id id chans none = chans
drop_same peer_id id chans (some c) = if nat_eq c.id id then Dict.delete peer_id chans else chans

unfoldable pub on_public_channel_close : String → ℕ → Peer → Peer
on_public_channel_close peer_id id s = record s {
  public_data_channels =
      drop_same peer_id id s.public_data_channels (Dict.get peer_id s.public_data_channels);
}

unfoldable pub on_public_ctrl_channel_close : String → ℕ → Peer → Peer
on_public_ctrl_channel_close peer_id id s = record s {
  public_ctrl_channels =
      drop_same peer_id id s.public_ctrl_channels (Dict.get peer_id s.public_ctrl_channels);
}

pub data Role : Type 0 where
  auto initiator responder : Role

-- Of two peers the one with the greater id makes the offer.
unfoldable pub is_initiator : Role → String → String → Bool
is_initiator initiator my_id peer_id = true
is_initiator responder my_id peer_id = false
is_initiator auto my_id peer_id = text_lt peer_id my_id

abbrev pub to_server : ServerMessage → Peer → Peer
to_server m s = record s { to_server = s.to_server ++ m ∷ [] }

abbrev pub new_connection : Connection
new_connection = record {
  ice_state = fresh;
  relay_only = false;
  has_remote_description = false;
  restarts = 0;
}

abbrev open_public : String → ℕ → Bool → Peer → Peer
open_public peer_id id false s = s
open_public peer_id id true s = to_server (offer_to peer_id) (
    setup_public_ctrl_data_channel peer_id (new_channel (id + 1))
      (setup_public_data_channel peer_id (new_channel id) s))

-- `id` and `id + 1` are the identities of the two channels that an initiator creates.
unfoldable pub create_peer_connection : String → Role → ℕ → Peer → Peer
unfolding setup_public_data_channel setup_public_ctrl_data_channel is_initiator
create_peer_connection peer_id role id s =
    if Dict.has peer_id s.peer_connections
    then s
    else open_public peer_id id (is_initiator role s.my_id peer_id)
        (record s { peer_connections = Dict.set peer_id new_connection s.peer_connections })

-- The chat channel is created on demand, and an offer is made for it.
unfoldable pub ensure_chat_channel : String → ℕ → Peer → Peer
unfolding create_peer_connection setup_data_channel
ensure_chat_channel peer_id id s =
    if is_agent peer_id
    then s
    else let s₁ = create_peer_connection peer_id initiator id s in
      if Dict.has peer_id s₁.data_channels
      then s₁
      else to_server (offer_to peer_id) (setup_data_channel peer_id (new_channel (id + 2)) s₁)

abbrev change_found : String → (Connection → Connection) → Peer → Option Connection → Peer
change_found peer_id f s none = s
change_found peer_id f s (some pc) = record s {
  peer_connections = Dict.set peer_id (f pc) s.peer_connections;
}

abbrev change_pc : String → (Connection → Connection) → Peer → Peer
change_pc peer_id f s = change_found peer_id f s (Dict.get peer_id s.peer_connections)

abbrev describe : Connection → Connection
describe pc = record pc { has_remote_description = true }

-- `accepted` says whether the browser takes the description; where it does not, the handler throws.
unfoldable pub handle_offer : String → ℕ → Bool → Peer → Peer
unfolding create_peer_connection
handle_offer from id accepted s =
    let s₁ = create_peer_connection from responder id s in
    if accepted then to_server (answer_to from) (change_pc from describe s₁) else s₁

unfoldable pub handle_answer : String → Bool → Peer → Peer
handle_answer from accepted s = if accepted then change_pc from describe s else s

-- `RTCPeerConnection` has one candidate pair in this model: only the guard of the handler counts.
unfoldable pub takes_candidate : String → Peer → Bool
takes_candidate from s = elim (Dict.get from s.peer_connections) [
  | none ↦ false
  | some pc ↦ pc.has_remote_description
]

abbrev go_relay : Connection → Connection
go_relay pc = record pc { relay_only = true; restarts = pc.restarts + 1 }

abbrev restart : Connection → Connection
restart pc = record pc { restarts = pc.restarts + 1 }

-- The timer of 7 s: where ICE is still checking, only relays are tried from then on.
unfoldable pub on_relay_timer : String → Peer → Peer
on_relay_timer peer_id s =
    change_pc peer_id (λ pc. elim pc.ice_state [ checking ↦ go_relay pc | _ ↦ pc ]) s

abbrev fall_back : String → Peer → Bool → Peer
fall_back peer_id s true = close_peer_connection peer_id s
fall_back peer_id s false = change_pc peer_id go_relay s

abbrev on_failed : String → Peer → Option Connection → Peer
on_failed peer_id s none = s
on_failed peer_id s (some pc) = fall_back peer_id s pc.relay_only

-- `oniceconnectionstatechange`: the first failure falls back to relays, the next one closes.
unfoldable pub on_ice_state : String → IceState → Peer → Peer
unfolding close_peer_connection
on_ice_state peer_id state s =
    let s₁ = change_pc peer_id (λ pc. record pc { ice_state = state }) s in
    elim state [ failed ↦ on_failed peer_id s₁ (Dict.get peer_id s₁.peer_connections) | _ ↦ s₁ ]

-- 1.5 s after 'disconnected'.
unfoldable pub on_disconnected_timer : String → Peer → Peer
on_disconnected_timer peer_id s =
    change_pc peer_id (λ pc. elim pc.ice_state [ disconnected ↦ restart pc | _ ↦ pc ]) s

-- `onconnectionstatechange`, for the states 'failed' and 'disconnected', and `onclose` of the chat
-- channel.
unfoldable pub on_connection_lost : String → Peer → Peer
unfolding close_peer_connection
on_connection_lost peer_id s = close_peer_connection peer_id s

-- A failure to store the block rejects before the connection is closed.
abbrev after_block : String → Result (Unit {0}) → Peer → Peer
after_block peer_id (err _) s = s
after_block peer_id (ok _) s =
    let s₁ = close_peer_connection peer_id s in
    record s₁ { events = s₁.events ++ blocklist_updated s₁.block_list ∷ [] }

unfoldable pub block_peer : String → Peer → Peer
unfolding close_peer_connection
block_peer peer_id s =
    if is_agent peer_id || is_blocked peer_id s
    then s
    else let (r, idb) = add_to_block_list peer_id s.idb in
      after_block peer_id r (record s { block_list = StrSet.add peer_id s.block_list; idb = idb })

abbrev after_unblock : Result (Unit {0}) → Peer → Peer
after_unblock (err _) s = s
after_unblock (ok _) s = record s { events = s.events ++ blocklist_updated s.block_list ∷ [] }

unfoldable pub unblock_peer : String → Peer → Peer
unblock_peer peer_id s =
    if not (is_blocked peer_id s)
    then s
    else let (r, idb) = remove_from_block_list peer_id s.idb in
      after_unblock r (record s { block_list = StrSet.remove peer_id s.block_list; idb = idb })

-- The state is not renewed where the list cannot be read.
unfoldable pub load_block_list : Peer → Peer
load_block_list s =
    let (r, idb) = get_block_list s.idb in
    elim r [
      | err _ ↦ record s { idb = idb }
      | ok list ↦ record s { idb = idb; block_list = StrSet.of_list list }
    ]

abbrev pub grace_period : ℕ
grace_period = 60000

-- `!seen || now - seen > GRACE_PERIOD`; a time of 0 counts as none.
abbrev pub is_stale : ℕ → Option ℕ → Bool
is_stale now none = true
is_stale now (some seen) = nat_eq seen 0 || ltb (seen + grace_period) now

abbrev pub is_alive : IceState → Bool
is_alive connected = true
is_alive checking = true
is_alive _ = false

abbrev unsee : String → Peer → Peer
unsee peer_id s = record s { last_seen = Dict.delete peer_id s.last_seen }

abbrev pub is_dead : ℕ → String → Connection → Peer → Bool
is_dead now peer_id pc s =
    is_stale now (Dict.get peer_id s.last_seen) && not (is_alive pc.ice_state)

unfoldable pub prune_one : ℕ → String × Connection → Peer → Peer
unfolding close_peer_connection
prune_one now (peer_id, pc) s =
    if is_dead now peer_id pc s then unsee peer_id (close_peer_connection peer_id s) else s

unfoldable pub prune_all : ℕ → List (String × Connection) → Peer → Peer
unfolding prune_one
prune_all now [] s = s
prune_all now (e ∷ es) s = prune_all now es (prune_one now e s)

-- One tick of the pruning interval.
unfoldable pub prune : ℕ → Peer → Peer
unfolding prune_all
prune now s = prune_all now s.peer_connections s

unfoldable pub destroy : Peer → Peer
destroy s = record s {
  peer_connections = [];
  data_channels = [];
  public_data_channels = [];
  public_ctrl_channels = [];
  message_queue = [];
  peers_meta = [];
  nearby_notification_history = [];
}
