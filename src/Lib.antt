-- ===== src/Lib.antt =====
-- nonetchat-web: a messenger between browsers. Peers find each other over a signalling server,
-- talk over WebRTC data channels, flood the messages of a public room from neighbour to
-- neighbour, and keep their conversations in IndexedDB.
--
-- The parts and their modules:
--
-- - Protocol: the messages that peers exchange (src/services/PeerService.ts, `PeerMessage`),
--   with one payload constructor for each shape that a handler reads.
-- - Store: the database (src/services/IndexedDBService.ts). `Store.Types` has the records of the
--   object stores and `Db`, the database. `Store.Exec` is the monad of its methods: a method
--   throws while the database is not open, and each of its transactions commits or aborts, as
--   `outcomes` says. `Store.Messages`, `Store.Reactions`, `Store.Deletion`, `Store.PublicCache`
--   and `Store.Tables` have one function for each method (`save_message` for `saveMessage`). A
--   body of one transaction is a function on `Db`; a method that runs several transactions
--   composes them with `>>=`.
-- - Peer: `PeerService` of src/services/PeerService.ts. `Peer.State` is its state, one record
--   field for each field of the class that a modelled handler uses, with what it has emitted and
--   sent. `Peer.Outbox` has the queues and `sendToPeer`, which calls the database and
--   `encryptMessage` of src/services/CryptoService.ts; `Peer.Restore` is
--   `restorePendingMessages`, and `Peer.Flush` what the handler of 'key-exchange' does with the
--   queue. `Peer.Links` has the connections, their channels, blocking and pruning. `Peer.Mesh`
--   chooses the neighbours when the server lists the nearby peers, and calls `Peer.Links` to
--   connect and to close. `Peer.Room` shows and passes on the messages of the public room.
--   `Peer.Inbox` has the handlers of what arrives on a chat channel or a public control channel
--   (`on_message` for `onmessage` of `setupDataChannel`), `Peer.Profiles` the messages that tell
--   of the own profile, and `Peer.Files` `sendFile` with the format of an encrypted file
--   (`encryptFile` and `decryptFile` of src/services/CryptoService.ts).
-- - Notifications: src/services/NotificationService.ts.
-- - Chat: the handlers of src/components/ChatWindow.tsx for what `PeerService` emits, on the
--   window's state and the same database. `Chat.Receiving` joins them with `Peer.Files`, and
--   `Chat.Reacting` with `Peer.Inbox`.
-- - Server: server/server.js, run without Redis. `Server.State` is its state, with a log of what
--   it did to sockets and push services. `Server.Sessions` and `Server.Push` have the devices,
--   sessions and subscriptions, `Server.Discovery` the quadtree, the rooms and
--   `broadcastPeerUpdates`, `Server.Signalling` the handlers of a WebSocket connection
--   (`on_client_message` for 'message'), `Server.Heartbeat` the liveness check and
--   `Server.Agent` the AI endpoint. The rooms of the server are read by `Peer.Room`
--   (`Server.Discovery.Rooms`). `Server.Reach` has the runs of its handlers, in any order.
-- - Profile: src/services/ProfileService.ts on the same database; `Device` has the browser's part
--   and what localStorage holds.
-- - Auth: src/services/AuthService.ts, joined with `Server.Sessions` in `Auth.Accepted`.
-- - Prelude: lists, JavaScript's `Map` and `Set` as association lists and lists, stable sorting,
--   and texts by their characters.
-- - Tests: concrete states, and one use of each theorem on them.
--
-- What stands for the code that is not in the repository. The cipher of the browser and the
-- length of what `JSON.stringify` writes are fields of `Platform`, an argument of the functions
-- that use them. The clock, fresh UUIDs and initialisation vectors are arguments (`Draw`,
-- `now`, `Chance`). The profile, the keys and the avatar of the peer itself are fields of `Own`,
-- the ciphers on bytes and gzip fields of `FileCode`, the texts of the interface fields of
-- `Texts`. SHA-256, ngeohash, the GeoIP reader, the push services and what the server computes
-- with floating-point numbers are fields of `World`. The identity of a new channel is an argument, since the code compares channels by
-- identity. A channel has a flag `full` that says whether `send` throws. A description that the
-- browser may refuse comes with a flag `accepted`.
--
-- Choices of the model. A handler runs to its end before the next one starts, so the
-- interleavings at an `await` are not there; the sequences of whole operations are
-- (`Peer.Links.Reach`). Texts are ordered by their characters, which is the order of the UTF-16
-- units except where a character beyond U+FFFF meets one from U+E000 to U+FFFF. The numbers of
-- the model are natural and not rounded; the hash is written modulo 2 ^ 32. `put` keeps the
-- records of a store in the order of their keys. `JSON.parse` is the inverse of `JSON.stringify`
-- on the messages of the protocol, so a frame is the message itself; frames that are no such
-- message are not modelled. Loops are structural, but for the one that sends the slices of a
-- file: its fuel is one more than the length of the file, and `Peer.Files.Slices` shows that
-- this is enough; and the calls of the language model, whose fuel is `call_fuel`
-- (`Server.Agent.Retries`). Radii are whole kilometres.
--
-- Not modelled: the user interface (src/App.tsx and src/components, but for the handlers above),
-- the WebSocket of the client and its reconnection, geolocation, the requests to the AI endpoint
-- from the client, the drawing of the profile's images, diagnostics, audio and the drawing of the
-- badge; of the server its Redis client, the TURN, status and GeoIP endpoints, the proxy headers
-- and the shutdown.
pub mod Prelude
pub mod Protocol
pub mod Store
pub mod Peer
pub mod Notifications
pub mod Chat
pub mod Server
pub mod Auth
pub mod Profile
pub mod Tests
