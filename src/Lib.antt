-- ===== src/Lib.antt =====
-- MyFlowHub core: a message hub over byte streams, and its verification.
--
-- The program. A frame is a 32-byte header (header/header.go) and a payload. Connections deliver
-- frames through a read loop (reader/) and take them through a writer (writeutil.go,
-- process/frame_writer.go). A connection manager (connmgr/manager.go) holds the connections and
-- indexes them by node and device. The pre-routing process (process/prerouting.go) decides by the
-- header alone (process/header_router.go) whether a frame is dropped, handled here, passed on or
-- spread to the children; it asks the manager where to send and sends through the server. The
-- dispatcher (process/dispatcher.go) queues the frames that the read loop delivers (by a strategy of
-- process/queuestrategy.go); its workers check the source of a frame against the connection and the
-- manager's index, run the pre-routing process, and call the handler of the subprotocol. Handlers ask
-- the permission configuration (kit/permission/permission.go) what a node may do. What a node sends
-- goes through the server (server/server.go) to the send dispatcher (process/senddispatcher.go), which
-- has one writer for each connection. The server also holds the connection to the parent node and
-- tells the event bus (eventbus/) when a connection has ended. The configuration store (config/) has
-- the parameters of all of them, and a node without an ID asks its parent for one
-- (bootstrap/selfregister.go). The byte streams come from TCP, from QUIC and from Bluetooth RFCOMM
-- (listener/), whose endpoints are URIs.
--
-- The files.
--   Common and its children: tests, lists, equality, Go maps as association lists, Go results.
--   Header: header/header.go. `HeaderTcp` is the struct; `IHeader` is the interface of iface.go, by
--     *HeaderTcp or by another implementation known through its getters. Header/Fields has the bit
--     fields of TypeFmt, Header/Codec HeaderTcpCodec with its proofs below it, Header/Forward the
--     copies of a header for forwarding and for responses.
--   Stream: writeutil.go, process/frame_writer.go, reader/*.go.
--   Conn: connections and their metadata, with the readers of the metadata in connmgr/manager.go,
--     process/prerouting.go, server/server.go and kit/permission/permission.go.
--   ConnMgr: connmgr/manager.go, each exported method as a function on the record `Manager`.
--   Routing: process/header_router.go and process/prerouting.go; Routing/Local is about broadcasts,
--     Routing/NextHop about frames for another node.
--   Strings: the functions of Go's strings and strconv packages that the code calls.
--   Permission: kit/permission/permission.go, each method of Config as a function on the record
--     `Config`; Permission/Roles is about roles, Permission/Sync about snapshots, Permission/Parse
--     about configuration values.
--   Queues: process/queuestrategy.go. Dispatcher: process/dispatcher.go; Dispatcher/Handlers is about
--     registering, Dispatcher/Route about the source check and the way of a frame. Workers: the queues
--     of process/dispatcher.go, whose scheduler stands in the arguments of `on_receive`.
--   Sender: process/senddispatcher.go. Sender/Steps has each method and each goroutine as a step;
--     Sender/Trace records the steps, Sender/Order is about the order of tasks, Sender/Lifetime about
--     closing, Sender/Drain about a stopped writer, Sender/Wire about the bytes on the pipe.
--   EventBus: eventbus/bus.go and bucket.go. EventBus/Spec has the abstract bus, EventBus/Refines
--     relates the two; EventBus/Answers and EventBus/Behaviour are about what calls and workers do on
--     any bus reached, EventBus/Channels about the events that wait.
--   Config: config/config.go and util.go, with the keys in Config/Keys, and config/builder/env.go in
--     Config/Env.
--   Register: bootstrap/selfregister.go.
--   Server: server/server.go. Server/Link has the goroutine of the parent link as a state machine,
--     Server/Wakeups, Server/LostWakeup and Server/Recovery are about what wakes it, Server/Meanwhile
--     about other connections that come and go, Server/Sending about Send, Server/Removal about the end of a connection, Server/Broadcast about Broadcast.
--   Actions: subproto/base_subprocess.go and subproto/kit/action.go, with Actions/Registry.
--   Rfcomm: listener/rfcomm_listener/. Rfcomm itself has the addresses and UUIDs of endpoint.go,
--     Rfcomm/Endpoint the URIs, Rfcomm/Options the options of dial.go and listener.go; Rfcomm/Address
--     and Rfcomm/Pipe are native_windows.go, with Rfcomm/Packets, Written and Reads about the pipe;
--     Rfcomm/Bluez is bluez_linux.go, with the paths, the descriptors and the cancelled dial below it.
--   Quic: listener/quic_listener/. Quic itself has the pins of tls_config.go, Quic/Endpoint
--     endpoint.go, Quic/Options the options of dial.go and listener.go, Quic/Tls the rest of
--     tls_config.go; Quic/Dial and Quic/Pinned follow an endpoint into a dial.
--   Listeners: the accept loops of listener/tcp_listener/listener.go, rfcomm_listener/listener.go and
--     quic_listener/listener.go, with the IDs that connection.go gives, over the connection manager,
--     which others may change between two accepts: Listeners/Turns has what they do, Listeners/Loop
--     what a loop leaves behind.
--   Examples: runs on concrete inputs, and each theorem at an input that meets its hypotheses.
--
-- How the code is read. Bytes, uint16 and uint32 are natural numbers; that they are in range is a
-- hypothesis or an invariant, and narrowing is written out as a remainder. A reader is the list of
-- the bytes still to come; a writer is a function that the model takes as an argument. A Go map is a
-- list of entries in an order that stands for the order of `range`, which Go leaves open, so
-- theorems hold for every order. Connections are compared by address, as Go compares interface
-- values that hold pointers; their metadata stand in a `World` that may change between calls. Calls
-- that leave a component (hooks, Close, Send) are recorded as lists of events. Texts are lists of
-- ASCII codes.
--
-- Fuel. The loop of WriteAll gets the length of the data, and the read loop gets more than the
-- length of the stream; Write of the Windows pipe gets the length of the data, and its fallback that
-- and the size of the first piece, since a round takes a byte or makes the pieces smaller. Theorems
-- show that this is enough. Everything else is structural.
--
-- Not modelled: sockets, QUIC sessions, D-Bus calls, the Windows calls that set up sockets, the TLS
-- handshake, and listener/multi_listener, locks and goroutines (an operation that
-- holds a lock is one step; sends on a channel and its receives are steps), logging, time, and what
-- the handlers do with a frame. Of the server New, Start and Stop as a whole are not modelled, nor the
-- errors that callbacks report to Broadcast; of the configuration the YAML builder, whose parser is
-- outside the repository; and of the handler kit subproto/kit/kit.go.
mod Common
pub mod Header
pub mod Stream
pub mod Conn
pub mod ConnMgr
pub mod Routing
pub mod Strings
pub mod Permission
pub mod Queues
pub mod Dispatcher
pub mod Workers
pub mod Sender
pub mod EventBus
pub mod Config
pub mod Register
pub mod Server
pub mod Actions
pub mod Rfcomm
pub mod Quic
pub mod Listeners
mod Examples
