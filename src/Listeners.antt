-- ===== src/Listeners.antt =====
-- The accept loops of listener/tcp_listener, listener/rfcomm_listener and listener/quic_listener, and
-- the connections that they make. What the platform's accept gives, and what others do in between, is
-- an argument: a list of turns, in order.
pub mod Turns
pub mod Loop
pub mod Managed
use myflowhub_core.Common.{
  ℕ, ◌+◌, ◌%◌, ◌^◌, List, [], ◌∷◌, ◌++◌, map, Option, none, some, Bool, true, false, Text, codes,
  ◌==◌, if◌then◌else◌,
}
use myflowhub_core.Conn.{Conn, Ref}
use myflowhub_core.ConnMgr.{World, Manager, ManagerError, add, remove}
use myflowhub_core.EventBus.{token_of}

-- What a listener shares with the rest: the connection objects, the manager, the last number of a
-- connection's ID, and the connections that the listener closed. Its options and its socket are not
-- looked at.
pub record Hub : Type 0 where
  pub world : World
  pub manager : Manager
  pub seq : ℕ
  pub dropped : List Ref

-- A new connection object, without metadata.
abbrev pub new_conn : Text → Ref → World → World
new_conn id c w = record w {
  conn = λ r. if r == c then record { id = id; meta = [] } else w.conn r;
}

abbrev pub drop_unless_added : Option ManagerError → Ref → Hub → Hub
drop_unless_added none c h = h
drop_unless_added (some e) c h = record h { dropped = c ∷ h.dropped }

-- `if err := cm.Add(conn); err != nil { …Close(); continue }`
unfoldable pub admit : Text → Ref → Hub → Hub
admit id c h =
    let w' = new_conn id c h.world in
    let (m', e, events) = add w' (some c) h.manager in
    drop_unless_added e c (record h { world = w'; manager = m' })

-- NewRFCOMMConnection and NewQUICConnection on a pipe that is not nil, and the end of the round. The
-- ID has the form of a token of the event bus: a name, a hash sign and a number.
unfoldable pub admit_numbered : Text → Ref → Hub → Hub
admit_numbered kind c h =
    let n = (h.seq + 1) % 2 ^ 64 in admit (token_of kind n) c (record h { seq = n })

-- How a round of an accept loop goes on.
pub data Verdict : Type 0 where
  wrap : Ref → Verdict
  wrap_as : Text → Ref → Verdict
  refuse : Ref → Verdict
  again : Verdict
  return : Option ℕ → Verdict
  panics : Verdict

-- What comes next: what Accept gives, or something that others do while Listen waits. A connection
-- leaves the manager (serveConn), NewRFCOMMConnection or NewQUICConnection of a dial takes a number,
-- or a connection that was made elsewhere is added.
pub data Turn (O : Type 0) : Type 0 where
  accepts : O → Turn O
  removes : Text → Turn O
  takes_number : Turn O
  joins : Text → Ref → Turn O

abbrev pub map_turn : {O P : Type 0} → (O → P) → Turn O → Turn P
map_turn f (accepts o) = accepts (f o)
map_turn f (removes id) = removes id
map_turn f takes_number = takes_number
map_turn f (joins id c) = joins id c

-- Whether Listen still waits in Accept, or how it ended.
pub data Listening : Type 0 where
  waiting : Listening
  returned : Option ℕ → Listening
  panicked : Listening

unfoldable pub removed_meanwhile : Text → Hub → Hub
removed_meanwhile id h = record h { manager = (remove h.world id h.manager).0 }

unfoldable pub joined_meanwhile : Text → Ref → Hub → Hub
joined_meanwhile id c h =
    let w' = new_conn id c h.world in
    record h { world = w'; manager = (add w' (some c) h.manager).0 }

-- The loop, over what its rounds come to before the connection is made.
unfoldable pub accept_loop : Text → List (Turn Verdict) → Hub → Hub × Listening
accept_loop kind [] h = (h, waiting)
accept_loop kind (accepts (wrap c) ∷ more) h = accept_loop kind more (admit_numbered kind c h)
accept_loop kind (accepts (wrap_as id c) ∷ more) h = accept_loop kind more (admit id c h)
accept_loop kind (accepts (refuse c) ∷ more) h =
    accept_loop kind more (record h { dropped = c ∷ h.dropped })
accept_loop kind (accepts again ∷ more) h = accept_loop kind more h
accept_loop kind (accepts (return e) ∷ more) h = (h, returned e)
accept_loop kind (accepts panics ∷ more) h = (h, panicked)
accept_loop kind (removes id ∷ more) h = accept_loop kind more (removed_meanwhile id h)
accept_loop kind (takes_number ∷ more) h =
    accept_loop kind more (record h { seq = (h.seq + 1) % 2 ^ 64 })
accept_loop kind (joins id c ∷ more) h = accept_loop kind more (joined_meanwhile id c h)

-- What Accept of a native RFCOMM listener gives. On a nil pipe without an error NewRFCOMMConnection
-- fails, and Listen closes the nil pipe, which panics. `stopping` tells whether the listener is closed or
-- the context done by then, `temporary` whether the error is a temporary net.Error.
pub data RfcommOutcome : Type 0 where
  rfcomm_pipe : Ref → RfcommOutcome
  rfcomm_nil_pipe : RfcommOutcome
  rfcomm_failed : (stopping temporary : Bool) → ℕ → RfcommOutcome

unfoldable pub rfcomm_round : RfcommOutcome → Verdict
rfcomm_round (rfcomm_pipe c) = wrap c
rfcomm_round rfcomm_nil_pipe = panics
rfcomm_round (rfcomm_failed stopping temporary e) =
    if stopping then return none else if temporary then again else return (some e)

-- Listen of the RFCOMM listener, behind the start of the native listener.
unfoldable pub rfcomm_listen : List (Turn RfcommOutcome) → Hub → Hub × Listening
rfcomm_listen outcomes = accept_loop (codes "rfcomm") (map (map_turn rfcomm_round) outcomes)

-- What Accept and AcceptStream of QUIC give. `stopping` covers quic.ErrServerClosed.
pub data QuicOutcome : Type 0 where
  quic_stream : Ref → QuicOutcome
  quic_no_stream : Ref → QuicOutcome
  quic_failed : (stopping : Bool) → ℕ → QuicOutcome

unfoldable pub quic_round : QuicOutcome → Verdict
quic_round (quic_stream c) = wrap c
quic_round (quic_no_stream c) = refuse c
quic_round (quic_failed stopping e) = if stopping then return none else return (some e)

-- Listen of the QUIC listener, behind quic.ListenAddr.
unfoldable pub quic_listen : List (Turn QuicOutcome) → Hub → Hub × Listening
quic_listen outcomes = accept_loop (codes "quic") (map (map_turn quic_round) outcomes)

-- What Accept of a TCP socket gives: a connection with its two addresses, or an error; `closed` tells
-- whether its text has the word.
pub data TcpOutcome : Type 0 where
  tcp_conn : Ref → (local remote : Text) → TcpOutcome
  tcp_failed : (stopping temporary closed : Bool) → ℕ → TcpOutcome

-- The ID that NewTCPConnection gives.
unfoldable pub tcp_id : Text → Text → Text
tcp_id local remote = local ++ (codes "->" ++ remote)

unfoldable pub tcp_round : TcpOutcome → Verdict
tcp_round (tcp_conn c local remote) = wrap_as (tcp_id local remote) c
tcp_round (tcp_failed stopping temporary closed e) =
    if stopping
    then return none
    else if temporary
    then again
    else if closed
    then return none
    else return (some e)

-- Listen of the TCP listener, behind net.Listen.
unfoldable pub tcp_listen : List (Turn TcpOutcome) → Hub → Hub × Listening
tcp_listen outcomes = accept_loop [] (map (map_turn tcp_round) outcomes)
