-- ===== src/Examples/Listeners.antt =====
-- Accept loops over a few outcomes.
use myflowhub_core.Common.{
  insert, lookup, ◌∙◌, ◌≡◌, refl, List, [], ◌∷◌, All, none, true, false, codes, arith,
}
use myflowhub_core.ConnMgr.{add, new, get}
use myflowhub_core.Listeners.{
  tcp_id, admit, tcp_round, accept_loop, Hub, RfcommOutcome, rfcomm_pipe, rfcomm_failed,
  rfcomm_listen, QuicOutcome, quic_stream, quic_no_stream, quic_failed, quic_listen, tcp_conn,
  tcp_failed, tcp_listen, returned, panicked, Turn, accepts, removes, takes_number, joins,
  rfcomm_nil_pipe, rfcomm_round,
}
use myflowhub_core.EventBus.{token_of, show_nat, show_digits}
use myflowhub_core.EventBus.Tokens.{token_injective}
use myflowhub_core.Listeners.Turns.{NumbersFree, JoinsTaken, removed_ids}
use myflowhub_core.Listeners.Loop.{FoundUnless}
use myflowhub_core.Listeners.Managed.{
  delivered, streams, streamless, is_pipe, rfcomm_listen_manages, quic_listen_manages,
}

abbrev hub : Hub
hub = record {
  world = record { conn = λ r. record { id = []; meta = [] }; close = λ r. none };
  manager = new;
  seq = 0;
  dropped = [];
}

-- A connection, a temporary error, the removal of the first connection, a dial whose connection is added
-- later, another connection, and the end.
abbrev outcomes : List (Turn RfcommOutcome)
outcomes =
    accepts (rfcomm_pipe 5)
    ∷ accepts (rfcomm_failed false true 1)
    ∷ removes (codes "rfcomm#1")
    ∷ takes_number
    ∷ accepts (rfcomm_pipe 6)
    ∷ joins (codes "rfcomm#2") 9
    ∷ accepts (rfcomm_failed true false 2)
    ∷ accepts (rfcomm_pipe 7)
    ∷ []

two_numbers : delivered 0 outcomes ≡ (1, 5) ∷ (3, 6) ∷ []
unfolding delivered
two_numbers = refl

rfcomm_free : NumbersFree (codes "rfcomm") hub
unfolding get lookup
rfcomm_free = λ n above. refl

second_id : token_of (codes "rfcomm") 2 ≡ codes "rfcomm#2"
unfolding token_of show_nat show_digits
second_id = refl

rfcomm_taken : JoinsTaken (codes "rfcomm") is_pipe 0 outcomes
rfcomm_taken =
    (λ k above e. omega (arith, above, token_injective (codes "rfcomm") 2 k (second_id ∙ e)), tt)

rfcomm_listen_manages_example :
    (let h' = (rfcomm_listen outcomes hub).0 in
      ((h'.dropped ≡ [])
        × All
            (FoundUnless (codes "rfcomm") (removed_ids outcomes) h'.manager)
            (delivered 0 outcomes)))
rfcomm_listen_manages_example =
    rfcomm_listen_manages outcomes hub rfcomm_free rfcomm_taken (omega arith)

-- A nil pipe makes Listen panic.
nil_pipe : (rfcomm_listen (accepts rfcomm_nil_pipe ∷ accepts (rfcomm_pipe 5) ∷ []) hub).1 ≡ panicked
unfolding rfcomm_listen accept_loop rfcomm_round
nil_pipe = refl

abbrev sessions : List (Turn QuicOutcome)
sessions =
    accepts (quic_stream 5)
    ∷ accepts (quic_no_stream 6)
    ∷ removes (codes "quic#1")
    ∷ accepts (quic_stream 7)
    ∷ accepts (quic_failed false 3)
    ∷ []

one_refused : streamless sessions [] ≡ 6 ∷ []
unfolding streamless
one_refused = refl

quic_free : NumbersFree (codes "quic") hub
unfolding get lookup
quic_free = λ n above. refl

quic_listen_manages_example :
    (let h' = (quic_listen sessions hub).0 in
      ((h'.dropped ≡ streamless sessions [])
        × All (FoundUnless (codes "quic") (removed_ids sessions) h'.manager) (streams 0 sessions)))
quic_listen_manages_example = quic_listen_manages sessions hub quic_free tt (omega arith)

-- The second of two TCP connections with the same addresses is closed, and Listen ends without an
-- error when Accept says that its socket is closed.
twice :
    ((tcp_listen
        (accepts (tcp_conn 5 (codes "a:1") (codes "b:2"))
          ∷ accepts (tcp_conn 6 (codes "a:1") (codes "b:2"))
          ∷ accepts (tcp_failed false false true 4)
          ∷ [])
        hub).0.dropped
      ≡ 6 ∷ [])
    × ((tcp_listen
          (accepts (tcp_conn 5 (codes "a:1") (codes "b:2"))
            ∷ accepts (tcp_failed false false true 4)
            ∷ [])
          hub).1
        ≡ returned none)
unfolding tcp_listen accept_loop tcp_round admit add lookup insert tcp_id
twice = (refl, refl)
