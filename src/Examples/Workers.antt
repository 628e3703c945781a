-- ===== src/Examples/Workers.antt =====
-- Two queues of one place each, with events of one connection.
use myflowhub_core.Common.{ℕ, ◌≡◌, refl, ◌++◌, [], ◌∷◌, some, none, true, false, codes, arith}
use myflowhub_core.Conn.{pos, negsuc}
use myflowhub_core.Common.{of_queue, set_queue}
use myflowhub_core.Queues.{conn_hash, fnv32a, select_queue}
use myflowhub_core.Workers.{Event, Options, Pool, queued, dropped, new_pool, offer, on_receive}
use myflowhub_core.Workers.Order.{Reach, start, receives, queue_order, on_receive_eq}
use myflowhub_core.Workers.Connection.{connection_order, from_conn, events, home}

abbrev options : Options
options = record {
  channel_count = pos 2;
  workers_per_chan = negsuc 3;
  channel_buffer = pos 1;
  strategy_option = none;
}

abbrev event : ℕ → Event
event n = record { conn_id = some (codes "a"); hdr = none; payload = n ∷ [] }

-- The connection "a" is at home in queue 0; its queue holds the event.
abbrev one_waits : Pool
one_waits = record {
  chan_count = 2;
  workers = 1;
  buffer = 1;
  strategy = conn_hash;
  queue = set_queue 0 (event 7 ∷ []) (λ i. []);
}

first_run : on_receive false false (event 7) (new_pool options) ≡ some (one_waits, queued 0)
unfolding on_receive new_pool fnv32a select_queue
first_run = refl

second_run : on_receive false false (event 8) one_waits ≡ some (one_waits, dropped 0)
unfolding on_receive fnv32a select_queue
second_run = refl

two_offers : Reach options one_waits ((0, event 7) ∷ []) []
two_offers =
    receives false false (event 8) (receives false false (event 7) start first_run) second_run

on_receive_eq_example :
    let (idx, s) = select_queue conn_hash (some (codes "a")) none 2 in
    on_receive true false (event 8) one_waits
    ≡ some (offer true false (event 8) idx (record one_waits { strategy = s }))
on_receive_eq_example = on_receive_eq true false (event 8) one_waits (omega arith) (omega arith)

queue_order_example : of_queue 0 [] ++ one_waits.queue 0 ≡ of_queue 0 ((0, event 7) ∷ [])
queue_order_example = queue_order two_offers 0

connection_order_example :
    let i = home (new_pool options).chan_count (codes "a") in
    from_conn (codes "a") (of_queue i [] ++ one_waits.queue i)
    ≡ from_conn (codes "a") (events ((0, event 7) ∷ []))
unfolding new_pool
connection_order_example = connection_order refl two_offers (codes "a")
