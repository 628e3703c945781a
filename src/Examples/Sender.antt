-- ===== src/Examples/Sender.antt =====
-- A send dispatcher with one shard, and tasks for the connection "old" of the hub.
use myflowhub_core.Common.{
  ℕ, ◌^◌, ◌<◌, ◌≡◌, refl, [], ◌∷◌, ◌++◌, none, some, true, false, Text, codes, text_instance,
  of_queue, set_queue, arith, err,
}
use myflowhub_core.Header.{tcp, IsValid, zero_header}
use myflowhub_core.Header.Codec.{decode, read_full, eof}
use myflowhub_core.Conn.{pos}
use myflowhub_core.Queues.{conn_hash_queue}
use myflowhub_core.Stream.{WriterFn, tcp_codec, read_loop, read_error}
use myflowhub_core.Stream.Read.{received}
use myflowhub_core.Sender.{Task, ConnWriter, SendOptions, Sender, new_sender, select_shard}
use myflowhub_core.Sender.Steps.{
  sends, takes_send, accepted, panicked, dispatch, dispatch_to, get_or_create_writer, shard_step,
  close_conn, clean_up, stop,
}
use myflowhub_core.Sender.Lifetime.{stale_writer}
use myflowhub_core.Sender.Trace.{channel, tasks_of, passed, Reach, start, dispatches}
use myflowhub_core.Sender.Order.{send_order}
use myflowhub_core.Sender.Shards.{select_shard_eq}
use myflowhub_core.Sender.Drain.{tries, loops, run_turns, AllClosed, stop_drains}
use myflowhub_core.Sender.Wire.{
  Wrote, write_tasks, frames, AllNil, encode_always, connection_delivers,
}
use myflowhub_core.Examples.ConnMgr.{hub}

abbrev pub options : SendOptions
options = record {
  channel_count = pos 1;
  workers_per_chan = pos 1;
  channel_buffer = pos 2;
  conn_buffer = pos 2;
  enqueue_timeout_ms = pos 100;
  encode_option = false;
}

-- The errors of the pipe are numbers.
abbrev fresh : Sender ℕ
fresh = new_sender options

abbrev task : ℕ → Task ℕ
task n = record {
  conn = some 1;
  hdr = tcp (record zero_header { target = n });
  payload = n ∷ [];
  codec = some tcp_codec;
}

abbrev one_waits : Sender ℕ
one_waits = record fresh { shards = set_queue 0 (task 7 ∷ []) (λ i. []) }

dispatched_once : dispatch hub takes_send false (task 7) fresh ≡ some (one_waits, accepted 0)
unfolding dispatch dispatch_to new_sender select_shard
dispatched_once = refl

dispatched_late :
    dispatch hub takes_send false (task 7) (clean_up fresh) ≡ some (clean_up fresh, panicked)
unfolding dispatch dispatch_to new_sender select_shard clean_up
dispatched_late = refl

stale_writer_example :
    (s' : Sender ℕ) × (shard_step hub sends 0 (close_conn (codes "old") one_waits)
      ≡ some (s', (task 7, none)))
    × ((get_or_create_writer hub 1 s').0.owner ≡ 1)
unfolding new_sender
stale_writer_example = stale_writer hub one_waits 1 1 (task 7) 0 [] refl refl (omega arith) refl

one_waits-Reach : Reach hub options one_waits ((0, task 7) ∷ []) [] (λ id. [])
one_waits-Reach = dispatches takes_send false (task 7) start dispatched_once

send_order_example :
    ((i : ℕ) → of_queue i (tasks_of []) ++ one_waits.shards i ≡ of_queue i ((0, task 7) ∷ []))
    × ((id : Text) → [] ++ channel id one_waits ≡ passed hub id [])
send_order_example = send_order hub one_waits-Reach

select_shard_eq_example :
    (select_shard (some (codes "old")) none 3 ≡ conn_hash_queue (some (codes "old")) none 3)
    × (select_shard (some (codes "old")) none 3 < 3)
select_shard_eq_example = select_shard_eq (some (codes "old")) none 3 (omega arith) (omega arith)

abbrev writer : ConnWriter ℕ
writer = record { owner = 1; ch = task 7 ∷ task 8 ∷ []; stopped = false }

stop_drains_example :
    let r = run_turns 2 100 (loops ∷ tries sends (task 9) ∷ loops ∷ []) (stop writer) in
    (r.tasks ≡ task 7 ∷ task 8 ∷ []) × (r.writer.ch ≡ []) × AllClosed r.errors
stop_drains_example =
    stop_drains 2 100 (loops ∷ tries sends (task 9) ∷ loops ∷ []) writer (omega arith)

encode_always_example : (new_sender {E = ℕ} options).encode_in_writer ≡ true
encode_always_example = encode_always ℕ options

-- A pipe that takes at most three bytes a call, and none once it has been called `n` times.
abbrev slow : WriterFn ℕ ℕ
slow n d = elim n [ ℕ.zero ↦ (0, none, 0) | ℕ.suc m ↦ (3, none, m) ]

task_header-IsValid : (n : ℕ) → n < 2 ^ 32 → IsValid (record zero_header { target = n })
task_header-IsValid n h = record {
  type_fmt_u8 = omega arith;
  flags_u8 = omega arith;
  hop_limit_u8 = omega arith;
  route_flags_u8 = omega arith;
  msg_id_u32 = omega arith;
  source_u32 = omega arith;
  target_u32 = h;
  trace_id_u32 = omega arith;
  timestamp_u32 = omega arith;
}

nothing_follows : decode [] ≡ err eof
unfolding decode read_full
nothing_follows = refl

connection_delivers_example :
    (r : Wrote ℕ ℕ) × (write_tasks slow
        (new_sender {E = ℕ} options).encode_in_writer
        (some 40)
        (task 7 ∷ task 8 ∷ [])
      ≡ some r)
    × (AllNil slow r.errors
        → read_loop (λ _. false) 5 0 (r.bytes ++ [])
          ≡ (received (frames slow (task 7 ∷ task 8 ∷ [])), read_error eof))
connection_delivers_example =
    connection_delivers slow options 40 (task 7 ∷ task 8 ∷ []) [] eof 5
      (
        (refl, (task_header-IsValid 7 (omega arith), omega arith)),
        ((refl, (task_header-IsValid 8 (omega arith), omega arith)), tt),
      )
      nothing_follows (omega arith)
