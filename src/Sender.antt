-- ===== src/Sender.antt =====
-- process/senddispatcher.go: tasks wait in a shard, then in the queue of the writer of their
-- connection, and are written one after the other. What the scheduler decides, which case a select
-- takes and which goroutine runs next, is an argument; a call that cannot go on answers `none`. A
-- callback that is set gets the answer recorded here. A header is not nil.
pub mod Steps
pub mod Trace
pub mod Effects
pub mod Order
pub mod Shards
pub mod Drain
pub mod Wire
pub mod Lifetime
use myflowhub_core.Common.{
  ℕ, ◌%◌, ◌^◌, List, [], ◌∷◌, ◌++◌, map, Option, none, some, Bool, true, false, not, ltb, Text,
  codes, length, text_instance, Assoc, lookup, insert, erase, ◌==◌, if◌then◌else◌, set_queue,
  has_room,
}
use myflowhub_core.Header.{IHeader, sub_proto}
use myflowhub_core.Conn.{Ref, ℤ, pos, negsuc}
use myflowhub_core.ConnMgr.{World}
use myflowhub_core.Stream.{WriterFn, WriteError, Outcome, Codec, write_frame, write_all}
use myflowhub_core.Queues.{fnv32a}
use myflowhub_core.Workers.{read_positive_int}

pub data SendError (E : Type 0) : Type 0 where
  nil_conn nil_codec nil_pipe writer_closed enqueue_timeout dispatcher_closed ctx_error :
      SendError E
  write_failed : WriteError E → SendError E

-- sendTask, without its context and callback.
pub record Task (E : Type 0) : Type 0 where
  pub conn : Option Ref
  pub hdr : IHeader
  pub payload : List ℕ
  pub codec : Option (Codec E)

-- connWriter: its connection and its channel. `closed` is set with the close of the channel.
pub record ConnWriter (E : Type 0) : Type 0 where
  pub owner : Ref
  pub ch : List (Task E)
  pub stopped : Bool

pub record SendOptions : Type 0 where
  pub channel_count : ℤ
  pub workers_per_chan : ℤ
  pub channel_buffer : ℤ
  pub conn_buffer : ℤ
  pub enqueue_timeout_ms : ℤ
  pub encode_option : Bool

-- SendDispatcher. `leaving` are the writers that have been stopped and still empty their channels.
pub record Sender (E : Type 0) : Type 0 where
  pub shards : ℕ → List (Task E)
  pub shards_closed : Bool
  pub shard_count : ℕ
  pub workers_per_shard : ℕ
  pub shard_buffer : ℕ
  pub writer_buffer : ℕ
  pub timeout : ℕ
  pub encode_in_writer : Bool
  pub cancelled : Bool
  pub writers : Assoc Text (ConnWriter E)
  pub leaving : List (ConnWriter E)

-- The defaults of NewSendDispatcher: for a number that is not positive, and for a negative one.
abbrev positive_or : ℕ → ℤ → ℕ
positive_or d (pos n) = if n == 0 then d else n
positive_or d (negsuc n) = d

abbrev or_zero_if_negative : ℤ → ℕ
or_zero_if_negative (pos n) = n
or_zero_if_negative (negsuc n) = 0

-- NewSendDispatcher.
unfoldable pub new_sender : {E : Type 0} → SendOptions → Sender E
new_sender o = record {
  shards = λ i. [];
  shards_closed = false;
  shard_count = positive_or 1 o.channel_count;
  workers_per_shard = positive_or 1 o.workers_per_chan;
  shard_buffer = or_zero_if_negative o.channel_buffer;
  writer_buffer = positive_or 64 o.conn_buffer;
  timeout = or_zero_if_negative o.enqueue_timeout_ms;
  encode_in_writer = if not o.encode_option then true else o.encode_option;
  cancelled = false;
  writers = [];
  leaving = [];
}

-- readDurationMs; strconv.Atoi is an argument, and so large a value that the product of int64
-- would overflow is not considered.
unfoldable pub read_duration_ms : (Text → Option ℤ) → Option (Text → Option Text) → Text → ℤ → ℤ
read_duration_ms atoi none key def = def
read_duration_ms atoi (some cfg_get) key def = elim (cfg_get key) [
  | none ↦ def
  | some raw ↦ elim (atoi raw) [ none ↦ def | some v ↦ elim v [ pos n ↦ pos n | negsuc n ↦ def ] ]
]

-- The options of NewSendDispatcherFromConfig.
unfoldable pub sender_options : (Text → Option ℤ) → Option (Text → Option Text) → SendOptions
unfolding read_positive_int read_duration_ms
sender_options atoi cfg = record {
  channel_count = read_positive_int atoi cfg (codes "send.channel_count") (pos 1);
  workers_per_chan = read_positive_int atoi cfg (codes "send.workers_per_channel") (pos 1);
  channel_buffer = read_positive_int atoi cfg (codes "send.channel_buffer") (pos 64);
  conn_buffer = read_positive_int atoi cfg (codes "send.conn_buffer") (pos 64);
  enqueue_timeout_ms = read_duration_ms atoi cfg (codes "send.enqueue_timeout_ms") (pos 100);
  encode_option = true;
}

-- selectQueue.
unfoldable pub select_shard : Option Text → Option IHeader → ℕ → ℕ
unfolding fnv32a
select_shard (some id) hdr n = if n == 1 then 0 else fnv32a id % (n % 2 ^ 32)
select_shard none (some h) n = if n == 1 then 0 else sub_proto h % n
select_shard none none n = 0

-- Snapshot.
unfoldable pub sender_snapshot : {E : Type 0} → Sender E → ℕ × ℕ × ℕ
sender_snapshot s =
    (s.shard_count, s.workers_per_shard, if s.shard_count == 0 then 0 else s.shard_buffer)
