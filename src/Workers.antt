-- ===== src/Workers.antt =====
-- process/dispatcher.go: the queues in front of the workers. A queue is the list of the events in
-- its channel. What the scheduler decides is an argument: whether the select of OnReceive takes a
-- Done case, whether a worker waits on the empty channel, and which worker takes the next event.
pub mod Order
pub mod Connection
use myflowhub_core.Common.{
  ℕ, ◌+◌, List, [], set_queue, has_room, ◌∷◌, ◌++◌, Option, none, some, Bool, true, false, not,
  ◌&&◌, ◌||◌, Text, codes, length, is_empty, ◌==◌, ltb, if◌then◌else◌,
}
use myflowhub_core.Header.{IHeader}
use myflowhub_core.Conn.{ℤ, pos, negsuc}
use myflowhub_core.Queues.{Strategy, conn_hash, select_queue, strategy_from_config}

-- dispatchEvent, without its context; a connection by its ID.
pub record Event : Type 0 where
  pub conn_id : Option Text
  pub hdr : Option IHeader
  pub payload : List ℕ

pub record Options : Type 0 where
  pub channel_count : ℤ
  pub workers_per_chan : ℤ
  pub channel_buffer : ℤ
  pub strategy_option : Option Strategy

-- The fields of DispatcherProcess that queueing needs. Queues from `chan_count` on do not exist.
pub record Pool : Type 0 where
  pub chan_count : ℕ
  pub workers : ℕ
  pub buffer : ℕ
  pub strategy : Strategy
  pub queue : ℕ → List Event

abbrev at_least_one : ℤ → ℕ
at_least_one (pos n) = if n == 0 then 1 else n
at_least_one (negsuc n) = 1

abbrev not_negative : ℤ → ℕ
not_negative (pos n) = n
not_negative (negsuc n) = 0

abbrev or_conn_hash : Option Strategy → Strategy
or_conn_hash none = conn_hash
or_conn_hash (some s) = s

-- NewDispatcher, the part about queues.
unfoldable pub new_pool : Options → Pool
new_pool o = record {
  chan_count = at_least_one o.channel_count;
  workers = at_least_one o.workers_per_chan;
  buffer = not_negative o.channel_buffer;
  strategy = or_conn_hash o.strategy_option;
  queue = λ i. [];
}

-- readPositiveInt; strconv.Atoi is an argument, `none` for its errors.
unfoldable pub read_positive_int : (Text → Option ℤ) → Option (Text → Option Text) → Text → ℤ → ℤ
read_positive_int atoi none key def = def
read_positive_int atoi (some cfg_get) key def = elim (cfg_get key) [
  | none ↦ def
  | some raw ↦ elim (atoi raw) [
    | none ↦ def
    | some v ↦ elim v [ pos n ↦ if n == 0 then def else pos n | negsuc n ↦ def ]
  ]
]

abbrev pub key_proc_channel_count : Text
key_proc_channel_count = codes "process.channel_count"

abbrev pub key_proc_workers_per_chan : Text
key_proc_workers_per_chan = codes "process.workers_per_channel"

abbrev pub key_proc_channel_buffer : Text
key_proc_channel_buffer = codes "process.channel_buffer"

abbrev pub key_proc_queue_strategy : Text
key_proc_queue_strategy = codes "process.queue_strategy"

abbrev raw_strategy : Option (Text → Option Text) → Text
raw_strategy none = []
raw_strategy (some cfg_get) = elim (cfg_get key_proc_queue_strategy) [ none ↦ [] | some v ↦ v ]

-- The options of NewDispatcherFromConfig.
unfoldable pub options_from_config : (Text → Option ℤ) → Option (Text → Option Text) → Options
unfolding read_positive_int
options_from_config atoi cfg = record {
  channel_count = read_positive_int atoi cfg key_proc_channel_count (pos 1);
  workers_per_chan = read_positive_int atoi cfg key_proc_workers_per_chan (pos 1);
  channel_buffer = read_positive_int atoi cfg key_proc_channel_buffer (pos 64);
  strategy_option = some (strategy_from_config (raw_strategy cfg));
}

-- What became of an event: in which queue it is, or that it was cancelled, or dropped before it.
pub data Outcome : Type 0 where
  queued dropped : ℕ → Outcome
  cancelled : Outcome

-- The select of OnReceive, once the queue is known.
unfoldable pub offer : Bool → Bool → Event → ℕ → Pool → Pool × Outcome
offer done waiting e idx p =
    if done
    then (p, cancelled)
    else if has_room waiting p.buffer (p.queue idx)
    then (record p { queue = set_queue idx (p.queue idx ++ e ∷ []) p.queue }, queued idx)
    else (p, dropped idx)

-- OnReceive; `none` is the panic of an index out of range.
unfoldable pub on_receive : Bool → Bool → Event → Pool → Option (Pool × Outcome)
unfolding offer
on_receive done waiting e p =
    let (idx, strategy') = select_queue p.strategy e.conn_id e.hdr p.chan_count in
    if ltb idx p.chan_count
    then some (offer done waiting e idx (record p { strategy = strategy' }))
    else none

-- ConfigSnapshot: the numbers of queues and workers, and the capacity of a queue.
unfoldable pub config_snapshot : Pool → ℕ × ℕ × ℕ
config_snapshot p = (p.chan_count, p.workers, if p.chan_count == 0 then 0 else p.buffer)

-- A worker of queue `i` takes its next event, if there is one.
unfoldable pub take_event : ℕ → Pool → Pool × Option Event
take_event i p = elim (p.queue i) [
  | [] ↦ (p, none)
  | e ∷ q ↦ (record p { queue = set_queue i q p.queue }, some e)
]
