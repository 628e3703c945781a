-- ===== src/Examples/Rfcomm.antt =====
-- Bluetooth addresses, endpoints, a socket with short messages, and connections over BlueZ.
use myflowhub_core.Common.{
  ℕ, ◌+◌, ◌^◌, ◌<◌, ◌≤◌, ◌≡◌, refl, ◌↔◌, List, [], ◌∷◌, ◌++◌, Option, none, some, Bool, true, false,
  Text, codes, ok, err, All, length, leb, if◌then◌else◌, Bool-cases, inl, inr, arith, text_eq,
}
use myflowhub_core.Conn.{ℤ, pos}
use myflowhub_core.Strings.{has_prefix, remove_all, to_upper, trim_space, to_lower}
use myflowhub_core.Stream.{WriterFn, Outcome}
use myflowhub_core.Rfcomm.{is_uuid_like, normalize_bd_addr}
use myflowhub_core.Rfcomm.Address.{bd_addr_to_bth_addr, bth_addr_to_bd_addr}
use myflowhub_core.Rfcomm.RoundTrip.{bd_addr_to_bth_addr_iff}
use myflowhub_core.Rfcomm.Endpoint.{Url, Endpoint, parse_endpoint, default_rfcomm_uuid}
use myflowhub_core.Rfcomm.Options.{dial_prepared, dial_options}
use myflowhub_core.Rfcomm.Dial.{dial_endpoint_accepts}
use myflowhub_core.Rfcomm.Pipe.{
  copy_out, filled, fill_read_cache, after_fill, too_large, end_round, first_chunk, fallback_loop,
  write_with_msg_size_fallback, write_chunk_with_fallback, end_write, pipe_write_loop, pipe_write,
  pipe_read, ReadSide,
}
use myflowhub_core.Rfcomm.Packets.{Limit}
use myflowhub_core.Rfcomm.Written.{pipe_write_sends, pipe_write_limited}
use myflowhub_core.Rfcomm.Reads.{reads, GoesOn, buffered, reads_keep}
use myflowhub_core.Rfcomm.Bluez.{
  offer, accepted_or_full, BluezProfile, new_bluez_profile, new_connection, dial_select,
  context_cancelled, dial_cancelled, normal_or_empty, wanted_adapter, bluez_device_object_path,
  bluez_bd_addr_from_device_path, profile_released,
}
use myflowhub_core.Rfcomm.Bluez.Descriptors.{
  Event, connection, finishes, take_one, run, fresh, count, queued, given, descriptors_accounted,
}
use myflowhub_core.Rfcomm.Bluez.Paths.{device_path_reads_back}
use myflowhub_core.Rfcomm.Bluez.Cancelled.{cancelled_dial_keeps}

abbrev address : Text
address = codes "01-23-45-67-89-ab"

bd_addr_to_bth_addr_iff_example : (bd_addr_to_bth_addr address ≡ ok 1250999896491) ↔ (
    (1250999896491 < 2 ^ 48) × (normalize_bd_addr address ≡ ok (bth_addr_to_bd_addr 1250999896491)))
bd_addr_to_bth_addr_iff_example = bd_addr_to_bth_addr_iff address 1250999896491

abbrev atoi : Text → Option ℤ
atoi s = if text_eq s (codes "5") then some (pos 5) else none

abbrev url : Url
url = record {
  scheme = codes "bt+rfcomm";
  host = codes "01:23:45:67:89:11";
  path = [];
  query = λ name. if text_eq name (codes "channel") then codes "5" else [];
}

abbrev endpoint : Endpoint
endpoint = record {
  bd_addr = codes "01:23:45:67:89:11";
  uuid = default_rfcomm_uuid;
  channel = pos 5;
  adapter = codes "hci0";
  insecure = false;
  name = [];
}

parsed :
    parse_endpoint atoi (λ s. some url) (codes "bt+rfcomm://01:23:45:67:89:11?channel=5")
    ≡ ok endpoint
unfolding parse_endpoint trim_space to_lower normalize_bd_addr to_upper remove_all is_uuid_like
parsed = refl

dial_endpoint_accepts_example :
    (dial_prepared (dial_options endpoint) ≡ ok (dial_options endpoint))
    × (a : ℕ) × (a < 2 ^ 48)
    × (bd_addr_to_bth_addr endpoint.bd_addr ≡ ok a)
    × (bth_addr_to_bd_addr a ≡ endpoint.bd_addr)
dial_endpoint_accepts_example =
    dial_endpoint_accepts atoi (λ s. some url) (codes "bt+rfcomm://01:23:45:67:89:11?channel=5")
      endpoint parsed

-- A socket that takes messages of up to two bytes, and logs their lengths.
abbrev short : WriterFn (List ℕ) ℕ
short log m = if leb (length m) 2 then (length m, none, length m ∷ log) else (0, some 10040, log)

abbrev is_msg_size : ℕ → Bool
is_msg_size x = leb x 10040

short_log :
    pipe_write short is_msg_size [] (7 ∷ 8 ∷ 9 ∷ 10 ∷ 11 ∷ [])
    ≡ some (record { error = none; accepted = 7 ∷ 8 ∷ 9 ∷ 10 ∷ 11 ∷ []; writer = 1 ∷ 2 ∷ 2 ∷ [] })
unfolding pipe_write pipe_write_loop end_write write_chunk_with_fallback
    write_with_msg_size_fallback fallback_loop first_chunk end_round too_large
short_log = refl

short-Limit : Limit short is_msg_size 2
short-Limit = record {
  positive = omega arith;
  sent = λ w m fits. ground (arith, fits);
  accepted = λ w m fits. ground (arith, fits);
  refused = λ w m long. ground (arith, long);
  reason = λ w m long. (10040, ground (arith, long), refl);
}

pipe_write_limited_example :
    (r : Outcome (List ℕ) ℕ) × (pipe_write short is_msg_size [] (7 ∷ 8 ∷ 9 ∷ 10 ∷ 11 ∷ []) ≡ some r)
    × (r.error ≡ none)
    × (r.accepted ≡ 7 ∷ 8 ∷ 9 ∷ 10 ∷ 11 ∷ [])
pipe_write_limited_example =
    pipe_write_limited short is_msg_size 2 short-Limit [] (7 ∷ 8 ∷ 9 ∷ 10 ∷ 11 ∷ [])

short_keeps :
    (log m : List ℕ)
    → All (λ n. n ≤ 127) log
    → 0 < length m
    → length m ≤ 127
    → All (λ n. n ≤ 127) (short log m).2
short_keeps log m h some_bytes few = elim (Bool-cases (leb (length m) 2)) [
  | inl fits ↦ rw fits (few, h)
  | inr long ↦ rw long h
]

pipe_write_sends_example :
    (r : Outcome (List ℕ) ℕ) × (pipe_write short is_msg_size [] (7 ∷ 8 ∷ 9 ∷ 10 ∷ 11 ∷ []) ≡ some r)
    × ((left : List ℕ) × (7 ∷ 8 ∷ 9 ∷ 10 ∷ 11 ∷ [] ≡ r.accepted ++ left))
    × (r.error ≡ none → r.accepted ≡ 7 ∷ 8 ∷ 9 ∷ 10 ∷ 11 ∷ [])
    × All (λ n. n ≤ 127) r.writer
pipe_write_sends_example =
    pipe_write_sends short is_msg_size (λ log. All (λ n. n ≤ 127) log) short_keeps []
      (7 ∷ 8 ∷ 9 ∷ 10 ∷ 11 ∷ []) tt

-- Two messages, the first cut off by WSAEMSGSIZE, then an error.
abbrev read_side : ReadSide ℕ
read_side = record {
  cache = [];
  incoming = (1 ∷ 2 ∷ 3 ∷ [], some 10040) ∷ (4 ∷ [], none) ∷ (9 ∷ [], some 10054) ∷ [];
}

some_reads : (reads is_msg_size (2 ∷ 2 ∷ 5 ∷ []) read_side).0 ≡ 1 ∷ 2 ∷ 3 ∷ 4 ∷ []
unfolding reads pipe_read after_fill fill_read_cache filled copy_out
some_reads = refl

-- Two messages, the first cut off by WSAEMSGSIZE.
abbrev cut_off : ReadSide ℕ
cut_off = record { cache = 8 ∷ []; incoming = (1 ∷ 2 ∷ 3 ∷ [], some 10040) ∷ (4 ∷ [], none) ∷ [] }

reads_keep_example :
    let (out, p') = reads is_msg_size (2 ∷ 2 ∷ []) cut_off in
    (8 ∷ 1 ∷ 2 ∷ 3 ∷ 4 ∷ [] ≡ out ++ (p'.cache ++ buffered p'.incoming))
    × All (GoesOn is_msg_size) p'.incoming
reads_keep_example =
    reads_keep is_msg_size (2 ∷ 2 ∷ []) cut_off (inr (10040, refl, refl), (inl refl, tt))

device_path_reads_back_example :
    (bluez_bd_addr_from_device_path (bluez_device_object_path (codes " hci1 ") address)
      ≡ normal_or_empty address)
    × (wanted_adapter
          (bluez_device_object_path (codes " hci1 ") address)
          (new_bluez_profile default_rfcomm_uuid (codes " hci1 ") (codes "dial") true)
        ≡ true)
device_path_reads_back_example =
    device_path_reads_back (codes " hci1 ") address default_rfcomm_uuid (codes "dial") true

abbrev device : Text
device = codes "/org/bluez/hci0/dev_01_23_45_67_89_AB"

-- A connection that is accepted, one that waits, one for another adapter, and one after the end.
abbrev events : List Event
events =
    connection device 5
    ∷ take_one
    ∷ connection device 6
    ∷ connection (codes "/org/bluez/hci1/dev_01_23_45_67_89_AB") 7
    ∷ finishes profile_released
    ∷ connection device 8
    ∷ []

descriptors_accounted_example :
    (let w =
        run
          (λ fd. true)
          events
          (fresh (new_bluez_profile default_rfcomm_uuid (codes "hci0") (codes "listen") false)) in
      (count 6 w.closed_fds + (count 6 (queued w.profile.accept_ch) + count 6 w.handed)
        ≡ count 6 (given events)))
descriptors_accounted_example =
    descriptors_accounted (λ fd. true) default_rfcomm_uuid (codes "hci0") (codes "listen") false
      events 6

abbrev dialling : BluezProfile
unfolding new_bluez_profile
dialling = new_bluez_profile default_rfcomm_uuid (codes "hci0") (codes "dial") true

taken : (new_connection (λ fd. true) device 5 dialling).error ≡ none
unfolding new_connection dialling wanted_adapter trim_space has_prefix accepted_or_full offer
taken = refl

cancelled_dial_keeps_example :
    (let a = new_connection (λ fd. true) device 5 dialling in
      let d = dial_select context_cancelled a.profile in
      ((d.result ≡ err dial_cancelled)
        × (d.profile ≡ a.profile)
        × (a.closes ≡ [])
        × (0 < count 5 (queued d.profile.accept_ch))))
unfolding dialling
cancelled_dial_keeps_example = cancelled_dial_keeps (λ fd. true) device 5 dialling refl taken
