-- ===== src/Rfcomm/Bluez.antt =====
-- listener/rfcomm_listener: bluez_linux.go, the Profile1 object that BlueZ calls over D-Bus, with
-- its object paths, and the Addr of addr.go.
pub mod Paths
pub mod Descriptors
pub mod Cancelled
use myflowhub_core.Common.{
  ℕ, zero, suc, ◌+◌, List, [], ◌∷◌, ◌++◌, Option, none, some, Bool, true, false, ◌&&◌, ◌||◌, not,
  Text, codes, Result, ok, err, length, drop, is_empty, ◌==◌, ltb, if◌then◌else◌,
}
use myflowhub_core.Conn.{ℤ, pos}
use myflowhub_core.Strings.{has_prefix, trim_space, to_lower, replace_all}
use myflowhub_core.Rfcomm.{normalize_bd_addr}

-- strings.LastIndex for a text to find that is not empty.
unfoldable pub last_index : Text → Text → Option ℕ
last_index [] sep = none
last_index (c ∷ s) sep = elim (last_index s sep) [
  | some i ↦ some (suc i)
  | none ↦ if has_prefix (c ∷ s) sep then some 0 else none
]

-- `bdaddr, _ = normalizeBDAddr(bdaddr)`
unfoldable pub normal_or_empty : Text → Text
normal_or_empty s = elim (normalize_bd_addr s) [ ok t ↦ t | err e ↦ [] ]

-- bluezDeviceObjectPath
unfoldable pub bluez_device_object_path : Text → Text → Text
bluez_device_object_path adapter bd_addr =
    let a = trim_space adapter in
    let named = if is_empty a then codes "hci0" else a in
    let dev = codes "dev_" ++ replace_all b':' b'_' (normal_or_empty bd_addr) in
    codes "/org/bluez/" ++ (named ++ (b'/' ∷ dev))

-- bluezBDAddrFromDevicePath, from the text behind "/dev_".
unfoldable pub address_of_tail : Text → Text
address_of_tail tail = if is_empty tail then [] else normal_or_empty (replace_all b'_' b':' tail)

-- bluezBDAddrFromDevicePath
unfoldable pub bluez_bd_addr_from_device_path : Text → Text
bluez_bd_addr_from_device_path s = elim (last_index s (codes "/dev_")) [
  | none ↦ []
  | some i ↦ address_of_tail (drop (i + length (codes "/dev_")) s)
]

-- Addr
pub record Addr : Type 0 where
  pub bd_addr : Text
  pub uuid : Text
  pub channel : ℤ
  pub role : Text

-- Why a profile ended.
pub data Reason : Type 0 where
  listener_closed profile_released profile_cancelled context_done : Reason

-- bluezAccept: an open descriptor with its addresses, or the reason of an end.
pub data Accept : Type 0 where
  connected : ℕ → Addr → Addr → Accept
  ended : Reason → Accept

pub data DbusError : Type 0 where
  profile_closed unexpected_adapter no_file accept_backlog_full : DbusError

-- bluezProfile. `accept_ch` is what waits in the channel, the oldest first; `done` tells whether
-- doneCh is closed.
pub record BluezProfile : Type 0 where
  pub uuid : Text
  pub expected_adapter : Text
  pub addr_role : Text
  pub single_shot : Bool
  pub accept_ch : List Accept
  pub done : Bool
  pub closed : Bool

-- newBluezProfile
unfoldable pub new_bluez_profile : Text → Text → Text → Bool → BluezProfile
new_bluez_profile uuid expected_adapter addr_role single_shot = record {
  uuid = to_lower (trim_space uuid);
  expected_adapter = trim_space expected_adapter;
  addr_role = trim_space addr_role;
  single_shot = single_shot;
  accept_ch = [];
  done = false;
  closed = false;
}

-- `case p.acceptCh <- a:`, with the channel's buffer of 16; none is the default branch.
unfoldable pub offer : Accept → BluezProfile → Option BluezProfile
offer a p =
    if ltb (length p.accept_ch) 16
    then some (record p { accept_ch = p.accept_ch ++ (a ∷ []) })
    else none

unfoldable pub offered_or : Option BluezProfile → BluezProfile → BluezProfile
offered_or none p = p
offered_or (some q) p = q

-- finish
unfoldable pub finish : Reason → BluezProfile → BluezProfile
finish reason p =
    if p.closed
    then p
    else let q = record p { closed = true; done = true } in offered_or (offer (ended reason) q) q

-- The test of the adapter in NewConnection.
unfoldable pub wanted_adapter : Text → BluezProfile → Bool
wanted_adapter device p =
    is_empty p.expected_adapter
    || has_prefix device (codes "/org/bluez/" ++ (p.expected_adapter ++ (b'/' ∷ [])))

-- How NewConnection answers: the error, the descriptors it closed and the profile.
pub record Answer : Type 0 where
  pub error : Option DbusError
  pub closes : List ℕ
  pub profile : BluezProfile

unfoldable pub refuse : DbusError → ℕ → BluezProfile → Answer
refuse e fd p = record { error = some e; closes = fd ∷ []; profile = p }

-- The select at the end of NewConnection.
unfoldable pub accepted_or_full : ℕ → BluezProfile → Option BluezProfile → Answer
accepted_or_full fd p none = refuse accept_backlog_full fd p
accepted_or_full fd p (some q) = record {
  error = none;
  closes = [];
  profile = if p.single_shot then record q { closed = true } else q;
}

-- NewConnection. os.NewFile is not part of the program: `new_file fd` tells whether it answers a
-- file. A pipe's Close closes the descriptor.
unfoldable pub new_connection : (ℕ → Bool) → Text → ℕ → BluezProfile → Answer
new_connection new_file device fd p =
    if p.closed
    then refuse profile_closed fd p
    else if not (wanted_adapter device p)
    then refuse unexpected_adapter fd p
    else if not (new_file fd)
    then refuse no_file fd p
    else let local : Addr = record {
      bd_addr = [];
      uuid = p.uuid;
      channel = pos 0;
      role = p.addr_role;
    } in
      let remote : Addr = record {
        bd_addr = bluez_bd_addr_from_device_path device;
        uuid = p.uuid;
        channel = pos 0;
        role = p.addr_role;
      } in
      accepted_or_full fd p (offer (connected fd local remote) p)

-- `res := <-p.acceptCh`; none waits.
unfoldable pub receive : BluezProfile → Option (Accept × BluezProfile)
receive p = elim p.accept_ch [ [] ↦ none | a ∷ more ↦ some (a, record p { accept_ch = more }) ]

-- Accept of linuxBluezListener, when its select takes the channel: none is an error.
pub data Accepted : Type 0 where
  pipe : ℕ → Addr → Addr → Accepted
  accept_error : Reason → Accepted

unfoldable pub accepted : Accept → Accepted
accepted (connected fd local remote) = pipe fd local remote
accepted (ended reason) = accept_error reason

-- How the select at the end of dialRFCOMMByUUIDBlueZ goes on.
pub data DialCase : Type 0 where
  context_cancelled profile_ended : DialCase
  answered : Accept → DialCase

pub data DialError : Type 0 where
  dial_cancelled dial_aborted : DialError
  dial_refused : Reason → DialError

-- What the dial returns, the profile, and whether it called `cleanup`; a pipe that it returns calls
-- `cleanup` when it is closed.
pub record DialEnd : Type 0 where
  pub result : Result DialError ℕ
  pub profile : BluezProfile
  pub cleanup : Bool

unfoldable pub dial_select : DialCase → BluezProfile → DialEnd
dial_select context_cancelled p = record {
  result = err dial_cancelled;
  profile = finish context_done p;
  cleanup = true;
}
dial_select profile_ended p = record { result = err dial_aborted; profile = p; cleanup = true }
dial_select (answered (ended reason)) p = record {
  result = err (dial_refused reason);
  profile = finish reason p;
  cleanup = true;
}
dial_select (answered (connected fd local remote)) p = record {
  result = ok fd;
  profile = p;
  cleanup = false;
}
