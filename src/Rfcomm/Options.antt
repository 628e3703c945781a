-- ===== src/Rfcomm/Options.antt =====
-- listener/rfcomm_listener/dial.go and listener.go: the options of a dial and of a listener.
use myflowhub_core.Common.{
  Option, none, some, Bool, ◌||◌, not, Text, codes, Result, ok, err, is_empty, if◌then◌else◌,
}
use myflowhub_core.Conn.{ℤ}
use myflowhub_core.Strings.{trim_space, to_lower}
use myflowhub_core.Rfcomm.{normalize_bd_addr, is_uuid_like}
use myflowhub_core.Rfcomm.Endpoint.{Endpoint, bad_channel, refuses, default_rfcomm_uuid}

pub record DialOptions : Type 0 where
  pub bd_addr : Text
  pub uuid : Text
  pub channel : ℤ
  pub adapter : Text
  pub insecure : Bool

pub data OptionsError : Type 0 where
  bd_addr_required bd_addr_invalid uuid_invalid channel_invalid adapter_empty : OptionsError

abbrev pub if_blank : Text → Text → Text
if_blank d s = if is_empty (trim_space s) then d else s

-- setDefaults of the options of a dial.
unfoldable pub dial_defaults : DialOptions → DialOptions
dial_defaults o = record o {
  uuid = if_blank default_rfcomm_uuid o.uuid;
  adapter = if_blank (codes "hci0") o.adapter;
}

-- Their Validate.
unfoldable pub validate_dial : DialOptions → Option OptionsError
validate_dial o =
    if is_empty (trim_space o.bd_addr)
    then some bd_addr_required
    else if refuses (normalize_bd_addr o.bd_addr)
    then some bd_addr_invalid
    else if is_empty (trim_space o.uuid) || not (is_uuid_like o.uuid)
    then some uuid_invalid
    else if bad_channel o.channel
    then some channel_invalid
    else if is_empty (trim_space o.adapter)
    then some adapter_empty
    else none

-- The options that DialEndpoint passes on.
abbrev pub dial_options : Endpoint → DialOptions
dial_options e = record {
  bd_addr = e.bd_addr;
  uuid = e.uuid;
  channel = e.channel;
  adapter = e.adapter;
  insecure = e.insecure;
}

abbrev pub unless_invalid : DialOptions → Option OptionsError → Result OptionsError DialOptions
unless_invalid o none = ok o
unless_invalid o (some e) = err e

-- Dial up to the call of dialNative.
unfoldable pub dial_prepared : DialOptions → Result OptionsError DialOptions
unfolding dial_defaults validate_dial
dial_prepared o =
    let d = dial_defaults o in
    let p : DialOptions = record d {
      uuid = to_lower (trim_space d.uuid);
      bd_addr = trim_space d.bd_addr;
    } in
    unless_invalid p (validate_dial p)

-- The options of a listener.
pub record ListenOptions : Type 0 where
  pub listen_uuid : Text
  pub listen_channel : ℤ
  pub listen_adapter : Text
  pub listen_insecure : Bool

-- setDefaults and New of the listener.
unfoldable pub new_listener : ListenOptions → ListenOptions
new_listener o = record o {
  listen_uuid = to_lower (trim_space (if_blank default_rfcomm_uuid o.listen_uuid));
  listen_adapter = if_blank (codes "hci0") o.listen_adapter;
}

-- Its Validate.
unfoldable pub validate_listen : ListenOptions → Option OptionsError
validate_listen o =
    if is_empty (trim_space o.listen_uuid) || not (is_uuid_like o.listen_uuid)
    then some uuid_invalid
    else if bad_channel o.listen_channel
    then some channel_invalid
    else if is_empty (trim_space o.listen_adapter)
    then some adapter_empty
    else none
