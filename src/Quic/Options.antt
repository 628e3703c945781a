-- ===== src/Quic/Options.antt =====
-- listener/quic_listener/dial.go and listener.go: the options of a dial and of a listener.
use myflowhub_core.Common.{Option, none, some, Bool, ◌&&◌, ◌||◌, not, Text, is_empty, if◌then◌else◌}
use myflowhub_core.Conn.{ℤ}
use myflowhub_core.Strings.{trim_space}
use myflowhub_core.Quic.Endpoint.{
  Endpoint, EndpointError, alpn_invalid, default_alpn, trim_brackets, validate_host_port,
  options_error,
}

pub record DialOptions : Type 0 where
  pub addr : Text
  pub server_name : Text
  pub alpn : Text
  pub insecure : Bool
  pub pin_sha256 : Text
  pub ca_file : Text
  pub client_cert_file : Text
  pub client_key_file : Text

-- The options that DialEndpoint takes from an endpoint.
unfoldable pub dial_options : Endpoint → DialOptions
dial_options ep = record {
  addr = ep.addr;
  server_name = ep.server_name;
  alpn = ep.alpn;
  insecure = ep.insecure;
  pin_sha256 = ep.pin_sha256;
  ca_file = ep.ca_file;
  client_cert_file = ep.client_cert_file;
  client_key_file = ep.client_key_file;
}

abbrev pub if_blank : Text → Text → Text
if_blank d s = if is_empty (trim_space s) then d else s

-- The ServerName that setDefaults gives, from what net.SplitHostPort makes of the address.
unfoldable pub default_server_name : (Text → Bool) → Option (Text × Text) → Text → Text
default_server_name is_ip none given = given
default_server_name is_ip (some (host, port)) given =
    if is_empty (trim_space given) && not (is_ip (trim_brackets host))
    then trim_brackets host
    else given

-- Options of the listener, without the logger.
pub record Options : Type 0 where
  pub addr : Text
  pub alpn : Text
  pub cert_file : Text
  pub key_file : Text
  pub client_ca_file : Text
  pub require_client_cert : Bool

-- setDefaults of the listener.
unfoldable pub listen_defaults : Options → Options
listen_defaults o = record o { alpn = if_blank default_alpn o.alpn }

pub data ListenError : Type 0 where
  cert_and_key_required : ListenError
  bad_option : EndpointError → ListenError

module _ (split_host_port : Text → Option (Text × Text)) (atoi : Text → Option ℤ) where
  -- setDefaults of a dial.
  unfoldable pub dial_defaults : (Text → Bool) → DialOptions → DialOptions
  dial_defaults is_ip o = record o {
    alpn = if_blank default_alpn o.alpn;
    server_name = default_server_name is_ip (split_host_port (trim_space o.addr)) o.server_name;
  }

  -- Validate of a dial.
  unfoldable pub validate_dial : DialOptions → Option EndpointError
  validate_dial o = elim (validate_host_port split_host_port atoi (trim_space o.addr)) [
    | some x ↦ some x
    | none ↦
        options_error split_host_port atoi o.alpn o.pin_sha256 o.client_cert_file o.client_key_file
  ]

  -- Validate of the listener.
  unfoldable pub validate_listen : Options → Option ListenError
  validate_listen o = elim (validate_host_port split_host_port atoi (trim_space o.addr)) [
    | some x ↦ some (bad_option x)
    | none ↦
        if is_empty (trim_space o.alpn)
        then some (bad_option alpn_invalid)
        else if is_empty (trim_space o.cert_file) || is_empty (trim_space o.key_file)
        then some cert_and_key_required
        else none
  ]
