-- ===== src/Examples/Quic.antt =====
-- A QUIC endpoint with a pinned digest.
use myflowhub_core.Rfcomm.{from_hex}
use myflowhub_core.Common.{
  ℕ, ◌≡◌, refl, ◌↔◌, List, [], ◌∷◌, Option, none, some, Bool, false, Text, codes, ok, text_eq,
  if◌then◌else◌,
}
use myflowhub_core.Conn.{ℤ, pos}
use myflowhub_core.Strings.{remove_all, to_lower, trim_space}
use myflowhub_core.Rfcomm.Endpoint.{Url}
use myflowhub_core.Quic.{decode_hex, encode_hex, pin_of_digits, normalize_pin_sha256}
use myflowhub_core.Quic.Endpoint.{
  trim_right_brackets, trim_left_brackets, trim_brackets, split_host, port_error, server_name_of,
  half_pair, options_error, made_endpoint, validate, parse_bool_default, pinned_endpoint,
  parse_fields, validate_host_port, parse_url, Endpoint, parse_endpoint,
}
use myflowhub_core.Quic.Options.{dial_options, dial_defaults, validate_dial}
use myflowhub_core.Quic.Tls.{
  pin_of, client_certificate_of, root_cas_of, Files, ClientTls, verify_connection,
  build_client_tls_config,
}
use myflowhub_core.Quic.Dial.{dial_accepts_endpoint}
use myflowhub_core.Quic.Pinned.{endpoint_pin_verified}

abbrev split_host_port : Text → Option (Text × Text)
split_host_port addr =
    if text_eq addr (codes "hub.example:9000")
    then some (codes "hub.example", codes "9000")
    else none

abbrev atoi : Text → Option ℤ
atoi s = if text_eq s (codes "9000") then some (pos 9000) else none

abbrev is_ip : Text → Bool
is_ip s = false

abbrev pin_text : Text
pin_text = codes "0102030405060708090a0b0c0d0e0f101112131415161718191a1b1c1d1e1fFF"

abbrev digest : List ℕ
digest =
    2 ∷ 3 ∷ 4 ∷ 5 ∷ 6 ∷ 7 ∷ 8 ∷ 9 ∷ 10 ∷ 11 ∷ 12 ∷ 13 ∷ 14 ∷ 15 ∷ 16 ∷ 17 ∷ 18 ∷ 19 ∷ 20 ∷ 21 ∷ 22
    ∷ 23 ∷ 24 ∷ 25 ∷ 26 ∷ 27 ∷ 28 ∷ 29 ∷ 30 ∷ 31 ∷ 255 ∷ []

abbrev url : Url
url = record {
  scheme = codes "quic";
  host = codes "hub.example:9000";
  path = [];
  query = λ name. if text_eq name (codes "pin_sha256") then pin_text else [];
}

abbrev raw : Text
raw = codes " quic://hub.example:9000 "

abbrev url_parse : Text → Option Url
url_parse s = some url

abbrev endpoint : Endpoint
endpoint = record {
  addr = codes "hub.example:9000";
  server_name = codes "hub.example";
  alpn = codes "myflowhub";
  insecure = false;
  pin_sha256 = codes "0102030405060708090a0b0c0d0e0f101112131415161718191a1b1c1d1e1fff";
  ca_file = [];
  client_cert_file = [];
  client_key_file = [];
}

parsed : parse_endpoint split_host_port atoi is_ip url_parse raw ≡ ok endpoint
unfolding parse_endpoint parse_url validate_host_port parse_fields pinned_endpoint
    parse_bool_default validate made_endpoint options_error half_pair server_name_of port_error
    split_host trim_brackets trim_left_brackets trim_right_brackets normalize_pin_sha256
    pin_of_digits encode_hex decode_hex trim_space to_lower remove_all from_hex
parsed = refl

dial_accepts_endpoint_example :
    (dial_defaults split_host_port atoi is_ip (dial_options endpoint) ≡ dial_options endpoint)
    × (validate_dial split_host_port atoi (dial_options endpoint) ≡ none)
dial_accepts_endpoint_example =
    dial_accepts_endpoint split_host_port atoi is_ip url_parse raw endpoint parsed

abbrev files : Files ℕ ℕ ℕ
files = record {
  load_x509_key_pair = λ cert key. none;
  system_cert_pool = none;
  new_cert_pool = 0;
  read_file = λ file. none;
  append_certs_from_pem = λ pool data'. none;
}

abbrev config : ClientTls ℕ ℕ
config = record {
  next_proto = codes "myflowhub";
  insecure_skip_verify = false;
  server_name = codes "hub.example";
  root_cas = none;
  certificate = none;
  pin = some (1 ∷ digest);
}

pinned : normalize_pin_sha256 pin_text ≡ ok (1 ∷ digest)
unfolding normalize_pin_sha256 trim_space pin_of_digits to_lower remove_all from_hex
pinned = refl

built : build_client_tls_config files (dial_options endpoint) ≡ ok config
unfolding build_client_tls_config root_cas_of trim_space dial_options client_certificate_of pin_of
    normalize_pin_sha256 pin_of_digits to_lower remove_all from_hex
built = refl

-- A digest that stands for SHA-256: the certificates here are their own digests.
endpoint_pin_verified_example :
    (verify_connection (λ c. c) config.pin ((1 ∷ digest) ∷ []) ≡ none)
    ↔ ((c : List ℕ) × (cs : List (List ℕ)) × ((1 ∷ digest) ∷ [] ≡ c ∷ cs) × (c ≡ 1 ∷ digest))
endpoint_pin_verified_example =
    endpoint_pin_verified files (λ c. c) split_host_port atoi is_ip url_parse raw endpoint url
      config 1 digest ((1 ∷ digest) ∷ []) parsed refl pinned built
