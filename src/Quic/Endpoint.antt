-- ===== src/Quic/Endpoint.antt =====
-- listener/quic_listener/endpoint.go: endpoints of a dial, and their URIs. url.Parse,
-- net.SplitHostPort, net.ParseIP and strconv.Atoi are arguments.
use myflowhub_core.Common.{
  ℕ, List, [], ◌∷◌, Option, none, some, Bool, true, false, ◌&&◌, ◌||◌, not, Text, codes, text_eq,
  Result, ok, err, ◌>>=◌, is_empty, ◌==◌, if◌then◌else◌,
}
use myflowhub_core.Conn.{ℤ}
use myflowhub_core.Strings.{trim_space, to_lower}
use myflowhub_core.Rfcomm.Endpoint.{Url, parse_flag}
use myflowhub_core.Quic.{PinError, normalize_pin_sha256, encode_hex}

pub data EndpointError : Type 0 where
  endpoint_empty url_error scheme_invalid addr_missing addr_invalid alpn_invalid pin_invalid
        insecure_invalid cert_without_key :
      EndpointError

-- Endpoint; the DialOptions of dial.go has the same fields.
pub record Endpoint : Type 0 where
  pub addr : Text
  pub server_name : Text
  pub alpn : Text
  pub insecure : Bool
  pub pin_sha256 : Text
  pub ca_file : Text
  pub client_cert_file : Text
  pub client_key_file : Text

abbrev pub default_alpn : Text
default_alpn = codes "myflowhub"

-- strings.Trim(host, "[]")
abbrev pub is_bracket : ℕ → Bool
is_bracket c = (c == b'[') || (c == b']')

unfoldable pub trim_left_brackets : Text → Text
trim_left_brackets [] = []
trim_left_brackets (c ∷ s) = let rest = trim_left_brackets s in if is_bracket c then rest else c ∷ s

unfoldable pub trim_right_brackets : Text → Text
trim_right_brackets [] = []
trim_right_brackets (c ∷ s) =
    let rest = trim_right_brackets s in if is_bracket c && is_empty rest then [] else c ∷ rest

unfoldable pub trim_brackets : Text → Text
trim_brackets s = trim_right_brackets (trim_left_brackets s)

-- parseBoolDefault; `none` is its error. The words are those of the RFCOMM endpoint's parseBool.
unfoldable pub parse_bool_default : Text → Bool → Option Bool
parse_bool_default raw def = if is_empty (trim_space raw) then some def else parse_flag raw

-- Whether normalizePinSHA256 answers an error.
abbrev pub refuses_pin : Result PinError (List ℕ) → Bool
refuses_pin (ok bs) = false
refuses_pin (err e) = true

-- Whether exactly one of the two files is named.
unfoldable pub half_pair : Text → Text → Bool
half_pair cert key =
    let cert_set = not (is_empty (trim_space cert)) in
    let key_set = not (is_empty (trim_space key)) in not (if cert_set then key_set else not key_set)

-- `q.Get(name)`, trimmed.
abbrev pub field : Url → Text → Text
field u name = trim_space (u.query name)

abbrev pub without_error : Endpoint → Option EndpointError → Result EndpointError Endpoint
without_error ep none = ok ep
without_error ep (some e) = err e

abbrev pub or_error : {A : Type 0} → EndpointError → Option A → Result EndpointError A
or_error e none = err e
or_error e (some a) = ok a

abbrev pub pin_or_error : Result PinError (List ℕ) → Result EndpointError (List ℕ)
pin_or_error (ok bs) = ok bs
pin_or_error (err e) = err pin_invalid

-- The host of what net.SplitHostPort answers, with an error ignored.
unfoldable pub split_host : Option (Text × Text) → Text
split_host none = []
split_host (some (host, port)) = trim_brackets host

module _ (split_host_port : Text → Option (Text × Text)) (atoi : Text → Option ℤ) where
  unfoldable pub port_error : Text → Option EndpointError
  port_error port =
      if is_empty (trim_space port)
      then some addr_invalid
      else elim (atoi port) [ none ↦ some addr_invalid | some n ↦ none ]

  -- validateHostPort
  unfoldable pub validate_host_port : Text → Option EndpointError
  unfolding port_error
  validate_host_port addr =
      let a = trim_space addr in
      if is_empty a then some addr_missing else elim (split_host_port a) [
        | none ↦ some addr_invalid
        | some (host, port) ↦ port_error port
      ]

  -- What Validate tests behind the address.
  unfoldable pub options_error : Text → Text → Text → Text → Option EndpointError
  options_error alpn pin cert key =
      if is_empty (trim_space alpn)
      then some alpn_invalid
      else if not (is_empty pin) && refuses_pin (normalize_pin_sha256 pin)
      then some pin_invalid
      else if half_pair cert key
      then some cert_without_key
      else none

  -- Validate
  unfoldable pub validate : Endpoint → Option EndpointError
  validate e = elim (validate_host_port e.addr) [
    | some x ↦ some x
    | none ↦ options_error e.alpn e.pin_sha256 e.client_cert_file e.client_key_file
  ]

  module _ (is_ip : Text → Bool) where
    -- `if serverName == "" && net.ParseIP(host) == nil { serverName = host }`
    unfoldable pub server_name_of : Text → Text → Text
    server_name_of given host = if is_empty given && not (is_ip host) then host else given

    -- The end of ParseEndpoint before Validate.
    unfoldable pub made_endpoint : Url → Text → Bool → List ℕ → Endpoint
    made_endpoint u addr insecure pin = record {
      addr = addr;
      server_name =
          server_name_of (field u (codes "server_name")) (split_host (split_host_port addr));
      alpn = if is_empty (field u (codes "alpn")) then default_alpn else field u (codes "alpn");
      insecure = insecure;
      pin_sha256 = encode_hex pin;
      ca_file = field u (codes "ca");
      client_cert_file = field u (codes "cert");
      client_key_file = field u (codes "key");
    }

    abbrev pub validated : Endpoint → Result EndpointError Endpoint
    validated ep = without_error ep (validate ep)

    -- ParseEndpoint behind its switch `insecure`.
    unfoldable pub pinned_endpoint : Url → Text → Bool → Result EndpointError Endpoint
    pinned_endpoint u addr insecure =
        pin_or_error (normalize_pin_sha256 (field u (codes "pin_sha256")))
        >>= (λ pin. validated (made_endpoint u addr insecure pin))

    -- ParseEndpoint behind the test of the address.
    unfoldable pub parse_fields : Url → Text → Result EndpointError Endpoint
    parse_fields u addr =
        or_error insecure_invalid (parse_bool_default (u.query (codes "insecure")) false)
        >>= pinned_endpoint u addr

    abbrev pub unless_error :
        Option EndpointError → Result EndpointError Endpoint → Result EndpointError Endpoint
    unless_error (some e) r = err e
    unless_error none r = r

    -- ParseEndpoint behind url.Parse.
    unfoldable pub parse_url : Url → Result EndpointError Endpoint
    parse_url u =
        let addr = trim_space u.host in
        if not (text_eq (to_lower (trim_space u.scheme)) (codes "quic"))
        then err scheme_invalid
        else if is_empty addr
        then err addr_missing
        else unless_error (validate_host_port addr) (parse_fields u addr)

    -- ParseEndpoint
    unfoldable pub parse_endpoint : (Text → Option Url) → Text → Result EndpointError Endpoint
    parse_endpoint url_parse raw =
        let s = trim_space raw in
        if is_empty s
        then err endpoint_empty
        else elim (url_parse s) [ none ↦ err url_error | some u ↦ parse_url u ]
