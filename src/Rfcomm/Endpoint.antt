-- ===== src/Rfcomm/Endpoint.antt =====
-- listener/rfcomm_listener/endpoint.go: endpoints of a dial, and their URIs. url.Parse, with the
-- query that it gives, and strconv.Atoi are arguments.
use myflowhub_core.Common.{
  [], ◌∷◌, Option, none, some, Bool, true, false, ◌||◌, not, Text, codes, text_eq, Result, ok, err,
  ◌>>=◌, is_empty, ◌==◌, ltb, if◌then◌else◌,
}
use myflowhub_core.Conn.{ℤ, pos, negsuc}
use myflowhub_core.Strings.{trim_space, to_lower}
use myflowhub_core.Config.{one_of}
use myflowhub_core.Rfcomm.{normalize_bd_addr, is_uuid_like}

-- What url.Parse answers, with Query().Get.
pub record Url : Type 0 where
  pub scheme : Text
  pub host : Text
  pub path : Text
  pub query : Text → Text

pub data EndpointError : Type 0 where
  endpoint_empty url_error scheme_invalid addr_missing addr_invalid uuid_invalid channel_invalid
        adapter_empty secure_invalid name_reserved :
      EndpointError

pub record Endpoint : Type 0 where
  pub bd_addr : Text
  pub uuid : Text
  pub channel : ℤ
  pub adapter : Text
  pub insecure : Bool
  pub name : Text

abbrev pub endpoint_scheme_rfcomm : Text
endpoint_scheme_rfcomm = codes "bt+rfcomm"

abbrev pub default_rfcomm_uuid : Text
default_rfcomm_uuid = codes "0eef65b8-9374-42ea-b992-6ee2d0699f5c"

abbrev pub bad_channel : ℤ → Bool
bad_channel (pos n) = ltb 30 n
bad_channel (negsuc n) = true

abbrev pub refuses : {E A : Type 0} → Result E A → Bool
refuses (ok a) = false
refuses (err e) = true

-- Validate.
unfoldable pub validate : Endpoint → Option EndpointError
validate e =
    if is_empty e.bd_addr
    then some addr_missing
    else if refuses (normalize_bd_addr e.bd_addr)
    then some addr_invalid
    else if is_empty e.uuid
    then some uuid_invalid
    else if not (is_uuid_like e.uuid)
    then some uuid_invalid
    else if bad_channel e.channel
    then some channel_invalid
    else if is_empty (trim_space e.adapter)
    then some adapter_empty
    else if not (is_empty (trim_space e.name))
    then some name_reserved
    else none

-- parseBool; `none` is its error.
unfoldable pub parse_flag : Text → Option Bool
parse_flag raw =
    let v = to_lower (trim_space raw) in
    if one_of v (codes "1" ∷ codes "true" ∷ codes "t" ∷ codes "yes" ∷ codes "y" ∷ codes "on" ∷ [])
    then some true
    else if one_of v
        (codes "0" ∷ codes "false" ∷ codes "f" ∷ codes "no" ∷ codes "n" ∷ codes "off" ∷ [])
    then some false
    else none

abbrev pub or_default : Text → Text → Text
or_default d s = if is_empty s then d else s

-- strings.TrimPrefix of a slash.
abbrev no_slash : Text → Text
no_slash [] = []
no_slash (c ∷ s) = if c == b'/' then s else c ∷ s

abbrev pub normal_or_invalid : {E : Type 0} → Result E Text → Result EndpointError Text
normal_or_invalid (ok s) = ok s
normal_or_invalid (err e) = err addr_invalid

-- The address of ParseEndpoint, from the host or else from the path.
abbrev pub address_text : Url → Text
address_text u =
    if is_empty (trim_space u.host) then trim_space (no_slash u.path) else trim_space u.host

unfoldable pub parse_addr : Url → Result EndpointError Text
parse_addr u =
    if is_empty (address_text u)
    then err addr_missing
    else normal_or_invalid (normalize_bd_addr (address_text u))

-- Its UUID.
unfoldable pub parse_uuid : Url → Result EndpointError Text
parse_uuid u =
    let uuid = to_lower (or_default default_rfcomm_uuid (trim_space (u.query (codes "uuid")))) in
    if is_uuid_like uuid then ok uuid else err uuid_invalid

abbrev pub dialable : Option ℤ → Result EndpointError ℤ
dialable none = err channel_invalid
dialable (some (pos n)) = if (n == 0) || ltb 30 n then err channel_invalid else ok (pos n)
dialable (some (negsuc n)) = err channel_invalid

abbrev secure_or_error : Option Bool → Result EndpointError Bool
secure_or_error none = err secure_invalid
secure_or_error (some b) = ok b

-- Its switch for security.
unfoldable pub parse_secure : Url → Result EndpointError Bool
unfolding parse_flag
parse_secure u =
    let raw = trim_space (u.query (codes "secure")) in
    if is_empty raw then ok true else secure_or_error (parse_flag raw)

abbrev pub without_error : Endpoint → Option EndpointError → Result EndpointError Endpoint
without_error ep none = ok ep
without_error ep (some e) = err e

-- The end of ParseEndpoint before Validate.
unfoldable pub named_endpoint : Url → Text → Text → ℤ → Bool → Result EndpointError Endpoint
named_endpoint u bd uuid ch secure =
    let name = trim_space (u.query (codes "name")) in
    if not (is_empty name)
    then err name_reserved
    else ok (record {
      bd_addr = bd;
      uuid = uuid;
      channel = ch;
      adapter = or_default (codes "hci0") (trim_space (u.query (codes "adapter")));
      insecure = not secure;
      name = name;
    })

module _ (atoi : Text → Option ℤ) where
  -- Its channel.
  unfoldable pub parse_channel : Url → Result EndpointError ℤ
  parse_channel u =
      let raw = trim_space (u.query (codes "channel")) in
      if is_empty raw then ok (pos 0) else dialable (atoi raw)

  -- ParseEndpoint up to the call of Validate.
  unfoldable pub parse_fields : Url → Result EndpointError Endpoint
  unfolding parse_addr parse_uuid parse_channel parse_secure named_endpoint
  parse_fields u = do
    bd ← parse_addr u
    uuid ← parse_uuid u
    ch ← parse_channel u
    secure ← parse_secure u
    named_endpoint u bd uuid ch secure

  -- ParseEndpoint with a URI of any scheme.
  unfoldable pub parse_url : Url → Result EndpointError Endpoint
  unfolding parse_fields validate
  parse_url u =
      if not (text_eq (to_lower (trim_space u.scheme)) endpoint_scheme_rfcomm)
      then err scheme_invalid
      else parse_fields u >>= (λ ep. without_error ep (validate ep))

  -- ParseEndpoint.
  unfoldable pub parse_endpoint : (Text → Option Url) → Text → Result EndpointError Endpoint
  unfolding parse_url
  parse_endpoint url_parse raw =
      let s = trim_space raw in
      if is_empty s
      then err endpoint_empty
      else elim (url_parse s) [ none ↦ err url_error | some u ↦ parse_url u ]
