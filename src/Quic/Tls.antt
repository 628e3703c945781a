-- ===== src/Quic/Tls.antt =====
-- listener/quic_listener/tls_config.go: the TLS configurations of both sides. The files, the
-- certificate pools, the key pairs and SHA-256 are arguments.
use myflowhub_core.Common.{
  ℕ, List, [], ◌∷◌, Option, none, some, Bool, true, false, ◌&&◌, ◌||◌, not, Text, text_eq, Result,
  ok, err, ◌>>=◌, is_empty, if◌then◌else◌,
}
use myflowhub_core.Strings.{trim_space}
use myflowhub_core.Quic.{PinError, normalize_pin_sha256}
use myflowhub_core.Quic.Options.{DialOptions, Options}

pub data ClientAuth : Type 0 where
  no_client_cert verify_client_cert_if_given require_and_verify_client_cert : ClientAuth

pub data TlsError : Type 0 where
  cert_and_key_required system_pool_failed read_cert_failed append_certs_failed load_key_pair_failed
        pin_failed :
      TlsError

pub data PeerError : Type 0 where
  peer_certificate_missing pin_mismatch : PeerError

-- crypto/tls, crypto/x509 and os, as far as they are called: a key pair of two files, the system's
-- pool (an error, nil or a pool), a new pool, a file's bytes, and a pool with more certificates.
pub record Files (Cert Pool Data : Type 0) : Type 0 where
  pub load_x509_key_pair : Text → Text → Option Cert
  pub system_cert_pool : Option (Option Pool)
  pub new_cert_pool : Pool
  pub read_file : Text → Option Data
  pub append_certs_from_pem : Pool → Data → Option Pool

-- What tls.Config gets. `pin` stands for VerifyConnection, which closes over it.
pub record ServerTls (Cert Pool : Type 0) : Type 0 where
  pub next_proto : Text
  pub certificate : Cert
  pub client_auth : ClientAuth
  pub client_cas : Option Pool

pub record ClientTls (Cert Pool : Type 0) : Type 0 where
  pub next_proto : Text
  pub insecure_skip_verify : Bool
  pub server_name : Text
  pub root_cas : Option Pool
  pub certificate : Option Cert
  pub pin : Option (List ℕ)

abbrev pub or_fail : {A : Type 0} → TlsError → Option A → Result TlsError A
or_fail e none = err e
or_fail e (some a) = ok a

abbrev pub pin_or_fail : Result PinError (List ℕ) → Result TlsError (Option (List ℕ))
pin_or_fail (ok bs) = ok (some bs)
pin_or_fail (err e) = err pin_failed

-- VerifyConnection on the peer's certificates, the first of them first; a certificate is not nil.
unfoldable pub verify_connection :
    {Peer : Type 0} → (Peer → List ℕ) → Option (List ℕ) → List Peer → Option PeerError
verify_connection sha256 none peers = none
verify_connection sha256 (some pin) [] = some peer_certificate_missing
verify_connection sha256 (some pin) (c ∷ cs) =
    if text_eq (sha256 c) pin then none else some pin_mismatch

module _ {Cert Pool Data : Type 0} (files : Files Cert Pool Data) where
  -- The pool that loadCertPool starts from.
  unfoldable pub first_pool : Bool → Result TlsError Pool
  first_pool false = ok files.new_cert_pool
  first_pool true = elim files.system_cert_pool [
    | none ↦ err system_pool_failed
    | some none ↦ ok files.new_cert_pool
    | some (some pool) ↦ ok pool
  ]

  unfoldable pub with_file : Text → Pool → Result TlsError Pool
  with_file file pool = do
    data' ← or_fail read_cert_failed (files.read_file file)
    or_fail append_certs_failed (files.append_certs_from_pem pool data')

  -- loadCertPool
  unfoldable pub load_cert_pool : Text → Bool → Result TlsError Pool
  unfolding first_pool with_file
  load_cert_pool file use_system = do
    pool ← first_pool use_system
    if is_empty (trim_space file) then ok pool else with_file file pool

  abbrev pub some_pool : Result TlsError Pool → Result TlsError (Option Pool)
  some_pool (ok pool) = ok (some pool)
  some_pool (err e) = err e

  -- The part of buildServerTLSConfig about client certificates. A pool is never nil.
  unfoldable pub client_auth_of : Options → ClientAuth
  client_auth_of o =
      if o.require_client_cert
      then require_and_verify_client_cert
      else if not (is_empty (trim_space o.client_ca_file))
      then verify_client_cert_if_given
      else no_client_cert

  unfoldable pub client_cas_of : Options → Result TlsError (Option Pool)
  client_cas_of o =
      let ca = trim_space o.client_ca_file in
      if not (is_empty ca) || o.require_client_cert
      then some_pool (load_cert_pool ca false)
      else ok none

  abbrev pub server_tls : Options → Cert → Option Pool → ServerTls Cert Pool
  server_tls o cert cas = record {
    next_proto = o.alpn;
    certificate = cert;
    client_auth = client_auth_of o;
    client_cas = cas;
  }

  unfoldable pub server_tls_of : Options → Cert → Result TlsError (ServerTls Cert Pool)
  server_tls_of o cert = do cas ← client_cas_of o; ok (server_tls o cert cas)

  -- buildServerTLSConfig
  unfoldable pub build_server_tls_config : Options → Result TlsError (ServerTls Cert Pool)
  build_server_tls_config o =
      let cert = trim_space o.cert_file in
      let key = trim_space o.key_file in
      if is_empty cert || is_empty key
      then err cert_and_key_required
      else or_fail load_key_pair_failed (files.load_x509_key_pair cert key) >>= server_tls_of o

  abbrev pub some_cert : Option Cert → Result TlsError (Option Cert)
  some_cert none = err load_key_pair_failed
  some_cert (some c) = ok (some c)

  unfoldable pub root_cas_of : DialOptions → Result TlsError (Option Pool)
  root_cas_of o =
      let ca = trim_space o.ca_file in
      if is_empty ca then ok none else some_pool (load_cert_pool ca true)

  unfoldable pub client_certificate_of : DialOptions → Result TlsError (Option Cert)
  client_certificate_of o =
      let cert = trim_space o.client_cert_file in
      let key = trim_space o.client_key_file in
      if is_empty cert && is_empty key
      then ok none
      else if is_empty cert || is_empty key
      then err cert_and_key_required
      else some_cert (files.load_x509_key_pair cert key)

  unfoldable pub pin_of : DialOptions → Result TlsError (Option (List ℕ))
  pin_of o =
      let pin = trim_space o.pin_sha256 in
      if is_empty pin then ok none else pin_or_fail (normalize_pin_sha256 pin)

  abbrev pub client_tls :
      DialOptions → Option Pool → Option Cert → Option (List ℕ) → ClientTls Cert Pool
  client_tls o roots cert pin = record {
    next_proto = o.alpn;
    insecure_skip_verify = o.insecure;
    server_name = trim_space o.server_name;
    root_cas = roots;
    certificate = cert;
    pin = pin;
  }

  -- buildClientTLSConfig
  unfoldable pub build_client_tls_config : DialOptions → Result TlsError (ClientTls Cert Pool)
  build_client_tls_config o = do
    roots ← root_cas_of o
    cert ← client_certificate_of o
    pin ← pin_of o
    ok (client_tls o roots cert pin)
