-- ===== src/Tls.antt =====
-- internal/quicutil/tls.go: the two TLS configurations, and as much of crypto/tls as decides whether a
-- QUIC handshake between them succeeds. Keys, certificates and their encodings enter as an
-- interface.
use quicmeshpoc.Common.{
  ℕ, ◌+◌, ◌-◌, ◌*◌, Bytes, Bool, true, false, ◌||◌, not, List, [], ◌∷◌, Option, none, some, text,
  str_eq, member, if◌then◌else◌, ◌>>=◌,
}
use quicmeshpoc.Lighthouse.State.{second}

-- tls.Config, as far as the program sets it: with `get_certificate` the certificate for a name, or
-- an error.
pub record ServerTls (Cert : Type 0) : Type 0 where
  pub certificates : List Cert
  pub get_certificate : Option (Bytes → Option Cert)
  pub next_protos : List Bytes
  pub min_version : ℕ

pub record ClientTls : Type 0 where
  pub server_name : Bytes
  pub next_protos : List Bytes
  pub min_version : ℕ
  pub insecure : Bool

abbrev pub version_tls13 : ℕ
version_tls13 = 0x0304

abbrev pub hour : ℕ
hour = 3600 * second

pub record Template : Type 0 where
  pub serial_number : ℕ
  pub common_name : Bytes
  pub not_before : ℕ
  pub not_after : ℕ

unfoldable pub template : ℕ → Template
unfolding text
template now = record {
  serial_number = 1;
  common_name = text "quickmesh-poc";
  not_before = now - hour;
  not_after = now + 365 * 24 * hour;
}

-- crypto/ecdsa, crypto/x509, encoding/pem and crypto/tls, as they are called here; `none` is an error.
-- `create_certificate` takes the template, the issuer and the signing key.
pub record Crypto (Key Cert : Type 0) : Type 0 where
  pub generate_key : Option Key
  pub create_certificate : Template → Template → Key → Option Bytes
  pub marshal_key : Key → Option Bytes
  pub encode_pem : Bytes → Bytes → Bytes
  pub x509_key_pair : Bytes → Bytes → Option Cert

abbrev pub generated : {Cert : Type 0} → Cert → List Bytes → ServerTls Cert
generated cert alpn = record {
  certificates = cert ∷ [];
  get_certificate = none;
  next_protos = alpn;
  min_version = version_tls13;
}

module _ {Key Cert : Type 0} (crypto : Crypto Key Cert) where
  -- The certificate, or `none` where the code panics.
  unfoldable pub self_signed : ℕ → Option Cert
  unfolding template text
  self_signed now = do
    key ← crypto.generate_key
    der ← crypto.create_certificate (template now) (template now) key
    key_der ← crypto.marshal_key key
    crypto.x509_key_pair (crypto.encode_pem (text "CERTIFICATE") der)
        (crypto.encode_pem (text "PRIVATE KEY") key_der)

  -- GenerateTLSConfig
  unfoldable pub generate_tls_config : ℕ → List Bytes → Option (ServerTls Cert)
  unfolding self_signed
  generate_tls_config now alpn = elim (self_signed now) [
    | none ↦ none
    | some cert ↦ some (generated cert alpn)
  ]

-- ClientTLSConfig
unfoldable pub client_tls_config : Bytes → Bool → List Bytes → ClientTls
client_tls_config server_name insecure alpn = record {
  server_name = server_name;
  next_protos = alpn;
  min_version = version_tls13;
  insecure = insecure;
}

-- The first protocol of the server that the client names too. QUIC has no handshake without one.
unfoldable pub agreed : List Bytes → List Bytes → Option Bytes
unfolding member
agreed [] offers = none
agreed (p ∷ protos) offers =
    let rest = agreed protos offers in if member p offers then some p else rest

-- Whether the certificate is valid for a name by the roots of the client, and the name that the client
-- sends in its first message, which is empty for an address.
pub record Roots (Cert : Type 0) : Type 0 where
  pub verifies : Cert → Bytes → Bool
  pub sent_name : Bytes → Bytes

module _ {Cert : Type 0} where
  abbrev pub first_cert : List Cert → Option Cert
  first_cert [] = none
  first_cert (c ∷ cs) = some c

  abbrev pub no_certs : List Cert → Bool
  no_certs [] = true
  no_certs (c ∷ cs) = false

  -- The certificate that a server shows to a client that sends this name.
  unfoldable pub shown : ServerTls Cert → Bytes → Option Cert
  unfolding str_eq
  shown server name = elim server.get_certificate [
    | none ↦ first_cert server.certificates
    | some get ↦
        if no_certs server.certificates || not (str_eq name [])
        then get name
        else first_cert server.certificates
  ]

  -- The protocol, if the client is shown a certificate that it accepts.
  unfoldable pub answered : Roots Cert → ServerTls Cert → ClientTls → Option Cert → Option Bytes
  unfolding agreed
  answered roots server client none = none
  answered roots server client (some cert) =
      if client.insecure || roots.verifies cert client.server_name
      then agreed server.next_protos client.next_protos
      else none

  -- The protocol of a handshake that succeeds.
  unfoldable pub handshake : Roots Cert → ServerTls Cert → ClientTls → Option Bytes
  unfolding shown answered
  handshake roots server client =
      answered roots server client (shown server (roots.sent_name client.server_name))
