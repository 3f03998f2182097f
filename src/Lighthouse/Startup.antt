-- ===== src/Lighthouse/Startup.antt =====
-- main and serverTLSConfig of cmd/lighthouse/main.go: which servers run, and with which TLS
-- configurations. Autocert's manager and the loading of a certificate enter as functions.
use quicmeshpoc.Common.{
  ℕ, Bytes, Bool, false, not, List, [], ◌∷◌, ◌++◌, Option, none, some, text, str_eq, if◌then◌else◌,
}
use quicmeshpoc.Tls.{Crypto, ServerTls, generate_tls_config}

pub record Flags : Type 0 where
  pub addr : Bytes
  pub cert_file : Bytes
  pub key_file : Bytes
  pub domain : Bytes
  pub email : Bytes
  pub acme_cache : Bytes
  pub acme_staging : Bool
  pub http01_addr : Bytes
  pub web_addr : Bytes
  pub web_tls_addr : Bytes

unfoldable pub default_flags : Flags
unfolding text
default_flags = record {
  addr = text ":4433";
  cert_file = [];
  key_file = [];
  domain = [];
  email = [];
  acme_cache = text "./acme-cache";
  acme_staging = false;
  http01_addr = text ":80";
  web_addr = text ":8080";
  web_tls_addr = [];
}

-- autocert.Manager; `directory_url` is that of its client, if it has one of its own.
pub record Manager : Type 0 where
  pub cache_dir : Bytes
  pub host_whitelist : List Bytes
  pub email : Bytes
  pub directory_url : Option Bytes

unfoldable pub lets_encrypt_staging : Bytes
unfolding text
lets_encrypt_staging = text "https://acme-staging-v02.api.letsencrypt.org/directory"

unfoldable pub manager : Flags → Manager
unfolding lets_encrypt_staging
manager flags = record {
  cache_dir = flags.acme_cache;
  host_whitelist = flags.domain ∷ [];
  email = flags.email;
  directory_url = if flags.acme_staging then some lets_encrypt_staging else none;
}

-- The configuration, with the address and the manager of the challenge listener, if there is one.
pub record Configured (Cert : Type 0) : Type 0 where
  pub tls_config : ServerTls Cert
  pub challenges : Option (Bytes × Manager)

-- The listeners of the running lighthouse: over QUIC, and over TCP the plain dashboard and, with
-- its header Alt-Svc, the HTTPS one.
pub record Servers (Cert : Type 0) : Type 0 where
  pub api_addr : Bytes
  pub api_tls : ServerTls Cert
  pub challenges : Option (Bytes × Manager)
  pub web_addr : Bytes
  pub web_tls : Option (Bytes × Bytes × ServerTls Cert)

pub data Startup (A : Type 0) : Type 0 where
  panics exits : Startup A
  runs : A → Startup A

module _ {Key Cert : Type 0} (crypto : Crypto Key Cert)
    (get_certificate : Manager → Bytes → Option Cert) (load : Bytes → Bytes → Option Cert) where
  unfoldable pub with_cert : ServerTls Cert → Option Cert → Startup (Configured Cert)
  with_cert conf none = exits
  with_cert conf (some cert) =
      runs (record { tls_config = record conf { certificates = cert ∷ [] }; challenges = none })

  -- serverTLSConfig behind the generated configuration.
  unfoldable pub configured : Flags → ServerTls Cert → Startup (Configured Cert)
  unfolding manager with_cert str_eq
  configured flags conf =
      if not (str_eq flags.domain [])
      then runs (record {
        tls_config = record conf {
          certificates = [];
          get_certificate = some (get_certificate (manager flags));
        };
        challenges = some (flags.http01_addr, manager flags);
      })
      else if not (str_eq flags.cert_file [])
      then with_cert conf (load flags.cert_file flags.key_file)
      else runs (record { tls_config = conf; challenges = none })

  unfoldable pub server_tls_config : ℕ → Flags → Startup (Configured Cert)
  unfolding generate_tls_config configured text
  server_tls_config now flags = elim (generate_tls_config crypto now (text "h3" ∷ [])) [
    | none ↦ panics
    | some conf ↦ configured flags conf
  ]

  unfoldable pub alt_svc : Flags → Bytes
  unfolding text
  alt_svc flags = text "h3=\"" ++ (flags.addr ++ text "\"; ma=86400")

  unfoldable pub web_protos : List Bytes
  unfolding text
  web_protos = text "h2" ∷ text "http/1.1" ∷ []

  unfoldable pub serving : Flags → Configured Cert → Servers Cert
  unfolding alt_svc web_protos str_eq
  serving flags c = record {
    api_addr = flags.addr;
    api_tls = c.tls_config;
    challenges = c.challenges;
    web_addr = flags.web_addr;
    web_tls =
        if str_eq flags.web_tls_addr []
        then none
        else some
            (flags.web_tls_addr, alt_svc flags, record c.tls_config { next_protos = web_protos });
  }

  -- main from the flags on, until a listener fails.
  unfoldable pub start_lighthouse : ℕ → Flags → Startup (Servers Cert)
  unfolding server_tls_config serving
  start_lighthouse now flags = elim (server_tls_config now flags) [
    | panics ↦ panics
    | exits ↦ exits
    | runs c ↦ runs (serving flags c)
  ]
