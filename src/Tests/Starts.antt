-- ===== src/Tests/Starts.antt =====
-- The starts of both programs.
use quicmeshpoc.Common.{
  ℕ, Bytes, List, true, false, [], ◌∷◌, Option, none, some, text, str_eq, ◌≡◌, refl,
}
use quicmeshpoc.Protocol.{alpn_peer}
use quicmeshpoc.Tls.{
  Crypto, Roots, self_signed, template, generated, generate_tls_config, handshake,
}
use quicmeshpoc.Lighthouse.Startup.{
  default_flags, Manager, server_tls_config, configured, Configured, runs, start_lighthouse,
  serving,
}
use quicmeshpoc.Mesh.Start.{lighthouse_tls, listener_tls, dial_tls, fresh_mesh, started}
use quicmeshpoc.System.Handshakes.{lighthouse_handshake, peer_handshakes}
use quicmeshpoc.Logging.{log_to}
use quicmeshpoc.Cli.{parse_args}
use quicmeshpoc.Cli.Main.{quit, Ending, exit, client_main, with_name, with_log, with_mesh, run_ui}
use quicmeshpoc.Mesh.Links.{close}
use quicmeshpoc.Tests.Data.{ann, bob}
use quicmeshpoc.Tests.Arguments.{drop_flags}

-- Keys are numbers, and a certificate is the text of its name.
abbrev crypto : Crypto ℕ Bytes
crypto = record {
  generate_key = some 1;
  create_certificate = λ t issuer key. some t.common_name;
  marshal_key = λ key. some (key ∷ []);
  encode_pem = λ label bytes. bytes;
  x509_key_pair = λ cert key. some cert;
}

-- Clients that verify no certificate by themselves.
abbrev no_roots : Roots Bytes
no_roots = record { verifies = λ cert name. false; sent_name = λ name. name }

abbrev issued : Manager → Bytes → Option Bytes
issued m name = some name

abbrev no_file : Bytes → Bytes → Option Bytes
no_file cert key = none

abbrev own : Bytes
unfolding text
own = text "quickmesh-poc"

abbrev self_signed_config : Configured Bytes
unfolding text
self_signed_config = record { tls_config = generated own (text "h3" ∷ []); challenges = none }

lighthouse_handshake_example :
    handshake no_roots self_signed_config.tls_config (lighthouse_tls (λ url. none) ann true)
    ≡ some (text "h3")
unfolding default_flags self_signed template generate_tls_config server_tls_config configured str_eq
    lighthouse_tls text
lighthouse_handshake_example =
    lighthouse_handshake crypto no_roots issued no_file 5 default_flags own self_signed_config
      (λ url. none) ann true refl refl

peer_handshakes_example :
    handshake no_roots (generated own (alpn_peer ∷ [])) dial_tls ≡ some alpn_peer
unfolding default_flags self_signed template generate_tls_config server_tls_config configured str_eq
    listener_tls text
peer_handshakes_example =
    (peer_handshakes crypto no_roots issued no_file 5 6 default_flags own own self_signed_config
      (generated own (alpn_peer ∷ [])) (λ url. none) ann true refl refl refl refl).0

-- A client that starts and quits, and one that is asked for help.
abbrev main_of : List Bytes → Ending
main_of =
    client_main drop_flags (λ id. log_to (record { path = id; level = 0; also_stderr = false }))
      (λ id. started (fresh_mesh id bob)) (λ m. m) quit

client_main_run : main_of (ann ∷ (b'-' ∷ []) ∷ []) ≡ exit 0 []
unfolding client_main parse_args with_name with_log with_mesh run_ui close str_eq
client_main_run = refl

client_main_help : main_of ((b'-' ∷ b'h' ∷ []) ∷ []) ≡ exit 0 []
unfolding client_main parse_args str_eq
client_main_help = refl

-- By default the lighthouse serves its own certificate, and no HTTPS dashboard.
start_lighthouse_run :
    start_lighthouse crypto issued no_file 5 default_flags
    ≡ runs (record {
      api_addr = text ":4433";
      api_tls = self_signed_config.tls_config;
      challenges = none;
      web_addr = text ":8080";
      web_tls = none;
    })
unfolding start_lighthouse server_tls_config configured serving default_flags self_signed template
    generate_tls_config str_eq text
start_lighthouse_run = refl
