-- ===== src/System/Handshakes.antt =====
-- Which QUIC handshakes of the program succeed: internal/quicutil/tls.go under main of
-- cmd/lighthouse/main.go, and under NewMesh and dialFirst of cmd/quicchat/mesh.go.
use quicmeshpoc.Common.{
  ℕ, Bytes, Bool, true, false, ◌||◌, List, [], ◌∷◌, Option, none, some, text, str_eq, if◌then◌else◌,
  ◌≡◌, refl, arith, ap, ◌∙◌, sym, subst, Bool-cases, inl, inr,
}
use quicmeshpoc.Protocol.{alpn_peer}
use quicmeshpoc.Tls.{
  Crypto, Roots, ServerTls, ClientTls, self_signed, generated, generate_tls_config, agreed, shown,
  answered, handshake,
}
use quicmeshpoc.Lighthouse.Startup.{
  Flags, Manager, manager, Startup, panics, exits, runs, Configured, with_cert, configured,
  server_tls_config,
}
use quicmeshpoc.Mesh.Start.{lighthouse_host, lighthouse_tls, listener_tls, dial_tls}

module _ {Key Cert : Type 0} (crypto : Crypto Key Cert) (roots : Roots Cert)
    (get_certificate : Manager → Bytes → Option Cert) (load : Bytes → Bytes → Option Cert) where
  -- What a lighthouse shows to a client that sends this name, by its flags.
  abbrev pub certificate : Flags → Cert → Bytes → Option Cert
  certificate flags own name =
      if str_eq flags.domain []
      then if str_eq flags.cert_file [] then some own else load flags.cert_file flags.key_file
      else get_certificate (manager flags) name

  -- A lighthouse that runs has a configuration; it speaks HTTP/3 only.
  abbrev pub Runs : Flags → Cert → Startup (Configured Cert) → Type 0
  Runs flags own panics = Unit
  Runs flags own exits =
      (str_eq flags.domain [] ≡ true) × (load flags.cert_file flags.key_file ≡ none)
  Runs flags own (runs c) =
      (c.tls_config.next_protos ≡ text "h3" ∷ [])
      × ((name : Bytes) → shown c.tls_config name ≡ certificate flags own name)

  with_cert-Runs :
      (flags : Flags) (own : Cert) (loaded : Option Cert)
      → load flags.cert_file flags.key_file ≡ loaded
      → str_eq flags.domain [] ≡ true
      → str_eq flags.cert_file [] ≡ false
      → Runs flags own
          (with_cert crypto get_certificate load (generated own (text "h3" ∷ [])) loaded)
  unfolding with_cert shown
  with_cert-Runs flags own none e d f = (d, e)
  with_cert-Runs flags own (some cert) e d f = (refl, λ name. rw (d, f) (sym e))

  configured-Runs :
      (flags : Flags) (own : Cert)
      → Runs flags own
          (configured crypto get_certificate load flags (generated own (text "h3" ∷ [])))
  unfolding configured shown
  configured-Runs flags own = elim (Bool-cases (str_eq flags.domain [])) [
    | inl d ↦ elim (Bool-cases (str_eq flags.cert_file [])) [
      | inl f ↦ rw (d, f, Runs) (refl, λ name. rw (d, f) refl)
      | inr f ↦ rw (d, f) (with_cert-Runs flags own (load flags.cert_file flags.key_file) refl d f)
    ]
    | inr d ↦ rw (d, Runs) (refl, λ name. rw d refl)
  ]

  generate_tls_config_lem :
      (now : ℕ) (own : Cert) (alpn : List Bytes)
      → self_signed crypto now ≡ some own
      → generate_tls_config crypto now alpn ≡ some (generated own alpn)
  unfolding generate_tls_config
  generate_tls_config_lem now own alpn e = rw (e, generate_tls_config) refl

  server_tls_config_lem :
      (now : ℕ) (flags : Flags) (own : Cert)
      → self_signed crypto now ≡ some own
      → server_tls_config crypto get_certificate load now flags
        ≡ configured crypto get_certificate load flags (generated own (text "h3" ∷ []))
  unfolding server_tls_config
  server_tls_config_lem now flags own e =
      rw (generate_tls_config_lem now own (text "h3" ∷ []) e, server_tls_config) refl

  server_tls_config-Runs :
      (now : ℕ) (flags : Flags) (own : Cert)
      → self_signed crypto now ≡ some own
      → Runs flags own (server_tls_config crypto get_certificate load now flags)
  server_tls_config-Runs now flags own e =
      subst (Runs flags own) (sym (server_tls_config_lem now flags own e))
        (configured-Runs flags own)

  -- The protocol of a handshake against a certificate, if it is accepted.
  abbrev pub accepted : Option Cert → ClientTls → Bytes → Option Bytes
  accepted none client protocol = none
  accepted (some cert) client protocol =
      if client.insecure || roots.verifies cert client.server_name then some protocol else none

  answered-same :
      (server : ServerTls Cert) (client : ClientTls) (p : Bytes) (offered : Option Cert)
      → agreed server.next_protos client.next_protos ≡ some p
      → answered roots server client offered ≡ accepted offered client p
  unfolding answered
  answered-same server client p none e = refl
  answered-same server client p (some cert) e = rw e refl

  answered-other :
      (server : ServerTls Cert) (client : ClientTls) (offered : Option Cert)
      → agreed server.next_protos client.next_protos ≡ none
      → answered roots server client offered ≡ none
  unfolding answered
  answered-other server client none e = refl
  answered-other server client (some cert) e = ground (arith, e)

  -- A running lighthouse, which has made its own certificate, and a client: the handshake succeeds, with
  -- HTTP/3, when the lighthouse shows a certificate and the client is insecure or its roots verify it
  -- for the host of the URL. In the order of their priority, that is the certificate of the manager
  -- for the domain, the one of the files, and its own; a lighthouse with a domain shows no other
  -- than the manager's.
  pub lighthouse_handshake :
      (now : ℕ) (flags : Flags) (own : Cert) (c : Configured Cert) (hostname : Bytes → Option Bytes)
      (url : Bytes) (insecure : Bool)
      → self_signed crypto now ≡ some own
      → server_tls_config crypto get_certificate load now flags ≡ runs c
      → let client = lighthouse_tls hostname url insecure in
        handshake roots c.tls_config client
        ≡ accepted
            (certificate flags own (roots.sent_name (lighthouse_host hostname url)))
            client
            (text "h3")
  unfolding handshake lighthouse_tls
  lighthouse_handshake now flags own c hostname url insecure e r =
      let client = lighthouse_tls hostname url insecure in
      let name = roots.sent_name (lighthouse_host hostname url) in
      let good : Runs flags own (runs c) =
        subst (Runs flags own) r (server_tls_config-Runs now flags own e) in
      answered-same c.tls_config client (text "h3") (shown c.tls_config name) (rw good.0 refl)
      ∙ ap (λ o. accepted o client (text "h3")) (good.1 name)

  -- What a listener of a client answers.
  abbrev pub Listens : ClientTls → Option (ServerTls Cert) → Type 0
  Listens client none = Unit
  Listens client (some listener) =
      (handshake roots listener dial_tls ≡ some alpn_peer)
      × (handshake roots listener client ≡ none)

  listener_tls-Listens :
      (now : ℕ) (own : Cert) (hostname : Bytes → Option Bytes) (url : Bytes) (insecure : Bool)
      → self_signed crypto now ≡ some own
      → Listens (lighthouse_tls hostname url insecure) (listener_tls crypto now)
  unfolding listener_tls
  listener_tls-Listens now own hostname url insecure e =
      let client = lighthouse_tls hostname url insecure in
      let made = generated own (alpn_peer ∷ []) in
      subst (Listens client) (sym (generate_tls_config_lem now own (alpn_peer ∷ []) e)) (
        unfold handshake shown dial_tls lighthouse_tls in
        (refl, answered-other made client (some own) refl))

  -- Two clients always agree on the chat's protocol, whatever certificate the listener made. The
  -- client's requests never end at another client's listener, and a dial to a peer never
  -- ends at a lighthouse: their protocols differ.
  pub peer_handshakes :
      (now now' : ℕ) (flags : Flags) (own own' : Cert) (c : Configured Cert)
      (listener : ServerTls Cert) (hostname : Bytes → Option Bytes) (url : Bytes) (insecure : Bool)
      → self_signed crypto now ≡ some own
      → server_tls_config crypto get_certificate load now flags ≡ runs c
      → self_signed crypto now' ≡ some own'
      → listener_tls crypto now' ≡ some listener
      → (handshake roots listener dial_tls ≡ some alpn_peer)
        × (handshake roots listener (lighthouse_tls hostname url insecure) ≡ none)
        × (handshake roots c.tls_config dial_tls ≡ none)
  unfolding dial_tls
  peer_handshakes now now' flags own own' c listener hostname url insecure e r e' l =
      let ours =
        subst (Listens (lighthouse_tls hostname url insecure)) l
          (listener_tls-Listens now' own' hostname url insecure e') in
      let good : Runs flags own (runs c) =
        subst (Runs flags own) r (server_tls_config-Runs now flags own e) in
      (
        ours.0,
        ours.1,
        unfold handshake in
            answered-other c.tls_config dial_tls
              (shown c.tls_config (roots.sent_name dial_tls.server_name)) (rw good.0 refl),
      )
