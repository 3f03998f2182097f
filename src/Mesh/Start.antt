-- ===== src/Mesh/Start.antt =====
-- NewMesh, newIncarnation and localCandidates of cmd/quicchat/mesh.go. Sockets, random bytes and the
-- interfaces of the host enter as arguments.
pub mod Names
pub mod Addresses
use quicmeshpoc.Common.{
  ℕ, zero, suc, ◌+◌, ◌-◌, ◌/◌, ◌%◌, Bytes, Bool, true, false, ◌&&◌, ◌||◌, List, [], ◌∷◌, ◌++◌,
  Option, none, some, text, decimal, contains, ltb, length, drop, get_elem?, get_or, has_prefix,
  str_eq, ◌==◌, if◌then◌else◌,
}
use quicmeshpoc.Protocol.{alpn_peer}
use quicmeshpoc.Tls.{Crypto, ServerTls, ClientTls, generate_tls_config, client_tls_config}
use quicmeshpoc.Mesh.State.{Mesh}

unfoldable pub hex_digit : ℕ → ℕ
hex_digit n = if ltb n 10 then b'0' + n else b'a' + n - 10

-- hex.EncodeToString
unfoldable pub hex_encode : Bytes → Bytes
unfolding hex_digit
hex_encode [] = []
hex_encode (c ∷ s) = hex_digit (c / 16) ∷ hex_digit (c % 16) ∷ hex_encode s

-- The digits of `n` to the base 16, in front of `rest`; the fuel bounds their number.
unfoldable pub hex_digits : ℕ → ℕ → Bytes → Bytes
unfolding hex_digit
hex_digits zero n rest = rest
hex_digits (suc f) n rest =
    let more = hex_digits f (n / 16) (hex_digit (n % 16) ∷ rest) in
    if ltb n 16 then hex_digit n ∷ rest else more

-- newIncarnation: eight random bytes, or without them the clock, which is past 1970.
unfoldable pub new_incarnation : Option Bytes → ℕ → Bytes
unfolding hex_encode hex_digits
new_incarnation none now = hex_digits (now + 1) now []
new_incarnation (some bytes) now = hex_encode bytes

-- NewMesh: the state, if the socket and the listener open, or the error.
pub data Started : Type 0 where
  failed_to_start : Bytes → Started
  started : Mesh → Started

abbrev pub fresh_mesh : Bytes → Bytes → Mesh
fresh_mesh node_id incarnation = record {
  node_id = node_id;
  incarnation = incarnation;
  conns = [];
  dialing = [];
}

unfoldable pub listening : Option Bytes → Mesh → Started
unfolding text
listening (some e) m = failed_to_start (text "listen quic: " ++ e)
listening none m = started m

-- The errors of ListenUDP and of Listen, if there are any.
unfoldable pub new_mesh : Bytes → Option Bytes → ℕ → Option Bytes → Option Bytes → Started
unfolding new_incarnation listening text
new_mesh node_id random now (some e) listen_err = failed_to_start (text "listen udp: " ++ e)
new_mesh node_id random now none listen_err =
    listening listen_err (fresh_mesh node_id (new_incarnation random now))

-- The name that the lighthouse's certificate is checked against: the host of its URL, if url.Parse
-- accepts it.
abbrev pub lighthouse_host : (Bytes → Option Bytes) → Bytes → Bytes
lighthouse_host hostname url = get_or (hostname url) url

-- The TLS configurations of the client: toward the lighthouse, of its listener, and of dialFirst.
unfoldable pub lighthouse_tls : (Bytes → Option Bytes) → Bytes → Bool → ClientTls
unfolding client_tls_config text
lighthouse_tls hostname url insecure =
    client_tls_config (lighthouse_host hostname url) insecure (text "h3" ∷ [])

unfoldable pub listener_tls : {Key Cert : Type 0} → Crypto Key Cert → ℕ → Option (ServerTls Cert)
unfolding generate_tls_config alpn_peer
listener_tls crypto now = generate_tls_config crypto now (alpn_peer ∷ [])

unfoldable pub dial_tls : ClientTls
unfolding client_tls_config alpn_peer text
dial_tls = client_tls_config (text "quickmesh-peer") true (alpn_peer ∷ [])

-- An address of an interface: a net.IP, which holds four or sixteen bytes, or another net.Addr.
pub data InterfaceAddr : Type 0 where
  ip_net : Bytes → InterfaceAddr
  other_addr : InterfaceAddr

abbrev pub v4_prefix : Bytes
v4_prefix = 0 ∷ 0 ∷ 0 ∷ 0 ∷ 0 ∷ 0 ∷ 0 ∷ 0 ∷ 0 ∷ 0 ∷ 0xff ∷ 0xff ∷ []

-- ip.To4: the four bytes of an IPv4 address, also behind the prefix ::ffff:0:0/96.
unfoldable pub to4 : Bytes → Option Bytes
unfolding has_prefix
to4 ip =
    if length ip == 4
    then some ip
    else if length ip == 16 && has_prefix ip v4_prefix
    then some (drop 12 ip)
    else none

abbrev pub byte_at : ℕ → Bytes → ℕ
byte_at i ip = get_or (get_elem? ip i) 0

abbrev pub loopback_v6 : Bytes
loopback_v6 = 0 ∷ 0 ∷ 0 ∷ 0 ∷ 0 ∷ 0 ∷ 0 ∷ 0 ∷ 0 ∷ 0 ∷ 0 ∷ 0 ∷ 0 ∷ 0 ∷ 0 ∷ 1 ∷ []

-- IsLoopback, IsLinkLocalUnicast or IsLinkLocalMulticast.
unfoldable pub is_skipped : Bytes → Bool
unfolding to4
is_skipped ip = elim (to4 ip) [
  | some v4 ↦
      byte_at 0 v4 == 127
      || (byte_at 0 v4 == 169 && byte_at 1 v4 == 254)
      || (byte_at 0 v4 == 224 && byte_at 1 v4 == 0 && byte_at 2 v4 == 0)
  | none ↦
      str_eq ip loopback_v6
      || (length ip == 16
          && ((byte_at 0 ip == 0xfe && byte_at 1 ip / 64 == 2)
              || (byte_at 0 ip == 0xff && byte_at 1 ip % 16 == 2)))
]

-- The text of an IPv4 address.
unfoldable pub dotted : Bytes → Bytes
unfolding decimal
dotted [] = []
dotted (a ∷ []) = decimal a
dotted (a ∷ b ∷ s) = decimal a ++ (b'.' ∷ dotted (b ∷ s))

unfoldable pub join_host_port : Bytes → Bytes → Bytes
join_host_port host port =
    if contains b':' host then b'[' ∷ (host ++ (b']' ∷ b':' ∷ port)) else host ++ (b':' ∷ port)

-- The body of the loop, in front of the candidates of the other addresses.
unfoldable pub candidate : Bytes → InterfaceAddr → List Bytes → List Bytes
unfolding is_skipped to4 dotted join_host_port
candidate port other_addr rest = rest
candidate port (ip_net ip) rest =
    if is_skipped ip
    then rest
    else elim (to4 ip) [ none ↦ rest | some v4 ↦ join_host_port (dotted v4) port ∷ rest ]

unfoldable pub candidates : Bytes → List InterfaceAddr → List Bytes
unfolding candidate
candidates port [] = []
candidates port (a ∷ addrs) = candidate port a (candidates port addrs)

-- `none` is a socket whose address is not a UDP address, and a failure to list the interfaces.
unfoldable pub local_candidates : Option ℕ → Option (List InterfaceAddr) → List Bytes
unfolding candidates decimal
local_candidates none addrs = []
local_candidates (some port) none = []
local_candidates (some port) (some addrs) = candidates (decimal port) addrs
