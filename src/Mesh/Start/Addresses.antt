-- ===== src/Mesh/Start/Addresses.antt =====
-- Which addresses a client advertises.
use quicmeshpoc.Common.{
  ℕ, zero, suc, ◌+◌, ◌/◌, ◌%◌, digits, Bytes, Bool, true, false, not, ◌&&◌, List, [], ◌∷◌, ◌++◌,
  none, some, decimal, contains, contains-append, ltb, ◌==◌, if◌then◌else◌, ◌≡◌, refl, arith, ap,
  ◌∙◌, has_prefix, All, length, drop, Bool-cases, inl, inr,
}
use quicmeshpoc.Mesh.Start.{
  InterfaceAddr, ip_net, other_addr, v4_prefix, to4, is_skipped, dotted, join_host_port, candidate,
  candidates, local_candidates,
}

-- An IPv4 address, held in four or in sixteen bytes.
pub record Quad : Type 0 where
  pub long : Bool
  pub a : ℕ
  pub b : ℕ
  pub c : ℕ
  pub d : ℕ

abbrev pub bytes_of : Quad → Bytes
bytes_of q = q.a ∷ q.b ∷ q.c ∷ q.d ∷ []

abbrev pub addr_of : Quad → InterfaceAddr
addr_of q = ip_net (if q.long then v4_prefix ++ bytes_of q else bytes_of q)

-- 127.0.0.0/8, 169.254.0.0/16 and 224.0.0.0/24 are not advertised.
abbrev pub is_usable : Quad → Bool
is_usable q =
    not (q.a == 127) && not (q.a == 169 && q.b == 254) && not (q.a == 224 && q.b == 0 && q.c == 0)

-- What an interface of the host has: an IPv4 address, an IPv6 address as its bytes, or one that
-- is no IP network.
pub data HostAddr : Type 0 where
  v4 : Quad → HostAddr
  v6 : Bytes → HostAddr
  no_network : HostAddr

-- Sixteen bytes that hold no IPv4 address.
abbrev pub IsHostAddr : HostAddr → Type 0
IsHostAddr (v6 ip) = (length ip == 16 && not (has_prefix ip v4_prefix)) ≡ true
IsHostAddr _ = Unit

abbrev pub addrs_of : List HostAddr → List InterfaceAddr
addrs_of [] = []
addrs_of (no_network ∷ hs) = other_addr ∷ addrs_of hs
addrs_of (v6 ip ∷ hs) = ip_net ip ∷ addrs_of hs
addrs_of (v4 q ∷ hs) = addr_of q ∷ addrs_of hs

abbrev pub usable : ℕ → List HostAddr → List Bytes
usable port [] = []
usable port (v4 q ∷ hs) =
    if is_usable q
    then (dotted (bytes_of q) ++ (b':' ∷ decimal port)) ∷ usable port hs
    else usable port hs
usable port (_ ∷ hs) = usable port hs

-- A byte that is no digit and no dot does not occur in an address.
contains-digits :
    (k f n : ℕ) (rest : Bytes)
    → ltb b'9' k ≡ true
    → contains k rest ≡ false
    → contains k (digits f n rest) ≡ false
unfolding digits
contains-digits k zero n rest h e = e
contains-digits k (suc f) n rest h e =
    ground (arith, contains-digits k f (n / 10) ((b'0' + n % 10) ∷ rest) h)

contains-decimal : (k n : ℕ) → ltb b'9' k ≡ true → contains k (decimal n) ≡ false
unfolding decimal
contains-decimal k n h = contains-digits k (n + 1) n [] h refl

contains-dotted :
    (k a b c d : ℕ) → ltb b'9' k ≡ true → contains k (dotted (a ∷ b ∷ c ∷ d ∷ [])) ≡ false
unfolding dotted
contains-dotted k a b c d h = ground (
  arith,
  h,
  contains-decimal k a h,
  contains-decimal k b h,
  contains-decimal k c h,
  contains-decimal k d h,
  contains-append k (decimal a) (b'.' ∷ dotted (b ∷ c ∷ d ∷ [])),
  contains-append k (decimal b) (b'.' ∷ dotted (c ∷ d ∷ [])),
  contains-append k (decimal c) (b'.' ∷ dotted (d ∷ [])),
)

join_host_port-dotted :
    (q : Quad) (port : Bytes)
    → join_host_port (dotted (bytes_of q)) port ≡ dotted (bytes_of q) ++ (b':' ∷ port)
unfolding join_host_port
join_host_port-dotted q port = rw (contains-dotted b':' q.a q.b q.c q.d refl) refl

candidate-bytes_of :
    (long : Bool) (a b c d : ℕ) (port : Bytes) (rest : List Bytes)
    → let q : Quad = record { long = long; a = a; b = b; c = c; d = d } in
      candidate port (addr_of q) rest
      ≡ (if is_usable q then (dotted (bytes_of q) ++ (b':' ∷ port)) ∷ rest else rest)
unfolding candidate is_skipped to4 has_prefix
candidate-bytes_of true a b c d port rest =
    ground (arith, join_host_port-dotted (record { long = true; a = a; b = b; c = c; d = d }) port)
candidate-bytes_of false a b c d port rest =
    ground (arith, join_host_port-dotted (record { long = false; a = a; b = b; c = c; d = d }) port)

candidate-addr_of :
    (q : Quad) (port : Bytes) (rest : List Bytes)
    → candidate port (addr_of q) rest
      ≡ (if is_usable q then (dotted (bytes_of q) ++ (b':' ∷ port)) ∷ rest else rest)
candidate-addr_of q port rest = candidate-bytes_of q.long q.a q.b q.c q.d port rest

not_four :
    (n : ℕ) (p : Bool) (a b : Bytes)
    → (n == 16 && not p) ≡ true
    → (if n == 4 then some a else if n == 16 && p then some b else none) ≡ none
not_four n p a b h = ground (arith, h)

to4-v6 : (ip : Bytes) → IsHostAddr (v6 ip) → to4 ip ≡ none
unfolding to4
to4-v6 ip h = not_four (length ip) (has_prefix ip v4_prefix) ip (drop 12 ip) h

candidate-v6 :
    (ip port : Bytes) (rest : List Bytes)
    → IsHostAddr (v6 ip)
    → candidate port (ip_net ip) rest ≡ rest
unfolding candidate
candidate-v6 ip port rest h = elim (Bool-cases (is_skipped ip)) [
  | inl e ↦ rw e refl
  | inr e ↦ rw (e, to4-v6 ip h) refl
]

candidates-addrs_of :
    (port : ℕ) (hs : List HostAddr)
    → All IsHostAddr hs
    → candidates (decimal port) (addrs_of hs) ≡ usable port hs
unfolding candidates candidate
candidates-addrs_of port [] h = refl
candidates-addrs_of port (no_network ∷ hs) h = candidates-addrs_of port hs h.1
candidates-addrs_of port (v6 ip ∷ hs) h =
    candidate-v6 ip (decimal port) (candidates (decimal port) (addrs_of hs)) h.0
    ∙ candidates-addrs_of port hs h.1
candidates-addrs_of port (v4 q ∷ hs) h =
    candidate-addr_of q (decimal port) (candidates (decimal port) (addrs_of hs))
    ∙ ap
        (λ rest.
          if is_usable q then (dotted (bytes_of q) ++ (b':' ∷ decimal port)) ∷ rest else rest)
        (candidates-addrs_of port hs h.1)

-- A client advertises, in the order of the interfaces, one candidate for each IPv4 address of the
-- host, held in four bytes or in sixteen, that is not in 127.0.0.0/8, 169.254.0.0/16 or
-- 224.0.0.0/24: its four numbers in decimal between dots, a colon and the port of the one socket,
-- without brackets. IPv6 addresses, which are sixteen bytes that hold no IPv4 address, and
-- addresses that are no IP networks give none.
pub local_candidates_lem :
    (port : ℕ) (hs : List HostAddr)
    → All IsHostAddr hs
    → local_candidates (some port) (some (addrs_of hs)) ≡ usable port hs
unfolding local_candidates
local_candidates_lem port hs h = candidates-addrs_of port hs h
