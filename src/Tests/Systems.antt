-- ===== src/Tests/Systems.antt =====
-- The parts together, and what the client starts with.
use quicmeshpoc.Common.{
  Bytes, Bool, true, false, List, [], ◌∷◌, Option, none, some, text, contains, str_eq, member,
  lookup, ◌≡◌, ◌≢◌, if◌then◌else◌, refl, arith,
}
use quicmeshpoc.Common.{has_prefix}
use quicmeshpoc.Protocol.{PeersResponse, Signal, RegisterRequest, ConnectRequest}
use quicmeshpoc.Lighthouse.Routes.{
  calls, page, handled, dispatch, route, route_among, patterns, takes,
}
use quicmeshpoc.System.Requests.{dispatch_lem}
use quicmeshpoc.Query.{path_of}
use quicmeshpoc.Lighthouse.Serve.{opens}
use quicmeshpoc.Query.{self_target, self_param}
use quicmeshpoc.Query.RoundTrip.{self_param_plus}
use quicmeshpoc.Sse.RoundTrip.{Codec}
use quicmeshpoc.Lighthouse.State.{new_lighthouse}
use quicmeshpoc.Lighthouse.Connect.{queued, signal_of}
use quicmeshpoc.Lighthouse.Serve.{History, connects, registers, run}
use quicmeshpoc.Lighthouse.Board.{empty_board, obey_all}
use quicmeshpoc.Lighthouse.Board.Refines.{asks_of, run-Shows_start}
use quicmeshpoc.Mesh.State.{Mesh}
use quicmeshpoc.Mesh.Listen.{Result, err, answer, listen}
use quicmeshpoc.Mesh.Start.{fresh_mesh, local_candidates}
use quicmeshpoc.Mesh.Start.Addresses.{
  HostAddr, v4, v6, no_network, addrs_of, usable, local_candidates_lem,
}
use quicmeshpoc.System.Punch.{has_punch, flushed_after, has_punch-listen}
use quicmeshpoc.Tests.Data.{
  ann, bob, cyd, addr_of, host, host-VisitsAll, entry, busy, register_bob, bob_to_ann,
}

abbrev no_register : Bytes → Option RegisterRequest
no_register s = none

abbrev no_connect : Bytes → Option ConnectRequest
no_connect s = none

dispatch_lem_example :
    dispatch no_register no_connect (text "GET") (self_target (text "/signals/stream") ann) [] []
    ≡ calls (opens ann)
dispatch_lem_example = (dispatch_lem no_register no_connect ann [] [] refl refl).1

-- Any other path is the page of the dashboard.
dispatch_run : dispatch no_register no_connect (text "GET") (text "/register") [] [] ≡ page
unfolding dispatch handled route route_among patterns takes path_of str_eq text
dispatch_run = refl

self_param_plus_example :
    (other : Bytes) × (self_param (self_target (b'/' ∷ b'p' ∷ []) (b'+' ∷ [])) ≡ some other)
    × (other ≢ (b'+' ∷ []))
self_param_plus_example = self_param_plus (b'/' ∷ b'p' ∷ []) (b'+' ∷ []) refl refl refl refl

abbrev fresh_ann : Mesh
fresh_ann = fresh_mesh ann (b'1' ∷ [])

abbrev fresh_bob : Mesh
fresh_bob = fresh_mesh bob (b'2' ∷ [])

abbrev undecoded : Bytes → Result PeersResponse
undecoded s = err s

-- A codec that tells the signals of the test lighthouse apart.
abbrev from_bob : Signal
from_bob = record { from_node_id = bob; from_addr = addr_of bob; from_local_addrs = [] }

abbrev from_cyd : Signal
from_cyd = record { from_node_id = cyd; from_addr = addr_of cyd; from_local_addrs = [] }

abbrev initial : Bool → Bytes
initial true = b'b' ∷ []
initial false = b'c' ∷ []

abbrev encoded : Signal → Bytes
encoded s = initial (str_eq s.from_node_id bob)

abbrev pub from_initial : Bytes → Option Signal
from_initial s = if str_eq s (b'b' ∷ []) then some from_bob else some from_cyd

pub initial_line : (b : Bool) → contains b'\n' (initial b) ≡ false
initial_line true = refl
initial_line false = refl

pub initial_return : (b : Bool) → contains b'\r' (initial b) ≡ false
initial_return true = refl
initial_return false = refl

pub initial_not_empty : (b : Bool) → initial b ≢ []
initial_not_empty true e = cc
initial_not_empty false e = cc

abbrev pub initials : Codec Signal
initials = record {
  marshal = encoded;
  unmarshal = from_initial;
  one_line = λ s. initial_line (str_eq s.from_node_id bob);
  no_return = λ s. initial_return (str_eq s.from_node_id bob);
  not_empty = λ s. initial_not_empty (str_eq s.from_node_id bob);
}

has_punch-listen_example :
    has_punch
      (addr_of bob)
      (listen
        (λ a. true)
        from_initial
        none
        (answer 200 [] (flushed_after initials host host bob_to_ann busy))
        fresh_ann).0
    ≡ true
unfolding lookup str_eq member signal_of
has_punch-listen_example =
    has_punch-listen initials host host bob_to_ann busy (entry bob 60000000000) (λ a. true) none []
      (addr_of bob) fresh_ann refl refl ((refl, omega arith), ((refl, omega arith), tt)) refl refl
      refl (λ e. cc)

abbrev greeting : History
greeting =
    (host, registers (some register_bob) (addr_of bob)) ∷ (host, connects (some bob_to_ann)) ∷ []

run-Shows_start_example :
    (obey_all (asks_of new_lighthouse greeting) empty_board).mail ann
    ≡ queued ann (run new_lighthouse greeting)
run-Shows_start_example = (run-Shows_start greeting ann (host-VisitsAll, (host-VisitsAll, tt))).1

abbrev eight_bytes : Bytes
eight_bytes = 0 ∷ 1 ∷ 2 ∷ 3 ∷ 4 ∷ 5 ∷ 6 ∷ 255 ∷ []

-- A LAN address in four bytes, an IPv6 address, the loopback in sixteen bytes, and an address that is
-- no network.
abbrev some_addrs : List HostAddr
some_addrs =
    v4 (record { long = false; a = 192; b = 168; c = 0; d = 7 })
    ∷ v6 (0x20 ∷ 0x01 ∷ 0 ∷ 0 ∷ 0 ∷ 0 ∷ 0 ∷ 0 ∷ 0 ∷ 0 ∷ 0 ∷ 0 ∷ 0 ∷ 0 ∷ 0 ∷ 1 ∷ [])
    ∷ no_network
    ∷ v4 (record { long = true; a = 127; b = 0; c = 0; d = 1 })
    ∷ []

local_candidates_lem_example :
    local_candidates (some 4433) (some (addrs_of some_addrs)) ≡ usable 4433 some_addrs
unfolding has_prefix
local_candidates_lem_example = local_candidates_lem 4433 some_addrs (tt, (refl, (tt, (tt, tt))))

local_candidates_run :
    local_candidates (some 4433) (some (addrs_of some_addrs)) ≡ text "192.168.0.7:4433" ∷ []
unfolding local_candidates text str_eq
local_candidates_run = refl
