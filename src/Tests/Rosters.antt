-- ===== src/Tests/Rosters.antt =====
-- A lighthouse with one node, and a client that reads its roster.
use quicmeshpoc.Common.{
  Bytes, List, Distinct, member, ◌||◌, keys, true, [], ◌∷◌, ◌||◌, some, insert, str_eq, str_eq_iff,
  str_eq_sym, ◌*◌, str_lt, lookup, ◌≡◌, refl, arith,
}
use quicmeshpoc.Protocol.{PeersResponse}
use quicmeshpoc.Lighthouse.State.{second, Host, VisitsAll, Lighthouse, new_lighthouse, Registration}
use quicmeshpoc.Lighthouse.Register.{registration, handle_register, register, announce}
use quicmeshpoc.Lighthouse.Events.{add_event}
use quicmeshpoc.Lighthouse.Peers.{handle_peers}
use quicmeshpoc.Lighthouse.Peers.Spec.{peers_in}
use quicmeshpoc.Lighthouse.Serve.{History, lists, registers, step, run}
use quicmeshpoc.Lighthouse.Serve.Invariant.{step-Inv, new_lighthouse-Inv}
use quicmeshpoc.Mesh.Links.Table.{has_link, is_dialing}
use quicmeshpoc.Mesh.Listen.{Result, ok, answer, peers_round}
use quicmeshpoc.Mesh.Names.{initiates}
use quicmeshpoc.Mesh.Start.{fresh_mesh}
use quicmeshpoc.System.Roster.{response, linked_after_roster}
use quicmeshpoc.Mesh.State.{Mesh}
use quicmeshpoc.Mesh.Names.{incarnation_changed}
use quicmeshpoc.System.Restart.{redialed_after_restart}
use quicmeshpoc.System.Sidebar.{merge_peers-handle_peers}
use quicmeshpoc.Tui.{Model, broadcast_row, focus_sidebar, merge_peers}
use quicmeshpoc.Tests.Data.{ann, bob, cyd, busy, entry, addr_of, host, host-VisitsAll, register_bob}

abbrev of_bob : Registration
unfolding registration
of_bob = registration (host.now 0) register_bob (addr_of bob)

abbrev with_bob : Lighthouse
with_bob = step host (registers (some register_bob) (addr_of bob)) new_lighthouse

abbrev read_once : History
read_once = (host, lists ann) ∷ []

bob_registered : lookup bob with_bob.nodes ≡ some of_bob
unfolding step handle_register register announce add_event insert lookup str_eq registration
bob_registered = refl

abbrev decode_expected : Bytes → Result PeersResponse
decode_expected s = ok (response host ann (run with_bob read_once))

linked_after_roster_example :
    let m' = (peers_round decode_expected [] (answer 200 [] []) (fresh_mesh ann [])).0 in
    (has_link bob m' || is_dialing bob m') ≡ true
unfolding str_eq registration initiates str_lt handle_peers
linked_after_roster_example =
    linked_after_roster (λ r. []) decode_expected [] [] bob host read_once with_bob of_bob
      (fresh_mesh ann []) host-VisitsAll (host-VisitsAll, tt)
      (step-Inv host (registers (some register_bob) (addr_of bob)) new_lighthouse
        new_lighthouse-Inv)
      bob_registered (omega arith, tt) (omega arith) refl refl

-- Ann's link is to the bob before this one.
abbrev with_old_link : Mesh
with_old_link = record (fresh_mesh ann []) {
  conns = (bob, record { node_id = bob; incarnation = b'1' ∷ []; conn = 3 }) ∷ [];
}

redialed_after_restart_example :
    is_dialing bob (peers_round decode_expected [] (answer 200 [] []) with_old_link).0 ≡ true
unfolding str_eq registration initiates str_lt handle_peers lookup incarnation_changed
redialed_after_restart_example =
    (redialed_after_restart (λ r. []) decode_expected [] [] bob host read_once with_bob of_bob
      with_old_link (record { node_id = bob; incarnation = b'1' ∷ []; conn = 3 }) host-VisitsAll
      (host-VisitsAll, tt)
      (step-Inv host (registers (some register_bob) (addr_of bob)) new_lighthouse
        new_lighthouse-Inv)
      bob_registered (omega arith, tt) (omega arith) refl refl refl refl).1

-- A host whose loops start with the second key.
abbrev second_first : List Bytes → List Bytes
second_first (a ∷ b ∷ ks) = b ∷ a ∷ ks
second_first ks = ks

member-second_first : (ks : List Bytes) (k : Bytes) → member k (second_first ks) ≡ member k ks
unfolding member
member-second_first [] k = refl
member-second_first (a ∷ []) k = refl
member-second_first (a ∷ b ∷ ks) k = ground arith

Distinct-second_first : (ks : List Bytes) → Distinct ks → Distinct (second_first ks)
unfolding member
Distinct-second_first [] d = d
Distinct-second_first (a ∷ []) d = d
Distinct-second_first (a ∷ b ∷ ks) d = ground (arith, d, str_eq_sym a b)

abbrev other_host : Host
other_host = record host { order = λ i ks. second_first ks }

other_host-VisitsAll : VisitsAll other_host
other_host-VisitsAll = record {
  each = λ i ks k. member-second_first ks k;
  once = λ i ks d. Distinct-second_first ks d;
}

-- The entries of `busy`, held in another order.
abbrev shuffled : Lighthouse
shuffled = record busy {
  nodes =
      (cyd, entry cyd (99 * second))
      ∷ (ann, entry ann (90 * second))
      ∷ (bob, entry bob (60 * second))
      ∷ [];
}

same_entries : (k : Bytes) → lookup k busy.nodes ≡ lookup k shuffled.nodes
unfolding lookup
same_entries k = ground (arith, str_eq_iff ann k, str_eq_iff bob k, str_eq_iff cyd k)

abbrev empty_view : Model Bytes
empty_view = record {
  node_id = bob;
  peers = broadcast_row ∷ [];
  states = [];
  chats = [];
  cursor = 0;
  focus = focus_sidebar;
  input = [];
  status = [];
  width = 0;
  height = 0;
}

merge_peers-handle_peers_example :
    merge_peers (peers_in (handle_peers host bob busy).1) empty_view
    ≡ merge_peers (peers_in (handle_peers other_host bob shuffled).1) empty_view
unfolding keys member str_eq
merge_peers-handle_peers_example =
    merge_peers-handle_peers host other_host bob busy shuffled empty_view host-VisitsAll
      other_host-VisitsAll refl (refl, (refl, (refl, tt))) (refl, (refl, (refl, tt))) same_entries
