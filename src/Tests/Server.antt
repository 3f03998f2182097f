-- ===== src/Tests/Server.antt =====
-- The lighthouse's requests.
use quicmeshpoc.Common.{
  [], ◌∷◌, ◌++◌, find_last, insert, delete, some, str_eq, lookup, ◌≡◌, refl, text,
}
use quicmeshpoc.Lighthouse.State.{Registration, Lighthouse, new_lighthouse, http_error}
use quicmeshpoc.Lighthouse.Register.{handle_register}
use quicmeshpoc.Lighthouse.Register.Spec.{handle_register_lem}
use quicmeshpoc.Lighthouse.Connect.{handle_connect, queued, signal_of}
use quicmeshpoc.Lighthouse.Connect.Spec.{handle_connect_lem, handle_connect_refused}
use quicmeshpoc.Lighthouse.Events.{add_event}
use quicmeshpoc.Lighthouse.Handoffs.{find_handoff, arm}
use quicmeshpoc.Lighthouse.Signals.{open_signals, wake_signals, note_punching}
use quicmeshpoc.Lighthouse.Serve.{
  handle_signals_stream, connects, opens, wakes, registers, step, run, History,
}
use quicmeshpoc.Lighthouse.Serve.Queue.{delivery, all_sent, all_accepted, sent}
use quicmeshpoc.Lighthouse.Serve.Invariant.{Inv, step-Inv, new_lighthouse-Inv}
use quicmeshpoc.Tests.Data.{ann, bob, cyd, addr_of, host, entry, busy, register_bob, bob_to_ann}

handle_register_lem_example :
    lookup bob
      (handle_register host
        (some (record register_bob { local_addrs = addr_of cyd ∷ [] }))
        (addr_of bob)
        busy).0.nodes
    ≡ some (record {
      addr = addr_of bob;
      local_addrs = addr_of cyd ∷ [];
      incarnation = b'2' ∷ [];
      last_seen = host.now 0;
    })
unfolding str_eq
handle_register_lem_example =
    (handle_register_lem host (record register_bob { local_addrs = addr_of cyd ∷ [] }) (addr_of bob)
      busy bob (λ e. cc)).1

-- Bob has one address in his own network.
abbrev bob_at_home : Registration
bob_at_home = record (entry bob 60000000000) { local_addrs = addr_of cyd ∷ [] }

abbrev at_home : Lighthouse
at_home = record busy { nodes = (bob, bob_at_home) ∷ [] }

handle_connect_lem_example :
    queued ann (handle_connect host (some bob_to_ann) at_home).0
    ≡ queued ann at_home
      ++ record { from_node_id = bob; from_addr = addr_of bob; from_local_addrs = addr_of cyd ∷ [] }
        ∷ []
unfolding lookup str_eq
handle_connect_lem_example =
    (handle_connect_lem host bob_to_ann bob_at_home at_home ann refl refl).0

-- The sender is registered, and there is no responder.
handle_connect_refused_example :
    handle_connect host (some (record bob_to_ann { to = [] })) busy
    ≡ (busy, http_error 400 (text "bad connect request"))
unfolding lookup str_eq
handle_connect_refused_example =
    (handle_connect_refused host (record bob_to_ann { to = [] }) busy refl).1

abbrev one_request : History
one_request = (host, connects (some bob_to_ann)) ∷ (host, wakes ann 7) ∷ (host, opens ann) ∷ []

delivery_example :
    all_sent ann busy one_request ++ queued ann (run busy one_request)
    ≡ queued ann busy ++ all_accepted ann busy one_request
delivery_example = delivery ann busy one_request

-- The stream of the test writes the old request and then the new one, and the queue is empty.
delivery_run :
    all_sent ann busy one_request ≡ signal_of cyd (entry cyd 0) ∷ signal_of bob (entry bob 0) ∷ []
unfolding all_sent sent step handle_connect wake_signals handle_signals_stream open_signals
    add_event note_punching find_handoff arm find_last insert delete lookup str_eq signal_of
delivery_run = refl

step-Inv_example : Inv (step host (registers (some register_bob) (addr_of bob)) new_lighthouse)
step-Inv_example =
    step-Inv host (registers (some register_bob) (addr_of bob)) new_lighthouse new_lighthouse-Inv
