-- ===== src/Lighthouse/Board/Refines.antt =====
-- The server against the board.
use quicmeshpoc.Common.{
  ℕ, Bytes, ◌||◌, List, [], ◌∷◌, Option, none, some, str_eq, lookup, lookup-insert, if◌then◌else◌,
  ◌≡◌, refl, ap, ◌∙◌, sym, arith, Bool-cases, subst, inl, inr,
}
use quicmeshpoc.Protocol.{RegisterRequest, ConnectRequest}
use quicmeshpoc.Lighthouse.State.{Lighthouse, Host, Registration, VisitsAll, new_lighthouse}
use quicmeshpoc.Lighthouse.Events.{open_stream, push_snapshot, unsubscribe, add_event}
use quicmeshpoc.Lighthouse.Register.{handle_register, registration, register}
use quicmeshpoc.Lighthouse.Register.Spec.{core-register}
use quicmeshpoc.Lighthouse.Peers.{handle_peers}
use quicmeshpoc.Lighthouse.Peers.Answer.{fresh}
use quicmeshpoc.Lighthouse.Peers.Spec.{handle_peers_lem}
use quicmeshpoc.Lighthouse.Connect.{queued, connect, handle_connect, handle_handoff, enqueue}
use quicmeshpoc.Lighthouse.Connect.Spec.{queued-connect, core-connect, core-nudge, named}
use quicmeshpoc.Lighthouse.Signals.{
  flush_signals, open_signals, wake_signals, subscribe_signals, unsubscribe_signals, drain_signals,
}
use quicmeshpoc.Lighthouse.Signals.Spec.{core-flush_signals, flush_signals_lem}
use quicmeshpoc.Lighthouse.Serve.{
  Call, registers, lists, connects, reports, opens, wakes, closes, watches, shows, leaves,
  handle_signals_stream, step, History, run,
}
use quicmeshpoc.Lighthouse.Serve.Queue.{queued-peers, queued-handoff, queued-unsubscribe}
use quicmeshpoc.Lighthouse.Serve.Invariant.{Inv, step-Inv, new_lighthouse-Inv}
use quicmeshpoc.Lighthouse.Board.{
  Board, empty_board, Ask, joins, reads, posts, collects, nothing, obey, obey_all, posted,
}

-- What a call asks of the board. A round of a stream collects only if the stream has its token.
unfoldable pub ask_of : Host → Call → Lighthouse → Ask
ask_of host (registers none addr) l = nothing
ask_of host (registers (some req) addr) l =
    if str_eq req.node_id []
    then nothing
    else joins req.node_id (registration (host.now 0) req addr)
ask_of host (lists self) l = reads (host.now 0)
ask_of host (connects none) l = nothing
ask_of host (connects (some req)) l = if named req then posts req.from req.to else nothing
ask_of host (opens self) l = if str_eq self [] then nothing else collects self
ask_of host (wakes self ch) l = if l.woken ch then collects self else nothing
ask_of host _ l = nothing

unfoldable pub asks_of : Lighthouse → History → List Ask
asks_of l [] = []
asks_of l ((host, c) ∷ h) = ask_of host c l ∷ asks_of (step host c l) h

-- The board shows the server's state.
abbrev pub Shows : Board → Lighthouse → Type 0
Shows b l = (k : Bytes) → (b.registered k ≡ lookup k l.nodes) × (b.mail k ≡ queued k l)

-- A call that changes neither the nodes nor the queues.
still :
    (b : Board) (l l' : Lighthouse)
    → ((k : Bytes) → (lookup k l'.nodes ≡ lookup k l.nodes) × (queued k l' ≡ queued k l))
    → Shows b l
    → Shows b l'
still b l l' same h k = ((h k).0 ∙ sym (same k).0, (h k).1 ∙ sym (same k).1)

register-Shows :
    (host : Host) (req : RegisterRequest) (addr : Bytes) (b : Board) (l : Lighthouse)
    → Shows b l
    → Shows
        (obey (joins req.node_id (registration (host.now 0) req addr)) b)
        (register host req addr l)
unfolding obey
register-Shows host req addr b l h k =
    let kept = core-register host req addr l in
    (
      ground (
        arith,
        (h k).0,
        ap (λ (m : Lighthouse). lookup k m.nodes) kept,
        lookup-insert req.node_id k (registration (host.now 0) req addr) l.nodes,
      ),
      (h k).1 ∙ sym (ap (queued k) kept),
    )

posted-Shows :
    (host : Host) (req : ConnectRequest) (o : Option Registration) (b : Board) (l : Lighthouse)
    → Shows b l
    → Shows (posted req.from req.to o b) (connect host req o l).0
posted-Shows host req none b l h k = unfold connect in h k
posted-Shows host req (some reg) b l h k =
    let l' = enqueue (host.now 0) req reg l in
    (
      (h k).0
          ∙ sym (
              ap (λ (m : Lighthouse). lookup k m.nodes) (core-connect host req reg l)
              ∙ ap (λ (m : Lighthouse). lookup k m.nodes)
                  (core-nudge (lookup req.to l.signal_subs) l')
              ∙ (unfold enqueue in refl)),
      ground (arith, (h k).1, queued-connect host req reg l k),
    )

flush-Shows :
    (host : Host) (self : Bytes) (b : Board) (l : Lighthouse)
    → Shows b l
    → Shows (obey (collects self) b) (flush_signals host self l).0
unfolding obey
flush-Shows host self b l h k = (
  (h k).0
      ∙ sym (
          ap (λ (m : Lighthouse). lookup k m.nodes) (core-flush_signals host self l)
          ∙ (unfold drain_signals in refl)),
  ground (arith, (h k).1, (flush_signals_lem host self k [] l).1),
)

handle_register-Shows :
    (host : Host) (body : Option RegisterRequest) (addr : Bytes) (b : Board) (l : Lighthouse)
    → Shows b l
    → Shows (obey (ask_of host (registers body addr) l) b) (handle_register host body addr l).0
unfolding handle_register ask_of
handle_register-Shows host none addr b l h = unfold obey in h
handle_register-Shows host (some req) addr b l h = elim (Bool-cases (str_eq req.node_id [])) [
  | inl e ↦ rw e (unfold obey in h)
  | inr e ↦ rw e (register-Shows host req addr b l h)
]

asked_for :
    (host : Host) (req : ConnectRequest) (b : Board) (l : Lighthouse)
    → Shows b l
    → Shows (obey (posts req.from req.to) b) (connect host req (lookup req.from l.nodes) l).0
unfolding obey
asked_for host req b l h =
    subst
      (λ (o : Option Registration).
        Shows (posted req.from req.to o b) (connect host req (lookup req.from l.nodes) l).0)
      (sym (h req.from).0) (posted-Shows host req (lookup req.from l.nodes) b l h)

handle_connect-Shows :
    (host : Host) (body : Option ConnectRequest) (b : Board) (l : Lighthouse)
    → Shows b l
    → Shows (obey (ask_of host (connects body) l) b) (handle_connect host body l).0
unfolding handle_connect ask_of
handle_connect-Shows host none b l h = unfold obey in h
handle_connect-Shows host (some req) b l h =
    elim (Bool-cases (str_eq req.from [] || str_eq req.to [])) [
      | inl e ↦ rw e (unfold obey in h)
      | inr e ↦ rw e (asked_for host req b l h)
    ]

peers-Shows :
    (host : Host) (self : Bytes) (b : Board) (l : Lighthouse)
    → VisitsAll host
    → Inv l
    → Shows b l
    → Shows (obey (reads (host.now 0)) b) (handle_peers host self l).0
unfolding obey
peers-Shows host self b l visits v h k = (
  ap (fresh (host.now 0)) (h k).0
      ∙ sym (handle_peers_lem host self l k visits v.tables.nodes_once).2,
  (h k).1 ∙ sym (queued-peers k host self l),
)

nodes-handle_handoff :
    (host : Host) (body : Option ConnectRequest) (l : Lighthouse)
    → (handle_handoff host body l).0.nodes ≡ l.nodes
unfolding handle_handoff add_event
nodes-handle_handoff host none l = refl
nodes-handle_handoff host (some req) l = ground arith

opens-Shows :
    (host : Host) (self : Bytes) (b : Board) (l : Lighthouse)
    → Shows b l
    → Shows (obey (ask_of host (opens self) l) b) (handle_signals_stream host self l).0
unfolding ask_of handle_signals_stream open_signals subscribe_signals
opens-Shows host self b l h = elim (Bool-cases (str_eq self [])) [
  | inl e ↦ rw e (unfold obey in h)
  | inr e ↦ rw e (flush-Shows host self b _ h)
]

wakes-Shows :
    (host : Host) (self : Bytes) (ch : ℕ) (b : Board) (l : Lighthouse)
    → Shows b l
    → Shows (obey (ask_of host (wakes self ch) l) b) (wake_signals host self ch l).0
unfolding ask_of wake_signals
wakes-Shows host self ch b l h = elim (Bool-cases (l.woken ch)) [
  | inl e ↦ rw e (flush-Shows host self b _ h)
  | inr e ↦ rw e (unfold obey in h)
]

pub step-Shows :
    (host : Host) (c : Call) (b : Board) (l : Lighthouse)
    → VisitsAll host
    → Inv l
    → Shows b l
    → Shows (obey (ask_of host c l) b) (step host c l)
unfolding step
step-Shows host (registers body addr) b l visits v h = handle_register-Shows host body addr b l h
step-Shows host (lists self) b l visits v h = unfold ask_of in peers-Shows host self b l visits v h
step-Shows host (connects body) b l visits v h = handle_connect-Shows host body b l h
step-Shows host (reports body) b l visits v h =
    unfold ask_of obey in
    still b l (handle_handoff host body l).0
      (λ k. (ap (lookup k) (nodes-handle_handoff host body l), queued-handoff k host body l)) h
step-Shows host (opens self) b l visits v h = opens-Shows host self b l h
step-Shows host (wakes self ch) b l visits v h = wakes-Shows host self ch b l h
step-Shows host (closes self ch) b l visits v h =
    unfold ask_of obey in
    still b l (unsubscribe_signals self ch l)
      (λ k. (unfold unsubscribe_signals in ground arith, queued-unsubscribe k self ch l)) h
step-Shows host watches b l visits v h = unfold ask_of obey open_stream in h
step-Shows host (shows ch) b l visits v h = unfold ask_of obey push_snapshot in h
step-Shows host (leaves ch) b l visits v h = unfold ask_of obey unsubscribe in h

abbrev pub AllVisit : History → Type 0
AllVisit [] = Unit
AllVisit ((host, c) ∷ h) = VisitsAll host × AllVisit h

run-Shows :
    (h : History) (b : Board) (l : Lighthouse)
    → AllVisit h
    → Inv l
    → Shows b l
    → Shows (obey_all (asks_of l h) b) (run l h)
unfolding run asks_of obey_all
run-Shows [] b l a v s = s
run-Shows ((host, c) ∷ h) b l a v s =
    run-Shows h (obey (ask_of host c l) b) (step host c l) a.1 (step-Inv host c l v)
      (step-Shows host c b l a.0 v s)

-- The server refines the board: after any history of calls since its start, whatever streams come
-- and go, who is registered and what waits for whom are what the board gives that obeys, in
-- turn, what each call asks of it. A loop over a map visits each key once, as Go promises.
pub run-Shows_start :
    (h : History) (k : Bytes)
    → AllVisit h
    → let b = obey_all (asks_of new_lighthouse h) empty_board in
      (b.registered k ≡ lookup k (run new_lighthouse h).nodes)
      × (b.mail k ≡ queued k (run new_lighthouse h))
run-Shows_start h k a =
    run-Shows h empty_board new_lighthouse a new_lighthouse-Inv
      (λ j. (unfold lookup in refl, unfold lookup in refl)) k
