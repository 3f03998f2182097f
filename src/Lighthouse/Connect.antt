-- ===== src/Lighthouse/Connect.antt =====
-- handleConnect and handleHandoff of cmd/lighthouse/main.go.
pub mod Spec
pub mod Reports
use quicmeshpoc.Common.{
  ℕ, Bytes, Bool, true, false, ◌||◌, List, [], ◌∷◌, ◌++◌, Option, none, some, str_eq, lookup,
  insert, get_or, text, ◌==◌, if◌then◌else◌,
}
use quicmeshpoc.Protocol.{ConnectRequest, Signal}
use quicmeshpoc.Lighthouse.State.{Registration, Lighthouse, Host, Reply, http_error, no_content}
use quicmeshpoc.Lighthouse.Events.{add_event}
use quicmeshpoc.Lighthouse.Handoffs.{arm, complete}

-- l.signals[id], which is nil where there is no entry.
abbrev pub queued : Bytes → Lighthouse → List Signal
queued id l = get_or (lookup id l.signals) []

unfoldable pub signal_of : Bytes → Registration → Signal
signal_of from reg = record {
  from_node_id = from;
  from_addr = reg.addr;
  from_local_addrs = reg.local_addrs;
}

-- The critical section, for a sender that is registered.
unfoldable pub enqueue : ℕ → ConnectRequest → Registration → Lighthouse → Lighthouse
unfolding signal_of
enqueue now req reg l = record l {
  signals = insert req.to (queued req.to l ++ signal_of req.from reg ∷ []) l.signals;
  handoffs = arm now req.from req.to l.handoffs;
}

-- A send on a nudge channel that does not block: it holds one token at most. `none` is a nil sub.
unfoldable pub nudge : Option ℕ → Lighthouse → Lighthouse
nudge none l = l
nudge (some ch) l = record l { woken = λ c. if c == ch then true else l.woken c }

unfoldable pub connect :
    Host → ConnectRequest → Option Registration → Lighthouse → Lighthouse × Reply (Unit {0})
unfolding enqueue nudge text
connect host req none l = (l, http_error 400 (text "unknown 'from' node"))
connect host req (some reg) l = (
  add_event host 1 (text "handoff-requested")
      (req.from ++ text " wants to reach " ++ req.to ++ text " — waiting for handoff")
      (nudge (lookup req.to l.signal_subs) (enqueue (host.now 0) req reg l)),
  no_content,
)

unfoldable pub handle_connect :
    Host → Option ConnectRequest → Lighthouse → Lighthouse × Reply (Unit {0})
unfolding connect
handle_connect host none l = (l, http_error 400 (text "bad connect request"))
handle_connect host (some req) l =
    if str_eq req.from [] || str_eq req.to []
    then (l, http_error 400 (text "bad connect request"))
    else connect host req (lookup req.from l.nodes) l

unfoldable pub handle_handoff :
    Host → Option ConnectRequest → Lighthouse → Lighthouse × Reply (Unit {0})
unfolding complete text
handle_handoff host none l = (l, http_error 400 (text "bad handoff report"))
handle_handoff host (some req) l =
    if str_eq req.from [] || str_eq req.to []
    then (l, http_error 400 (text "bad handoff report"))
    else (
      add_event host 1 (text "handed-off")
          (req.from ++ text " ↔ " ++ req.to ++ text " connected directly — handed off ✔")
          (record l { handoffs = complete (host.now 0) req.from req.to l.handoffs }),
      no_content,
    )
