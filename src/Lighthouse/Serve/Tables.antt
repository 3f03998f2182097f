-- ===== src/Lighthouse/Serve/Tables.antt =====
-- The maps and the tables of the server after a call.
use quicmeshpoc.Common.{
  ℕ, Bytes, ◌||◌, List, [], ◌∷◌, Option, none, some, str_eq, lookup, insert, keys, Distinct, ◌≡◌,
  ◌≤◌, sym, subst, arith, inl, inr, Bool-cases, length, lookup-insert, lookup-delete,
  Distinct-insert, Distinct-delete,
}
use quicmeshpoc.Protocol.{RegisterRequest, ConnectRequest}
use quicmeshpoc.Lighthouse.State.{Lighthouse, Host, Registration, max_handoffs}
use quicmeshpoc.Lighthouse.Events.{open_stream, push_snapshot, unsubscribe, add_event}
use quicmeshpoc.Lighthouse.Frame.{core, core-note_offline}
use quicmeshpoc.Lighthouse.Handoffs.Unique.{OneRow, OneRow-arm, OneRow-complete}
use quicmeshpoc.Lighthouse.Handoffs.Life.{length-arm, length-complete}
use quicmeshpoc.Lighthouse.Register.{handle_register, registration}
use quicmeshpoc.Lighthouse.Register.Spec.{core-register}
use quicmeshpoc.Lighthouse.Peers.{handle_peers, scan_peers, Scan, visit_entry, scan_nodes}
use quicmeshpoc.Lighthouse.Connect.{queued, connect, handle_connect, handle_handoff, enqueue, nudge}
use quicmeshpoc.Lighthouse.Connect.Spec.{core-connect}
use quicmeshpoc.Lighthouse.Signals.{
  flush_signals, open_signals, wake_signals, subscribe_signals, unsubscribe_signals, drain_signals,
}
use quicmeshpoc.Lighthouse.Signals.Spec.{core-flush_signals, OneRow-pick_up_all, length-pick_up_all}
use quicmeshpoc.Lighthouse.Serve.{
  Call, registers, lists, connects, reports, opens, wakes, closes, watches, shows, leaves,
  handle_signals_stream, step,
}

-- The tables: no key twice, no node without a name, a bounded table of handoffs with one row for
-- each pair.
pub record TablesInv (l : Lighthouse) : Type 0 where
  pub nodes_once : Distinct (keys l.nodes)
  pub signals_once : Distinct (keys l.signals)
  pub streams_once : Distinct (keys l.signal_subs)
  pub nodes_named : lookup [] l.nodes ≡ none
  pub few_handoffs : length l.handoffs ≤ max_handoffs
  pub one_row : OneRow l.handoffs

scan_nodes-keeps :
    (now : ℕ) (self : Bytes) (ids : List Bytes) (s : Scan)
    → Distinct (keys s.nodes)
    → lookup [] s.nodes ≡ none
    → Distinct (keys (scan_nodes now self ids s).nodes)
      × (lookup [] (scan_nodes now self ids s).nodes ≡ none)
unfolding scan_nodes
scan_nodes-keeps now self [] s d e = (d, e)
scan_nodes-keeps now self (id ∷ ids) s d e =
    let kept = visited (lookup id s.nodes) in scan_nodes-keeps now self ids _ kept.0 kept.1
  where
    visited :
        (o : Option Registration)
        → Distinct (keys (visit_entry now self id o s).nodes)
          × (lookup [] (visit_entry now self id o s).nodes ≡ none)
    visited none = unfold visit_entry in (d, e)
    visited (some reg) =
        unfold visit_entry in
        ground (arith, Distinct-delete id s.nodes d, lookup-delete id [] s.nodes)

-- The tables do not depend on the log and the browsers.
along-core : {l : Lighthouse} (m : Lighthouse) → core l ≡ core m → TablesInv m → TablesInv l
along-core {l} m e v = ground (arith, subst TablesInv (sym e) (again m v))
  where
    again : (n : Lighthouse) → TablesInv n → TablesInv (core n)
    again n w = ground arith

handle_register-TablesInv :
    (host : Host) (body : Option RegisterRequest) (addr : Bytes) (l : Lighthouse)
    → TablesInv l
    → TablesInv (handle_register host body addr l).0
unfolding handle_register
handle_register-TablesInv host none addr l v = v
handle_register-TablesInv host (some req) addr l v = elim (Bool-cases (str_eq req.node_id [])) [
  | inl e ↦ rw e v
  | inr e ↦
      let reg = registration (host.now 0) req addr in
      rw e (
        along-core (record l { nodes = insert req.node_id reg l.nodes })
          (core-register host req addr l)
          (record {
            nodes_once = Distinct-insert req.node_id reg l.nodes v.nodes_once;
            signals_once = v.signals_once;
            streams_once = v.streams_once;
            nodes_named = rw (lookup-insert req.node_id [] reg l.nodes, e) v.nodes_named;
            few_handoffs = v.few_handoffs;
            one_row = v.one_row;
          }))
]

handle_peers-TablesInv :
    (host : Host) (self : Bytes) (l : Lighthouse)
    → TablesInv l
    → TablesInv (handle_peers host self l).0
unfolding handle_peers scan_peers
handle_peers-TablesInv host self l v =
    let s = scan_peers host self l in
    let kept =
      scan_nodes-keeps (host.now 0) self (host.order 0 (keys l.nodes))
        (record { nodes = l.nodes; expired = []; peers = [] }) v.nodes_once v.nodes_named in
    let l' : Lighthouse = record l { nodes = s.nodes } in
    along-core l' (core-note_offline host 1 s.expired l') (record {
      nodes_once = kept.0;
      signals_once = v.signals_once;
      streams_once = v.streams_once;
      nodes_named = kept.1;
      few_handoffs = v.few_handoffs;
      one_row = v.one_row;
    })

nudged : (o : Option ℕ) (l : Lighthouse) → TablesInv l → TablesInv (nudge o l)
unfolding nudge
nudged none l v = v
nudged (some ch) l v = ground arith

connect-TablesInv :
    (host : Host) (req : ConnectRequest) (o : Option Registration) (l : Lighthouse)
    → TablesInv l
    → TablesInv (connect host req o l).0
connect-TablesInv host req none l v = unfold connect in v
connect-TablesInv host req (some reg) l v =
    let l' = enqueue (host.now 0) req reg l in
    let sub = lookup req.to l.signal_subs in
    let w : TablesInv l' =
      unfold enqueue in
      record {
        nodes_once = v.nodes_once;
        signals_once = Distinct-insert req.to _ l.signals v.signals_once;
        streams_once = v.streams_once;
        nodes_named = v.nodes_named;
        few_handoffs = length-arm (host.now 0) req.from req.to l.handoffs v.few_handoffs;
        one_row = OneRow-arm (host.now 0) req.from req.to l.handoffs v.one_row;
      } in
    along-core (nudge sub l') (core-connect host req reg l) (nudged sub l' w)

handle_connect-TablesInv :
    (host : Host) (body : Option ConnectRequest) (l : Lighthouse)
    → TablesInv l
    → TablesInv (handle_connect host body l).0
unfolding handle_connect
handle_connect-TablesInv host none l v = v
handle_connect-TablesInv host (some req) l v =
    elim (Bool-cases (str_eq req.from [] || str_eq req.to [])) [
      | inl e ↦ rw e v
      | inr e ↦ rw e (connect-TablesInv host req (lookup req.from l.nodes) l v)
    ]

handle_handoff-TablesInv :
    (host : Host) (body : Option ConnectRequest) (l : Lighthouse)
    → TablesInv l
    → TablesInv (handle_handoff host body l).0
unfolding handle_handoff add_event
handle_handoff-TablesInv host none l v = v
handle_handoff-TablesInv host (some req) l v = ground (
  arith,
  length-complete (host.now 0) req.from req.to l.handoffs,
  OneRow-complete (host.now 0) req.from req.to l.handoffs v.one_row,
)

flush_signals-TablesInv :
    (host : Host) (self : Bytes) (l : Lighthouse)
    → TablesInv l
    → TablesInv (flush_signals host self l).0
flush_signals-TablesInv host self l v =
    along-core (drain_signals self l).state (core-flush_signals host self l) (
      unfold drain_signals in
      record {
        nodes_once = v.nodes_once;
        signals_once = Distinct-delete self l.signals v.signals_once;
        streams_once = v.streams_once;
        nodes_named = v.nodes_named;
        few_handoffs = rw (length-pick_up_all self (queued self l) l.handoffs) v.few_handoffs;
        one_row = OneRow-pick_up_all self (queued self l) l.handoffs v.one_row;
      })

open-TablesInv :
    (host : Host) (self : Bytes) (l : Lighthouse)
    → TablesInv l
    → TablesInv (handle_signals_stream host self l).0
unfolding handle_signals_stream open_signals subscribe_signals
open-TablesInv host self l v = elim (Bool-cases (str_eq self [])) [
  | inl e ↦ rw e v
  | inr e ↦ rw e (
      flush_signals-TablesInv host self _ (record {
        nodes_once = v.nodes_once;
        signals_once = v.signals_once;
        streams_once = Distinct-insert self l.next_channel l.signal_subs v.streams_once;
        nodes_named = v.nodes_named;
        few_handoffs = v.few_handoffs;
        one_row = v.one_row;
      }))
]

wake-TablesInv :
    (host : Host) (self : Bytes) (ch : ℕ) (l : Lighthouse)
    → TablesInv l
    → TablesInv (wake_signals host self ch l).0
unfolding wake_signals
wake-TablesInv host self ch l v = elim (Bool-cases (l.woken ch)) [
  | inl e ↦ rw e (flush_signals-TablesInv host self _ (ground arith))
  | inr e ↦ rw e v
]

pub step-TablesInv :
    (host : Host) (c : Call) (l : Lighthouse) → TablesInv l → TablesInv (step host c l)
unfolding step
step-TablesInv host (registers body addr) l v = handle_register-TablesInv host body addr l v
step-TablesInv host (lists self) l v = handle_peers-TablesInv host self l v
step-TablesInv host (connects body) l v = handle_connect-TablesInv host body l v
step-TablesInv host (reports body) l v = handle_handoff-TablesInv host body l v
step-TablesInv host (opens self) l v = open-TablesInv host self l v
step-TablesInv host (wakes self ch) l v = wake-TablesInv host self ch l v
step-TablesInv host (closes self ch) l v =
    unfold unsubscribe_signals in ground (arith, Distinct-delete self l.signal_subs v.streams_once)
step-TablesInv host watches l v = unfold open_stream in ground arith
step-TablesInv host (shows ch) l v = unfold push_snapshot in ground arith
step-TablesInv host (leaves ch) l v = unfold unsubscribe in ground arith
