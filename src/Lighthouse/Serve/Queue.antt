-- ===== src/Lighthouse/Serve/Queue.antt =====
-- Delivery of punch requests over whole histories.
use mathlib.Core.List.{append_assoc, append-nil}
use quicmeshpoc.Common.{
  ℕ, Bytes, List, [], ◌∷◌, ◌++◌, Option, none, some, str_eq, lookup, if◌then◌else◌, ◌≡◌, refl, sym,
  ap, ◌∙◌, arith, str_eq_iff, inl, inr, Bool-cases,
}
use quicmeshpoc.Protocol.{RegisterRequest, ConnectRequest, Signal}
use quicmeshpoc.Lighthouse.State.{Lighthouse, Host, Registration, json, Reply}
use quicmeshpoc.Lighthouse.Events.{open_stream, push_snapshot, unsubscribe, add_event}
use quicmeshpoc.Lighthouse.Frame.{core-note_offline}
use quicmeshpoc.Lighthouse.Register.{handle_register}
use quicmeshpoc.Lighthouse.Register.Spec.{core-register}
use quicmeshpoc.Lighthouse.Peers.{handle_peers, scan_peers}
use quicmeshpoc.Lighthouse.Connect.{queued, signal_of, connect, handle_connect, handle_handoff}
use quicmeshpoc.Lighthouse.Connect.Spec.{named, queued-connect}
use quicmeshpoc.Lighthouse.Signals.{
  flush_signals, open_signals, wake_signals, subscribe_signals, unsubscribe_signals,
}
use quicmeshpoc.Lighthouse.Signals.Spec.{flush_signals_lem}
use quicmeshpoc.Lighthouse.Serve.{
  Call, registers, lists, connects, reports, opens, wakes, closes, watches, shows, leaves,
  handle_signals_stream, step, History, run,
}

abbrev pub opened : Reply (ℕ × List Signal) → List Signal
opened (json (ch, sent)) = sent
opened _ = []

-- The signals that a call writes to a stream of node `k`.
unfoldable pub sent : Bytes → Host → Call → Lighthouse → List Signal
sent k host (opens self) l =
    if str_eq self k then opened (handle_signals_stream host self l).1 else []
sent k host (wakes self ch) l = if str_eq self k then (wake_signals host self ch l).1 else []
sent k host _ l = []

abbrev asked : Bytes → ConnectRequest → Option Registration → List Signal
asked k req none = []
asked k req (some reg) = if str_eq req.to k then signal_of req.from reg ∷ [] else []

-- The signals for node `k` that a call asks for: those of a well-formed request from a registered
-- sender.
unfoldable pub accepted : Bytes → Call → Lighthouse → List Signal
accepted k (connects (some req)) l = if named req then asked k req (lookup req.from l.nodes) else []
accepted k _ l = []

-- All that is written to streams of `k`, and all that is asked for, over a history.
unfoldable pub all_sent : Bytes → Lighthouse → History → List Signal
all_sent k l [] = []
all_sent k l ((host, c) ∷ h) = sent k host c l ++ all_sent k (step host c l) h

unfoldable pub all_accepted : Bytes → Lighthouse → History → List Signal
all_accepted k l [] = []
all_accepted k l ((host, c) ∷ h) = accepted k c l ++ all_accepted k (step host c l) h

-- A call that neither asks for `k` nor writes to it.
pub queued-register :
    (k : Bytes) (host : Host) (body : Option RegisterRequest) (addr : Bytes) (l : Lighthouse)
    → queued k (handle_register host body addr l).0 ≡ queued k l
unfolding handle_register
queued-register k host none addr l = refl
queued-register k host (some req) addr l =
    ground (arith, ap (queued k) (core-register host req addr l))

pub queued-peers :
    (k : Bytes) (host : Host) (self : Bytes) (l : Lighthouse)
    → queued k (handle_peers host self l).0 ≡ queued k l
unfolding handle_peers
queued-peers k host self l =
    let s = scan_peers host self l in
    ap (queued k) (core-note_offline host 1 s.expired (record l { nodes = s.nodes }))

pub queued-handoff :
    (k : Bytes) (host : Host) (body : Option ConnectRequest) (l : Lighthouse)
    → queued k (handle_handoff host body l).0 ≡ queued k l
unfolding handle_handoff add_event
queued-handoff k host none l = refl
queued-handoff k host (some req) l = ground arith

pub queued-unsubscribe :
    (k self : Bytes) (ch : ℕ) (l : Lighthouse)
    → queued k (unsubscribe_signals self ch l) ≡ queued k l
unfolding unsubscribe_signals
queued-unsubscribe k self ch l = ground arith

connect-balance :
    (k : Bytes) (host : Host) (req : ConnectRequest) (o : Option Registration) (l : Lighthouse)
    → queued k (connect host req o l).0 ≡ queued k l ++ asked k req o
connect-balance k host req none l = unfold connect in sym (append-nil (queued k l))
connect-balance k host req (some reg) l =
    ground (arith, queued-connect host req reg l k, append-nil (queued k l))

flush-balance :
    (k : Bytes) (host : Host) (self : Bytes) (l : Lighthouse)
    → (if str_eq self k then (flush_signals host self l).1 else [])
        ++ queued k (flush_signals host self l).0
      ≡ queued k l
flush-balance k host self l =
    let f = flush_signals_lem host self k [] l in
    ground (arith, f.0, f.1, append-nil (queued k l), str_eq_iff self k)

open-balance :
    (k : Bytes) (host : Host) (self : Bytes) (l : Lighthouse)
    → (if str_eq self k then opened (handle_signals_stream host self l).1 else [])
        ++ queued k (handle_signals_stream host self l).0
      ≡ queued k l
unfolding handle_signals_stream open_signals
open-balance k host self l = elim (Bool-cases (str_eq self [])) [
  | inl e ↦ rw e (ground arith)
  | inr e ↦
      rw e (
        flush-balance k host self (subscribe_signals self l).0 ∙ (unfold subscribe_signals in refl))
]

wake-balance :
    (k : Bytes) (host : Host) (self : Bytes) (ch : ℕ) (l : Lighthouse)
    → (if str_eq self k then (wake_signals host self ch l).1 else [])
        ++ queued k (wake_signals host self ch l).0
      ≡ queued k l
unfolding wake_signals
wake-balance k host self ch l = elim (Bool-cases (l.woken ch)) [
  | inl e ↦ rw e (flush-balance k host self _)
  | inr e ↦ rw e (ground arith)
]

-- What one call writes, with what is then queued, is what was queued with what was asked for.
step-balance :
    (k : Bytes) (host : Host) (c : Call) (l : Lighthouse)
    → sent k host c l ++ queued k (step host c l) ≡ queued k l ++ accepted k c l
unfolding sent accepted step
step-balance k host (registers body addr) l =
    queued-register k host body addr l ∙ sym (append-nil (queued k l))
step-balance k host (lists self) l = queued-peers k host self l ∙ sym (append-nil (queued k l))
step-balance k host (connects none) l = unfold handle_connect in sym (append-nil (queued k l))
step-balance k host (connects (some req)) l =
    unfold handle_connect in
    ground (arith, connect-balance k host req (lookup req.from l.nodes) l, append-nil (queued k l))
step-balance k host (reports body) l = queued-handoff k host body l ∙ sym (append-nil (queued k l))
step-balance k host (opens self) l = open-balance k host self l ∙ sym (append-nil (queued k l))
step-balance k host (wakes self ch) l =
    wake-balance k host self ch l ∙ sym (append-nil (queued k l))
step-balance k host (closes self ch) l =
    queued-unsubscribe k self ch l ∙ sym (append-nil (queued k l))
step-balance k host watches l = unfold open_stream in sym (append-nil (queued k l))
step-balance k host (shows ch) l = unfold push_snapshot in sym (append-nil (queued k l))
step-balance k host (leaves ch) l = unfold unsubscribe in sym (append-nil (queued k l))

-- Over every history of calls, whatever streams of a node come and go: the signals written to it,
-- in order, followed by those still queued, are the ones queued at the start followed by those
-- asked for since, in order. So no punch request is lost in the server, repeated or overtaken.
pub delivery :
    (k : Bytes) (l : Lighthouse) (h : History)
    → all_sent k l h ++ queued k (run l h) ≡ queued k l ++ all_accepted k l h
unfolding all_sent all_accepted run
delivery k l [] = sym (append-nil (queued k l))
delivery k l ((host, c) ∷ h) =
    let l' = step host c l in
    append_assoc (sent k host c l) (all_sent k l' h) (queued k (run l' h))
    ∙ ap (◌++◌ (sent k host c l)) (delivery k l' h)
    ∙ sym (append_assoc (sent k host c l) (queued k l') (all_accepted k l' h))
    ∙ ap (λ (xs : List Signal). xs ++ all_accepted k l' h) (step-balance k host c l)
    ∙ append_assoc (queued k l) (accepted k c l) (all_accepted k l' h)
