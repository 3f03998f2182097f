-- ===== src/Lighthouse/Streams/Awake/Others.antt =====
-- The token of an open signal stream when other requests are handled, one by one.
use quicmeshpoc.Common.{
  ℕ, Bytes, true, false, ◌||◌, ◌==◌, [], ◌∷◌, ◌++◌, Option, none, some, str_eq, str_eq_iff, lookup,
  insert, lookup-insert, lookup-delete, ◌≡◌, arith, Bool-cases, inl, inr,
}
use quicmeshpoc.Protocol.{RegisterRequest, ConnectRequest}
use quicmeshpoc.Lighthouse.State.{Lighthouse, Host, Registration}
use quicmeshpoc.Lighthouse.Events.{open_stream, push_snapshot, unsubscribe, add_event}
use quicmeshpoc.Lighthouse.Frame.{core-note_offline}
use quicmeshpoc.Lighthouse.Register.{handle_register, registration}
use quicmeshpoc.Lighthouse.Register.Spec.{core-register}
use quicmeshpoc.Lighthouse.Peers.{handle_peers, scan_peers}
use quicmeshpoc.Lighthouse.Connect.{
  queued, signal_of, connect, handle_connect, handle_handoff, enqueue, nudge,
}
use quicmeshpoc.Lighthouse.Connect.Spec.{core-connect}
use quicmeshpoc.Lighthouse.Signals.{
  flush_signals, open_signals, wake_signals, subscribe_signals, unsubscribe_signals, is_current,
  drain_signals,
}
use quicmeshpoc.Lighthouse.Signals.Spec.{core-flush_signals}
use quicmeshpoc.Lighthouse.Serve.{
  Call, registers, lists, connects, reports, opens, wakes, closes, watches, shows, leaves,
  handle_signals_stream, step,
}
use quicmeshpoc.Lighthouse.Streams.Awake.{is_apart, Awake, along-core}

module _ (self : Bytes) (ch : ℕ) where
  register-Awake :
      (host : Host) (body : Option RegisterRequest) (addr : Bytes) (l : Lighthouse)
      → Awake self ch l
      → Awake self ch (handle_register host body addr l).0
  unfolding handle_register
  register-Awake host none addr l v = v
  register-Awake host (some req) addr l v = elim (Bool-cases (str_eq req.node_id [])) [
    | inl e ↦ rw e v
    | inr e ↦ rw e (
        along-core self ch
          (record l { nodes = insert req.node_id (registration (host.now 0) req addr) l.nodes })
          (core-register host req addr l)
          (record { current = v.current; made = v.made; waiting = v.waiting }))
  ]

  peers-Awake :
      (host : Host) (id : Bytes) (l : Lighthouse)
      → Awake self ch l
      → Awake self ch (handle_peers host id l).0
  unfolding handle_peers
  peers-Awake host id l v =
      let s = scan_peers host id l in
      let l' : Lighthouse = record l { nodes = s.nodes } in
      along-core self ch l' (core-note_offline host 1 s.expired l')
        (record { current = v.current; made = v.made; waiting = v.waiting })

  nudged : (o : Option ℕ) (l : Lighthouse) → Awake self ch l → Awake self ch (nudge o l)
  unfolding nudge
  nudged none l v = v
  nudged (some c) l v = record {
    current = v.current;
    made = v.made;
    waiting = ground (arith, v.waiting);
  }

  enqueue-Awake :
      (now : ℕ) (req : ConnectRequest) (reg : Registration) (l : Lighthouse)
      → Awake self ch l
      → Awake self ch (nudge (lookup req.to l.signal_subs) (enqueue now req reg l))
  unfolding enqueue
  enqueue-Awake now req reg l v = elim (Bool-cases (str_eq req.to self)) [
    | inl e ↦
        rw ((str_eq_iff req.to self).0 e, v.current)
          (unfold nudge in record { current = v.current; made = v.made; waiting = ground arith })
    | inr e ↦ nudged (lookup req.to l.signal_subs) _ (record {
      current = v.current;
      made = v.made;
      waiting =
          rw
            (
              lookup-insert req.to self (queued req.to l ++ signal_of req.from reg ∷ []) l.signals,
              e,
            )
            v.waiting;
    })
  ]

  connect-Awake :
      (host : Host) (req : ConnectRequest) (o : Option Registration) (l : Lighthouse)
      → Awake self ch l
      → Awake self ch (connect host req o l).0
  connect-Awake host req none l v = unfold connect in v
  connect-Awake host req (some reg) l v =
      along-core self ch _ (core-connect host req reg l) (enqueue-Awake (host.now 0) req reg l v)

  handle_connect-Awake :
      (host : Host) (body : Option ConnectRequest) (l : Lighthouse)
      → Awake self ch l
      → Awake self ch (handle_connect host body l).0
  unfolding handle_connect
  handle_connect-Awake host none l v = v
  handle_connect-Awake host (some req) l v =
      elim (Bool-cases (str_eq req.from [] || str_eq req.to [])) [
        | inl e ↦ rw e v
        | inr e ↦ rw e (connect-Awake host req (lookup req.from l.nodes) l v)
      ]

  handoff-Awake :
      (host : Host) (body : Option ConnectRequest) (l : Lighthouse)
      → Awake self ch l
      → Awake self ch (handle_handoff host body l).0
  unfolding handle_handoff add_event
  handoff-Awake host none l v = v
  handoff-Awake host (some req) l v = elim (Bool-cases (str_eq req.from [] || str_eq req.to [])) [
    | inl e ↦ rw e v
    | inr e ↦ rw e (record { current = v.current; made = v.made; waiting = v.waiting })
  ]

  flush-Awake :
      (host : Host) (other : Bytes) (l : Lighthouse)
      → str_eq other self ≡ false
      → Awake self ch l
      → Awake self ch (flush_signals host other l).0
  flush-Awake host other l e v =
      along-core self ch (drain_signals other l).state (core-flush_signals host other l) (
        unfold drain_signals in
        record {
          current = v.current;
          made = v.made;
          waiting = rw (lookup-delete other self l.signals, e) v.waiting;
        })

  open-Awake :
      (host : Host) (other : Bytes) (l : Lighthouse)
      → str_eq other self ≡ false
      → Awake self ch l
      → Awake self ch (handle_signals_stream host other l).0
  unfolding handle_signals_stream open_signals subscribe_signals
  open-Awake host other l e v = elim (Bool-cases (str_eq other [])) [
    | inl f ↦ rw f v
    | inr f ↦ rw f (
        flush-Awake host other _ e (record {
          current = rw (lookup-insert other self l.next_channel l.signal_subs, e) v.current;
          made = omega (arith, v.made);
          waiting = ground (arith, v.waiting, v.made);
        }))
  ]

  wake-Awake :
      (host : Host) (other : Bytes) (c : ℕ) (l : Lighthouse)
      → str_eq other self ≡ false
      → (c == ch) ≡ false
      → Awake self ch l
      → Awake self ch (wake_signals host other c l).0
  unfolding wake_signals
  wake-Awake host other c l e f v = elim (Bool-cases (l.woken c)) [
    | inl w ↦ rw w (
        flush-Awake host other _ e
          (record { current = v.current; made = v.made; waiting = ground (arith, v.waiting, f) }))
    | inr w ↦ rw w v
  ]

  close-Awake :
      (other : Bytes) (c : ℕ) (l : Lighthouse)
      → str_eq other self ≡ false
      → Awake self ch l
      → Awake self ch (unsubscribe_signals other c l)
  unfolding unsubscribe_signals
  close-Awake other c l e v = elim (Bool-cases (is_current (lookup other l.signal_subs) c)) [
    | inl f ↦ rw f (record {
      current = rw (lookup-delete other self l.signal_subs, e) v.current;
      made = v.made;
      waiting = v.waiting;
    })
    | inr f ↦ rw f v
  ]

  -- A call of others keeps this stream the current one of its name, and awake.
  pub step-Awake :
      (host : Host) (c : Call) (l : Lighthouse)
      → is_apart self ch c ≡ true
      → Awake self ch l
      → Awake self ch (step host c l)
  unfolding step
  step-Awake host (registers body addr) l h v = register-Awake host body addr l v
  step-Awake host (lists id) l h v = peers-Awake host id l v
  step-Awake host (connects body) l h v = handle_connect-Awake host body l v
  step-Awake host (reports body) l h v = handoff-Awake host body l v
  step-Awake host (opens other) l h v = open-Awake host other l (ground (arith, h)) v
  step-Awake host (wakes other c) l h v =
      wake-Awake host other c l (ground (arith, h)) (ground (arith, h)) v
  step-Awake host (closes other c) l h v = close-Awake other c l (ground (arith, h)) v
  step-Awake host watches l h v =
      unfold open_stream in
      record { current = v.current; made = omega (arith, v.made); waiting = v.waiting }
  step-Awake host (shows c) l h v =
      unfold push_snapshot in record { current = v.current; made = v.made; waiting = v.waiting }
  step-Awake host (leaves c) l h v =
      unfold unsubscribe in record { current = v.current; made = v.made; waiting = v.waiting }
