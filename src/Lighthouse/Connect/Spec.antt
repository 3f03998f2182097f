-- ===== src/Lighthouse/Connect/Spec.antt =====
-- handleConnect as the responder's queue and stream see it.
use quicmeshpoc.Common.{
  ℕ, Bytes, Bool, true, false, not, ◌&&◌, is_some, Bool-cases, inl, inr, ◌||◌, [], ◌∷◌, ◌++◌,
  Option, none, some, str_eq, lookup, if◌then◌else◌, ◌≡◌, refl, ap, ◌∙◌, arith, str_eq_iff,
  lookup-insert, text,
}
use quicmeshpoc.Protocol.{ConnectRequest, Signal}
use quicmeshpoc.Lighthouse.State.{Registration, Lighthouse, Host, http_error, no_content}
use quicmeshpoc.Lighthouse.Events.{add_event}
use quicmeshpoc.Lighthouse.Frame.{core}
use quicmeshpoc.Lighthouse.Handoffs.Rows.{row}
use quicmeshpoc.Lighthouse.Handoffs.Life.{row-arm, armed}
use quicmeshpoc.Lighthouse.Connect.{queued, signal_of, enqueue, nudge, connect, handle_connect}

-- Both names are given.
abbrev pub named : ConnectRequest → Bool
named req = not (str_eq req.from [] || str_eq req.to [])

pub queued-enqueue :
    (now : ℕ) (req : ConnectRequest) (reg : Registration) (l : Lighthouse) (k : Bytes)
    → queued k (enqueue now req reg l)
      ≡ (if str_eq req.to k then queued k l ++ signal_of req.from reg ∷ [] else queued k l)
unfolding enqueue
queued-enqueue now req reg l k = ground (
  arith,
  lookup-insert req.to k (queued req.to l ++ signal_of req.from reg ∷ []) l.signals,
  str_eq_iff req.to k,
)

pub core-connect :
    (host : Host) (req : ConnectRequest) (reg : Registration) (l : Lighthouse)
    → core (connect host req (some reg) l).0
      ≡ core (nudge (lookup req.to l.signal_subs) (enqueue (host.now 0) req reg l))
unfolding connect add_event
core-connect host req reg l = refl

-- A nudge touches the nudge channels only.
pub core-nudge :
    (o : Option ℕ) (l : Lighthouse) → core (record (nudge o l) { woken = l.woken }) ≡ core l
unfolding nudge
core-nudge none l = refl
core-nudge (some ch) l = refl

-- Whether the stream, if there is one, has its token.
abbrev pub is_woken : Option ℕ → (ℕ → Bool) → Bool
is_woken none woken = true
is_woken (some ch) woken = woken ch

pub is_woken-nudge : (o : Option ℕ) (l : Lighthouse) → is_woken o (nudge o l).woken ≡ true
unfolding nudge
is_woken-nudge none l = refl
is_woken-nudge (some ch) l = ground arith

pub queued-connect :
    (host : Host) (req : ConnectRequest) (reg : Registration) (l : Lighthouse) (k : Bytes)
    → queued k (connect host req (some reg) l).0
      ≡ (if str_eq req.to k then queued k l ++ signal_of req.from reg ∷ [] else queued k l)
queued-connect host req reg l k =
    let l' = enqueue (host.now 0) req reg l in
    ap (queued k) (core-connect host req reg l)
    ∙ ap (queued k) (core-nudge (lookup req.to l.signal_subs) l')
    ∙ queued-enqueue (host.now 0) req reg l k

row-connect :
    (host : Host) (req : ConnectRequest) (reg : Registration) (l : Lighthouse)
    → row req.from req.to (connect host req (some reg) l).0.handoffs
      ≡ some (armed (host.now 0) req.from req.to)
row-connect host req reg l =
    let l' = enqueue (host.now 0) req reg l in
    ap (λ (m : Lighthouse). row req.from req.to m.handoffs) (core-connect host req reg l)
    ∙ ap (λ (m : Lighthouse). row req.from req.to m.handoffs)
        (core-nudge (lookup req.to l.signal_subs) l')
    ∙ (unfold enqueue in row-arm (host.now 0) req.from req.to l.handoffs)

handle_connect-eq_connect :
    (host : Host) (req : ConnectRequest) (l : Lighthouse)
    → named req ≡ true
    → handle_connect host (some req) l ≡ connect host req (lookup req.from l.nodes) l
unfolding handle_connect
handle_connect-eq_connect host req l h = ground arith

-- A request that names both nodes, the sender being registered, puts one signal with the sender's name,
-- its registered address and its candidates at the end of the responder's queue and leaves the other
-- queues alone, wakes the responder's stream if it has one, arms the pair's row as waiting,
-- and is answered with no content.
pub handle_connect_lem :
    (host : Host) (req : ConnectRequest) (reg : Registration) (l : Lighthouse) (k : Bytes)
    → named req ≡ true
    → lookup req.from l.nodes ≡ some reg
    → let out = handle_connect host (some req) l in
      let asked : Signal = record {
        from_node_id = req.from;
        from_addr = reg.addr;
        from_local_addrs = reg.local_addrs;
      } in
      (queued k out.0 ≡ (if str_eq req.to k then queued k l ++ asked ∷ [] else queued k l))
      × (is_woken (lookup req.to l.signal_subs) out.0.woken ≡ true)
      × (row req.from req.to out.0.handoffs ≡ some (armed (host.now 0) req.from req.to))
      × (out.1 ≡ no_content)
unfolding signal_of
handle_connect_lem host req reg l k h e =
    let sub = lookup req.to l.signal_subs in
    rw (handle_connect-eq_connect host req l h, e)
      (
        queued-connect host req reg l k,
        ap (λ (m : Lighthouse). is_woken sub m.woken) (core-connect host req reg l)
            ∙ is_woken-nudge sub (enqueue (host.now 0) req reg l),
        row-connect host req reg l,
        (unfold connect in refl),
      )

connect_unknown :
    (host : Host) (req : ConnectRequest) (o : Option Registration) (l : Lighthouse)
    → is_some o ≡ false
    → connect host req o l ≡ (l, http_error 400 (text "unknown 'from' node"))
unfolding connect
connect_unknown host req none l h = refl
connect_unknown host req (some reg) l h = absurd (ground (arith, h))

-- A request that does not decode, and every request that lacks one of the two names or comes from a
-- node that is not registered, is refused with status 400 and changes nothing. The text of
-- the answer tells a missing name, which counts first, from an unknown sender.
pub handle_connect_refused :
    (host : Host) (req : ConnectRequest) (l : Lighthouse)
    → (named req && is_some (lookup req.from l.nodes)) ≡ false
    → (handle_connect host none l ≡ (l, http_error 400 (text "bad connect request")))
      × (handle_connect host (some req) l ≡ (
        l,
        http_error 400
            (if named req then text "unknown 'from' node" else text "bad connect request"),
      ))
unfolding handle_connect
handle_connect_refused host req l h = (
  refl,
  elim (Bool-cases (str_eq req.from [] || str_eq req.to [])) [
    | inl e ↦ rw e refl
    | inr e ↦ rw e (connect_unknown host req (lookup req.from l.nodes) l (ground (arith, h, e)))
  ],
)
