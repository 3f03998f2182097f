-- ===== src/Lighthouse/Register/Spec.antt =====
-- handleRegister as its caller and the other nodes see it.
use quicmeshpoc.Common.{
  Bytes, [], Option, none, some, str_eq, lookup, insert, if◌then◌else◌, ◌≡◌, ◌≢◌, refl, ap, arith,
  str_eq_iff, lookup-insert, text,
}
use quicmeshpoc.Protocol.{RegisterRequest}
use quicmeshpoc.Lighthouse.State.{Registration, Lighthouse, Host, http_error, json}
use quicmeshpoc.Lighthouse.Events.{add_event}
use quicmeshpoc.Lighthouse.Frame.{core}
use quicmeshpoc.Lighthouse.Register.{registration, announce, register, handle_register}

core-announce :
    (host : Host) (o : Option Registration) (req : RegisterRequest) (addr : Bytes) (l : Lighthouse)
    → core (announce host o req addr l) ≡ core l
unfolding announce add_event
core-announce host none req addr l = refl
core-announce host (some prev) req addr l = ground arith

pub core-register :
    (host : Host) (req : RegisterRequest) (addr : Bytes) (l : Lighthouse)
    → core (register host req addr l)
      ≡ core (record l { nodes = insert req.node_id (registration (host.now 0) req addr) l.nodes })
unfolding register
core-register host req addr l = core-announce host (lookup req.node_id l.nodes) req addr _

-- A registration with a name is answered with the observed address, and under the name stand from then
-- on that address, the candidates and the incarnation of the request, and the first reading
-- of the clock; no other node, queue, stream or handoff changes.
pub handle_register_lem :
    (host : Host) (req : RegisterRequest) (addr : Bytes) (l : Lighthouse) (k : Bytes)
    → req.node_id ≢ []
    → let out = handle_register host (some req) addr l in
      (out.1 ≡ json (record { your_addr = addr }))
      × (lookup k out.0.nodes ≡ (
          if str_eq req.node_id k
          then some (record {
            addr = addr;
            local_addrs = req.local_addrs;
            incarnation = req.incarnation;
            last_seen = host.now 0;
          })
          else lookup k l.nodes))
      × (core (record out.0 { nodes = l.nodes }) ≡ core l)
unfolding handle_register registration
handle_register_lem host req addr l k h =
    let kept = core-register host req addr l in
    ground (
      arith,
      str_eq_iff req.node_id [],
      ap (λ (m : Lighthouse). lookup k m.nodes) kept,
      ap (λ (m : Lighthouse). core (record m { nodes = l.nodes })) kept,
      lookup-insert req.node_id k (registration (host.now 0) req addr) l.nodes,
    )

-- A body that does not decode or names no node is refused and changes nothing.
pub handle_register_refused :
    (host : Host) (addr : Bytes) (l : Lighthouse) (req : RegisterRequest)
    → req.node_id ≡ []
    → (handle_register host none addr l ≡ (l, http_error 400 (text "bad register request")))
      × (handle_register host (some req) addr l ≡ (l, http_error 400 (text "bad register request")))
unfolding handle_register
handle_register_refused host addr l req h = (refl, ground (arith, str_eq_iff req.node_id []))
