-- ===== src/Lighthouse/Register.antt =====
-- handleRegister of cmd/lighthouse/main.go.
pub mod Spec
use quicmeshpoc.Common.{
  ℕ, Bytes, Bool, true, false, not, ◌&&◌, List, [], ◌∷◌, ◌++◌, Option, none, some, str_eq, lookup,
  insert, text, if◌then◌else◌,
}
use quicmeshpoc.Protocol.{RegisterRequest, RegisterResponse}
use quicmeshpoc.Lighthouse.State.{Registration, Lighthouse, Host, Reply, http_error, json}
use quicmeshpoc.Lighthouse.Events.{add_event, broadcast}

-- The address stored in the request's context by ConnContext, or else r.RemoteAddr.
unfoldable pub observed_addr : Option Bytes → Bytes → Bytes
observed_addr (some addr) remote_addr = addr
observed_addr none remote_addr = remote_addr

-- `restarted`, for a node that was registered before
unfoldable pub restarted : Registration → RegisterRequest → Bool
restarted prev req =
    not (str_eq prev.incarnation [])
    && not (str_eq req.incarnation [])
    && not (str_eq prev.incarnation req.incarnation)

unfoldable pub registration : ℕ → RegisterRequest → Bytes → Registration
registration now req addr = record {
  addr = addr;
  local_addrs = req.local_addrs;
  incarnation = req.incarnation;
  last_seen = now;
}

unfoldable pub online_message : Bytes → Bytes → Bytes → Bytes
unfolding text
online_message id what addr = id ++ what ++ text " (public addr " ++ addr ++ text ")"

-- The switch behind the critical section, on the entry that was there before.
unfoldable pub announce :
    Host → Option Registration → RegisterRequest → Bytes → Lighthouse → Lighthouse
unfolding restarted online_message
announce host none req addr l =
    add_event host 1 (text "online") (online_message req.node_id (text " came online") addr) l
announce host (some prev) req addr l =
    if restarted prev req
    then add_event host 1 (text "online") (online_message req.node_id (text " restarted") addr) l
    else broadcast host 1 l

unfoldable pub register : Host → RegisterRequest → Bytes → Lighthouse → Lighthouse
unfolding registration announce
register host req addr l =
    announce host (lookup req.node_id l.nodes) req addr
      (record l { nodes = insert req.node_id (registration (host.now 0) req addr) l.nodes })

-- The body is `none` if it does not decode; `addr` is the observed address.
unfoldable pub handle_register :
    Host → Option RegisterRequest → Bytes → Lighthouse → Lighthouse × Reply RegisterResponse
unfolding register
handle_register host none addr l = (l, http_error 400 (text "bad register request"))
handle_register host (some req) addr l =
    if str_eq req.node_id []
    then (l, http_error 400 (text "bad register request"))
    else (register host req addr l, json (record { your_addr = addr }))
