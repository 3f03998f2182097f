-- ===== src/Mesh/Links.antt =====
-- The table of links in cmd/quicchat/mesh.go: Connect, reapStale, autoConnect, peersLoop,
-- respondToPunch and Close. Each function is a critical section, or the part of a goroutine between
-- two waits.
pub mod Table
pub mod Poll
use quicmeshpoc.Common.{
  ℕ, Bytes, Bool, true, false, not, ◌&&◌, ◌||◌, List, [], ◌∷◌, ◌++◌, Option, none, some, is_some,
  text, lookup, insert, delete, Map, if◌then◌else◌,
}
use quicmeshpoc.Protocol.{Peer, Signal}
use quicmeshpoc.Mesh.State.{
  ConnState, disconnected, connecting, connected, failed, PeerConn, Mesh, Msg, peers_msg, state_msg,
  chat_msg, status_msg, Effect, emit, close_conn, spawn_dial, punch, report_handoff, Step,
}
use quicmeshpoc.Mesh.Names.{incarnation_changed, initiates}
use quicmeshpoc.Mesh.Candidates.{dedupe_candidates}
use quicmeshpoc.Mesh.Dial.{DialResult}

unfoldable pub add_conn : PeerConn → Mesh → Mesh
add_conn pc m = record m { conns = insert pc.node_id pc m.conns }

unfoldable pub remove_conn : Bytes → Mesh → Mesh
remove_conn id m = record m { conns = delete id m.conns }

abbrev pub set_state : Bytes → ConnState → Effect
set_state id st = emit (state_msg id st)

abbrev pub status : Bytes → Effect
status line = emit (status_msg line)

-- The critical section of Connect: nothing if there is a link or a dial, else a dial is started.
unfoldable pub connect : Peer → Mesh → Step
connect peer m =
    if is_some (lookup peer.node_id m.conns) || is_some (lookup peer.node_id m.dialing)
    then (m, [])
    else (record m { dialing = insert peer.node_id tt m.dialing }, spawn_dial peer ∷ [])

-- How the goroutine of Connect ends: at which step it fails, with the error, or with a
-- connection whose HELLO went out.
pub data Dialed : Type 0 where
  signal_failed dial_failed : Bytes → Dialed
  stream_failed hello_failed : Dialed
  linked : ℕ → Dialed

unfoldable pub joined : List Bytes → Bytes
unfolding text
joined [] = []
joined (c ∷ []) = c
joined (c ∷ d ∷ cs) = c ++ text ", " ++ joined (d ∷ cs)

-- What the goroutine reports before it dials.
abbrev pub asking : Peer → List Effect
asking peer =
    set_state peer.node_id connecting
    ∷ status (text "asking lighthouse to nudge " ++ peer.node_id)
    ∷ []

abbrev pub trying : Peer → List Effect
trying peer =
    asking peer
    ++ status (
        text "dialing "
        ++ peer.node_id
        ++ text " at "
        ++ joined (dedupe_candidates peer.addr peer.local_addrs))
      ∷ []

-- The goroutine of Connect: what it does to the table and reports. The deferred delete runs in
-- every case, and the table is touched only at the end.
unfoldable pub dial_peer : Peer → Dialed → Mesh → Step
unfolding add_conn joined dedupe_candidates text
dial_peer peer (signal_failed err) m = (
  record m { dialing = delete peer.node_id m.dialing },
  asking peer
      ++ status (text "connect signal failed: " ++ err) ∷ set_state peer.node_id failed ∷ [],
)
dial_peer peer (dial_failed err) m = (
  record m { dialing = delete peer.node_id m.dialing },
  trying peer ++ status (text "dial failed: " ++ err) ∷ set_state peer.node_id failed ∷ [],
)
dial_peer peer stream_failed m = (
  record m { dialing = delete peer.node_id m.dialing },
  trying peer ++ set_state peer.node_id failed ∷ [],
)
dial_peer peer hello_failed m = (
  record m { dialing = delete peer.node_id m.dialing },
  trying peer ++ set_state peer.node_id failed ∷ [],
)
dial_peer peer (linked c) m =
    let pc : PeerConn = record {
      node_id = peer.node_id;
      incarnation = peer.incarnation;
      conn = c;
    } in
    (
      record (add_conn pc m) { dialing = delete peer.node_id m.dialing },
      trying peer
          ++ set_state peer.node_id connected
            ∷ status (text "connected to " ++ peer.node_id ++ text " 🎉")
            ∷ report_handoff peer.node_id
            ∷ [],
    )

abbrev pub is_stale : Option PeerConn → Peer → Bool
is_stale none p = false
is_stale (some pc) p = incarnation_changed pc.incarnation p.incarnation

-- The link to a peer that restarted is dropped.
unfoldable pub drop_link : Option PeerConn → Peer → Mesh → Step
unfolding remove_conn text
drop_link none p m = (m, [])
drop_link (some pc) p m = (
  remove_conn p.node_id m,
  status (p.node_id ++ text " restarted — dropping stale link")
      ∷ close_conn pc.conn (text "peer restarted")
      ∷ set_state p.node_id disconnected
      ∷ [],
)

-- The body of the loop of reapStale.
unfoldable pub reap_one : Peer → Mesh → Step
unfolding drop_link
reap_one p m =
    let link = lookup p.node_id m.conns in if is_stale link p then drop_link link p m else (m, [])

unfoldable pub reap_stale : List Peer → Mesh → Step
unfolding reap_one
reap_stale [] m = (m, [])
reap_stale (p ∷ ps) m =
    let (m', fx) = reap_one p m in let (m'', gx) = reap_stale ps m' in (m'', fx ++ gx)

-- The body of the loop of autoConnect.
unfoldable pub auto_one : Peer → Mesh → Step
unfolding connect
auto_one p m = if initiates m.node_id p.node_id then connect p m else (m, [])

unfoldable pub auto_connect : List Peer → Mesh → Step
unfolding auto_one
auto_connect [] m = (m, [])
auto_connect (p ∷ ps) m =
    let (m', fx) = auto_one p m in let (m'', gx) = auto_connect ps m' in (m'', fx ++ gx)

-- One round of peersLoop, on the answer to its request; an error is only logged.
unfoldable pub poll : Option (List Peer) → Mesh → Step
unfolding reap_stale auto_connect
poll none m = (m, [])
poll (some peers) m =
    let (m', fx) = reap_stale peers m in
    let (m'', gx) = auto_connect peers m' in (m'', emit (peers_msg peers) ∷ fx ++ gx)

abbrev pub punches : List Bytes → List Effect
punches [] = []
punches (c ∷ cs) = punch c ∷ punches cs

-- net.ResolveUDPAddr says which candidates are addresses; the others are logged and skipped.
unfoldable pub resolved : (Bytes → Bool) → List Bytes → List Bytes
resolved resolves [] = []
resolved resolves (c ∷ cs) =
    let rest = resolved resolves cs in if resolves c then c ∷ rest else rest

-- respondToPunch
unfoldable pub respond_to_punch : (Bytes → Bool) → Signal → Mesh → Step
unfolding dedupe_candidates joined resolved text
respond_to_punch resolves s m =
    let cands = dedupe_candidates s.from_addr s.from_local_addrs in
    if is_some (lookup s.from_node_id m.conns) then (m, []) else (
      m,
      status (
            text "punching back toward " ++ s.from_node_id ++ text " (" ++ joined cands ++ text ")")
          ∷ set_state s.from_node_id connecting
          ∷ punches (resolved resolves cands),
    )

unfoldable pub closings : Map PeerConn → List Effect
unfolding text
closings [] = []
closings ((id, pc) ∷ conns) = close_conn pc.conn (text "peer shutting down") ∷ closings conns

-- Close, up to the listener and the transport.
unfoldable pub close : Mesh → Step
unfolding closings
close m = (record m { conns = [] }, closings m.conns)

-- The end of a reader, by an error on its stream: it takes the peer's name out of the table.
unfoldable pub end_reader : Bytes → Bytes → Mesh → Step
unfolding remove_conn text
end_reader id err m = (
  remove_conn id m,
  set_state id disconnected ∷ status (id ++ text " disconnected (" ++ err ++ text ")") ∷ [],
)
