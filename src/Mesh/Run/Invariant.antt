-- ===== src/Mesh/Run/Invariant.antt =====
-- What holds of the table of links at all times.
use quicmeshpoc.Common.{
  ℕ, Bytes, Bool, true, false, List, [], ◌∷◌, Option, none, some, is_some, lookup, insert, delete,
  Map, keys, Distinct, Distinct-insert, Distinct-delete, if◌then◌else◌, refl, arith,
}
use quicmeshpoc.Protocol.{Peer}
use quicmeshpoc.Mesh.State.{PeerConn, Mesh, Step}
use quicmeshpoc.Mesh.Links.{
  Dialed, linked, connect, dial_peer, poll, respond_to_punch, close, end_reader, add_conn,
  remove_conn, reap_stale, reap_one, drop_link, auto_connect, auto_one,
}
use quicmeshpoc.Mesh.Inbound.{handle_inbound, accept}
use quicmeshpoc.Mesh.Chat.{
  send_chat, send_broadcast, broadcast_to, send_all, send_one, one_sent, chat_sent, chat_over,
}
use quicmeshpoc.Mesh.Chat.Broadcast.{Named}
use quicmeshpoc.Mesh.Run.{
  Move, polls, connects, dials, punched, accepts, ends, says, broadcasts, closes, move,
}

-- No peer has two links or two dials, and every link stands under the name of its peer.
pub record Inv (m : Mesh) : Type 0 where
  pub one_link : Distinct (keys m.conns)
  pub named : Named m.conns
  pub one_dial : Distinct (keys m.dialing)

Named-insert :
    (pc : PeerConn) (conns : Map PeerConn) → Named conns → Named (insert pc.node_id pc conns)
unfolding insert
Named-insert pc [] h = (refl, tt)
Named-insert pc ((j, w) ∷ conns) h = ground (arith, Named-insert pc conns h.1)

Named-delete : (id : Bytes) (conns : Map PeerConn) → Named conns → Named (delete id conns)
unfolding delete
Named-delete id [] h = tt
Named-delete id ((j, w) ∷ conns) h = ground (arith, Named-delete id conns h.1)

add_conn-Inv : (pc : PeerConn) (m : Mesh) → Inv m → Inv (add_conn pc m)
unfolding add_conn
add_conn-Inv pc m h = record {
  one_link = Distinct-insert pc.node_id pc m.conns h.one_link;
  named = Named-insert pc m.conns h.named;
  one_dial = h.one_dial;
}

remove_conn-Inv : (id : Bytes) (m : Mesh) → Inv m → Inv (remove_conn id m)
unfolding remove_conn
remove_conn-Inv id m h = record {
  one_link = Distinct-delete id m.conns h.one_link;
  named = Named-delete id m.conns h.named;
  one_dial = h.one_dial;
}

undial-Inv : (id : Bytes) (m : Mesh) → Inv m → Inv (record m { dialing = delete id m.dialing })
undial-Inv id m h = record {
  one_link = h.one_link;
  named = h.named;
  one_dial = Distinct-delete id m.dialing h.one_dial;
}

dial-Inv : (id : Bytes) (m : Mesh) → Inv m → Inv (record m { dialing = insert id tt m.dialing })
dial-Inv id m h = record {
  one_link = h.one_link;
  named = h.named;
  one_dial = Distinct-insert id tt m.dialing h.one_dial;
}

Inv-if : (b : Bool) (s t : Step) → Inv s.0 → Inv t.0 → Inv (if b then s else t).0
Inv-if true s t h k = h
Inv-if false s t h k = k

connect-Inv : (p : Peer) (m : Mesh) → Inv m → Inv (connect p m).0
unfolding connect
connect-Inv p m h = Inv-if _ _ _ h (dial-Inv p.node_id m h)

dial_peer-Inv : (p : Peer) (d : Dialed) (m : Mesh) → Inv m → Inv (dial_peer p d m).0
unfolding dial_peer
dial_peer-Inv p (linked c) m h = undial-Inv p.node_id _ (add_conn-Inv _ m h)
dial_peer-Inv p _ m h = undial-Inv p.node_id m h

drop_link-Inv : (o : Option PeerConn) (p : Peer) (m : Mesh) → Inv m → Inv (drop_link o p m).0
unfolding drop_link
drop_link-Inv none p m h = h
drop_link-Inv (some pc) p m h = remove_conn-Inv p.node_id m h

reap_stale-Inv : (ps : List Peer) (m : Mesh) → Inv m → Inv (reap_stale ps m).0
unfolding reap_stale reap_one
reap_stale-Inv [] m h = h
reap_stale-Inv (p ∷ ps) m h =
    reap_stale-Inv ps _ (Inv-if _ _ _ (drop_link-Inv (lookup p.node_id m.conns) p m h) h)

auto_connect-Inv : (ps : List Peer) (m : Mesh) → Inv m → Inv (auto_connect ps m).0
unfolding auto_connect auto_one
auto_connect-Inv [] m h = h
auto_connect-Inv (p ∷ ps) m h = auto_connect-Inv ps _ (Inv-if _ _ _ (connect-Inv p m h) h)

accept-Inv :
    (o : Option (Bytes × Bytes)) (c : ℕ) (remote : Bytes) (m : Mesh)
    → Inv m
    → Inv (accept o c remote m).0
unfolding accept
accept-Inv none c remote m h = h
accept-Inv (some (id, incarnation)) c remote m h = add_conn-Inv _ m h

chat_sent-Inv :
    (o : Option Bytes) (c : ℕ) (id said : Bytes) (m : Mesh)
    → Inv m
    → Inv (chat_sent o c id said m).0
unfolding chat_sent
chat_sent-Inv none c id said m h = h
chat_sent-Inv (some err) c id said m h = remove_conn-Inv id m h

one_sent-Inv :
    (o : Option Bytes) (pc : PeerConn) (said : Bytes) (m : Mesh)
    → Inv m
    → Inv (one_sent o pc said m).0
unfolding one_sent
one_sent-Inv none pc said m h = h
one_sent-Inv (some err) pc said m h = remove_conn-Inv pc.node_id m h

send_all-Inv :
    (conns : Map PeerConn) (said : Bytes) (write : ℕ → Option Bytes) (m : Mesh)
    → Inv m
    → Inv (send_all conns said write m).0
unfolding send_all send_one
send_all-Inv [] said write m h = h
send_all-Inv ((id, pc) ∷ conns) said write m h =
    send_all-Inv conns said write _ (one_sent-Inv (write pc.conn) pc said m h)

broadcast_to-Inv :
    (conns : Map PeerConn) (said : Bytes) (write : ℕ → Option Bytes) (m : Mesh)
    → Inv m
    → Inv (broadcast_to conns said write m).0
unfolding broadcast_to
broadcast_to-Inv [] said write m h = h
broadcast_to-Inv (e ∷ conns) said write m h = send_all-Inv (e ∷ conns) said write m h

chat_over-Inv :
    (o : Option PeerConn) (id said : Bytes) (write : ℕ → Option Bytes) (m : Mesh)
    → Inv m
    → Inv (chat_over o id said write m).0
unfolding chat_over
chat_over-Inv none id said write m h = h
chat_over-Inv (some pc) id said write m h = chat_sent-Inv (write pc.conn) pc.conn id said m h

handle_inbound-Inv :
    (c : ℕ) (remote : Bytes) (o : Option Bytes) (m : Mesh)
    → Inv m
    → Inv (handle_inbound c remote o m).0
unfolding handle_inbound
handle_inbound-Inv c remote none m h = h
handle_inbound-Inv c remote (some line) m h = accept-Inv _ c remote m h

poll-Inv : (o : Option (List Peer)) (m : Mesh) → Inv m → Inv (poll o m).0
unfolding poll
poll-Inv none m h = h
poll-Inv (some peers) m h = auto_connect-Inv peers _ (reap_stale-Inv peers m h)

-- Whatever a client does, no peer has two links or two dials afterwards if none had before, and
-- every link stands under its peer's name.
pub move-Inv : (x : Move) (m : Mesh) → Inv m → Inv (move x m).0
unfolding move
move-Inv (polls peers) m h = poll-Inv peers m h
move-Inv (connects p) m h = connect-Inv p m h
move-Inv (dials p d) m h = dial_peer-Inv p d m h
move-Inv (punched resolves s) m h =
    unfold respond_to_punch in Inv-if (is_some (lookup s.from_node_id m.conns)) _ _ h h
move-Inv (accepts c remote line) m h = handle_inbound-Inv c remote line m h
move-Inv (ends id err) m h = unfold end_reader in remove_conn-Inv id m h
move-Inv (says id said write) m h =
    unfold send_chat in chat_over-Inv (lookup id m.conns) id said write m h
move-Inv (broadcasts said write) m h =
    unfold send_broadcast in broadcast_to-Inv m.conns said write m h
move-Inv closes m h =
    unfold close in record { one_link = unfold keys in tt; named = tt; one_dial = h.one_dial }
