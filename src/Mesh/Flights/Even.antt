-- ===== src/Mesh/Flights/Even.antt =====
-- The marks of dials, and the goroutines that dial, in each step of cmd/quicchat/mesh.go.
use quicmeshpoc.Common.{
  ℕ, ◌+◌, Bytes, Bool, true, false, List, [], ◌∷◌, ◌++◌, Option, none, some, is_some, lookup,
  lookup-insert, Map, str_eq, str_eq_iff, if◌then◌else◌, ◌≡◌, refl, arith,
}
use quicmeshpoc.Protocol.{Peer, Signal}
use quicmeshpoc.Mesh.State.{
  Mesh, PeerConn, Effect, emit, close_conn, spawn_dial, punch, report_handoff, write_to, Step,
}
use quicmeshpoc.Mesh.Links.{
  connect, add_conn, remove_conn, poll, reap_stale, reap_one, drop_link, auto_connect, auto_one,
  respond_to_punch, punches, resolved, closings, is_stale,
}
use quicmeshpoc.Mesh.Links.Table.{is_dialing}
use quicmeshpoc.Mesh.Inbound.{handle_inbound, accept}
use quicmeshpoc.Mesh.Chat.{chat_over, chat_sent, broadcast_to, send_all, send_one, one_sent}
use quicmeshpoc.Mesh.Flights.{spawned}

-- How many goroutines dial a node.
abbrev pub count : Bytes → List Peer → ℕ
count k [] = 0
count k (p ∷ ps) = (if str_eq p.node_id k then 1 else 0) + count k ps

abbrev pub mark : Bytes → Mesh → ℕ
mark k m = if is_dialing k m then 1 else 0

pub count-append : (k : Bytes) (ps qs : List Peer) → count k (ps ++ qs) ≡ count k ps + count k qs
count-append k [] qs = omega arith
count-append k (p ∷ ps) qs = omega (arith, count-append k ps qs)

pub count-spawned :
    (k : Bytes) (fx gx : List Effect)
    → count k (spawned (fx ++ gx)) ≡ count k (spawned fx) + count k (spawned gx)
count-spawned k [] gx = omega arith
count-spawned k (spawn_dial p ∷ fx) gx = omega (arith, count-spawned k fx gx)
count-spawned k (emit e ∷ fx) gx = count-spawned k fx gx
count-spawned k (close_conn c s ∷ fx) gx = count-spawned k fx gx
count-spawned k (punch a ∷ fx) gx = count-spawned k fx gx
count-spawned k (report_handoff id ∷ fx) gx = count-spawned k fx gx
count-spawned k (write_to c s ∷ fx) gx = count-spawned k fx gx

-- What a step does to the marks and to the goroutines of a node is the same.
abbrev pub Even : Mesh → Step → Type 0
Even m s = (k : Bytes) → mark k m + count k (spawned s.1) ≡ mark k s.0

pub Even-if : (m : Mesh) (b : Bool) (s t : Step) → Even m s → Even m t → Even m (if b then s else t)
Even-if m true s t h k = h
Even-if m false s t h k = k

-- A step that does not touch the marks.
pub quiet : (m : Mesh) (k : Bytes) → mark k m + 0 ≡ mark k m
quiet m k = omega arith

pub then_step : (m : Mesh) (s t : Step) → Even m s → Even s.0 t → Even m (t.0, s.1 ++ t.1)
then_step m s t h j k = omega (arith, h k, j k, count-spawned k s.1 t.1)

pub connect-Even : (p : Peer) (m : Mesh) → Even m (connect p m)
unfolding connect
connect-Even p m k = ground (arith, lookup-insert p.node_id k tt m.dialing, str_eq_iff p.node_id k)

pub drop_link-Even : (o : Option PeerConn) (p : Peer) (m : Mesh) → Even m (drop_link o p m)
unfolding drop_link remove_conn
drop_link-Even none p m = quiet m
drop_link-Even (some pc) p m = quiet m

pub reap_stale-Even : (ps : List Peer) (m : Mesh) → Even m (reap_stale ps m)
unfolding reap_stale reap_one
reap_stale-Even [] m = quiet m
reap_stale-Even (p ∷ ps) m =
    then_step m (reap_one p m) (reap_stale ps (reap_one p m).0)
      (Even-if m (is_stale (lookup p.node_id m.conns) p) _ _
        (drop_link-Even (lookup p.node_id m.conns) p m) (quiet m))
      (reap_stale-Even ps (reap_one p m).0)

pub auto_connect-Even : (ps : List Peer) (m : Mesh) → Even m (auto_connect ps m)
unfolding auto_connect auto_one
auto_connect-Even [] m = quiet m
auto_connect-Even (p ∷ ps) m =
    then_step m (auto_one p m) (auto_connect ps (auto_one p m).0)
      (Even-if m _ _ _ (connect-Even p m) (quiet m)) (auto_connect-Even ps (auto_one p m).0)

pub poll-Even : (o : Option (List Peer)) (m : Mesh) → Even m (poll o m)
unfolding poll
poll-Even none m = quiet m
poll-Even (some peers) m =
    then_step m (reap_stale peers m) (auto_connect peers (reap_stale peers m).0)
      (reap_stale-Even peers m) (auto_connect-Even peers (reap_stale peers m).0)

pub accept-Even :
    (o : Option (Bytes × Bytes)) (c : ℕ) (remote : Bytes) (m : Mesh) → Even m (accept o c remote m)
unfolding accept add_conn
accept-Even none c remote m = quiet m
accept-Even (some (id, incarnation)) c remote m = quiet m

pub handle_inbound-Even :
    (c : ℕ) (remote : Bytes) (o : Option Bytes) (m : Mesh) → Even m (handle_inbound c remote o m)
unfolding handle_inbound
handle_inbound-Even c remote none m = quiet m
handle_inbound-Even c remote (some line) m = accept-Even _ c remote m

pub chat_sent-Even :
    (o : Option Bytes) (c : ℕ) (id said : Bytes) (m : Mesh) → Even m (chat_sent o c id said m)
unfolding chat_sent remove_conn
chat_sent-Even none c id said m = quiet m
chat_sent-Even (some err) c id said m = quiet m

pub chat_over-Even :
    (o : Option PeerConn) (id said : Bytes) (write : ℕ → Option Bytes) (m : Mesh)
    → Even m (chat_over o id said write m)
unfolding chat_over
chat_over-Even none id said write m = quiet m
chat_over-Even (some pc) id said write m = chat_sent-Even (write pc.conn) pc.conn id said m

pub one_sent-Even :
    (o : Option Bytes) (pc : PeerConn) (said : Bytes) (m : Mesh) → Even m (one_sent o pc said m)
unfolding one_sent remove_conn
one_sent-Even none pc said m = quiet m
one_sent-Even (some err) pc said m = quiet m

pub send_all-Even :
    (conns : Map PeerConn) (said : Bytes) (write : ℕ → Option Bytes) (m : Mesh)
    → Even m (send_all conns said write m)
unfolding send_all send_one
send_all-Even [] said write m = quiet m
send_all-Even ((id, pc) ∷ conns) said write m =
    then_step m (send_one pc said write m) (send_all conns said write (send_one pc said write m).0)
      (one_sent-Even (write pc.conn) pc said m)
      (send_all-Even conns said write (send_one pc said write m).0)

pub broadcast_to-Even :
    (conns : Map PeerConn) (said : Bytes) (write : ℕ → Option Bytes) (m : Mesh)
    → Even m (broadcast_to conns said write m)
unfolding broadcast_to
broadcast_to-Even [] said write m = quiet m
broadcast_to-Even (e ∷ conns) said write m =
    then_step m (send_all (e ∷ conns) said write m) ((send_all (e ∷ conns) said write m).0, _)
      (send_all-Even (e ∷ conns) said write m) (quiet (send_all (e ∷ conns) said write m).0)

pub count-punches : (k : Bytes) (cs : List Bytes) → count k (spawned (punches cs)) ≡ 0
count-punches k [] = refl
count-punches k (c ∷ cs) = count-punches k cs

pub respond_to_punch-Even :
    (resolves : Bytes → Bool) (s : Signal) (m : Mesh) → Even m (respond_to_punch resolves s m)
unfolding respond_to_punch
respond_to_punch-Even resolves s m =
    Even-if m (is_some (lookup s.from_node_id m.conns)) _ _ (quiet m)
      (λ k. omega (arith, count-punches k (resolved resolves _)))

pub count-closings : (k : Bytes) (conns : Map PeerConn) → count k (spawned (closings conns)) ≡ 0
unfolding closings
count-closings k [] = refl
count-closings k ((id, pc) ∷ conns) = count-closings k conns
