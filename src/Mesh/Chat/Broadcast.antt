-- ===== src/Mesh/Chat/Broadcast.antt =====
-- What SendChat and SendBroadcast reach.
use quicmeshpoc.Common.{
  ℕ, Bytes, Bool, false, ◌&&◌, ◌||◌, List, [], ◌∷◌, ◌++◌, Option, none, is_some, lookup, Map,
  str_eq, lookup-delete, if◌then◌else◌, ◌≡◌, refl, arith, ap, ◌∙◌, inl, inr, Option-cases,
}
use quicmeshpoc.Mesh.State.{
  PeerConn, Mesh, Effect, emit, close_conn, spawn_dial, punch, report_handoff, write_to,
}
use quicmeshpoc.Mesh.Chat.{send_one, one_sent, send_all, broadcast_to, send_broadcast, sent_line}
use quicmeshpoc.Mesh.Links.{status}
use mathlib.Core.List.{append-nil}

-- Every link stands under the name of its peer.
abbrev pub Named : Map PeerConn → Type 0
Named [] = Unit
Named ((id, pc) ∷ conns) = (id ≡ pc.node_id) × Named conns

-- The bytes written, with the connections.
abbrev pub writes : List Effect → List (ℕ × Bytes)
writes [] = []
writes (write_to c s ∷ fx) = (c, s) ∷ writes fx
writes (_ ∷ fx) = writes fx

-- One copy of a text for every link.
abbrev pub copies : Bytes → Map PeerConn → List (ℕ × Bytes)
copies s [] = []
copies s ((id, pc) ∷ conns) = (pc.conn, s) ∷ copies s conns

-- Whether the write to one of the links with this name fails.
abbrev pub fails : Bytes → (ℕ → Option Bytes) → Map PeerConn → Bool
fails k write [] = false
fails k write ((id, pc) ∷ conns) = (str_eq id k && is_some (write pc.conn)) || fails k write conns

writes-append : (fx gx : List Effect) → writes (fx ++ gx) ≡ writes fx ++ writes gx
writes-append [] gx = refl
writes-append (write_to c s ∷ fx) gx = ap (◌∷◌ (c, s)) (writes-append fx gx)
writes-append (emit e ∷ fx) gx = writes-append fx gx
writes-append (close_conn c s ∷ fx) gx = writes-append fx gx
writes-append (spawn_dial p ∷ fx) gx = writes-append fx gx
writes-append (punch a ∷ fx) gx = writes-append fx gx
writes-append (report_handoff id ∷ fx) gx = writes-append fx gx

send_one_lem :
    (pc : PeerConn) (said k : Bytes) (write : ℕ → Option Bytes) (m : Mesh)
    → (writes (send_one pc said write m).1 ≡ (pc.conn, sent_line said) ∷ [])
      × (lookup k (send_one pc said write m).0.conns
          ≡ (if str_eq pc.node_id k && is_some (write pc.conn) then none else lookup k m.conns))
unfolding send_one one_sent
send_one_lem pc said k write m = elim (Option-cases (write pc.conn)) [
  | inl e ↦ rw e (refl, ground arith)
  | inr (err, e) ↦ rw e (refl, ground (arith, lookup-delete pc.node_id k m.conns))
]

send_all_lem :
    (conns : Map PeerConn) (said k : Bytes) (write : ℕ → Option Bytes) (m : Mesh)
    → Named conns
    → (writes (send_all conns said write m).1 ≡ copies (sent_line said) conns)
      × (lookup k (send_all conns said write m).0.conns
          ≡ (if fails k write conns then none else lookup k m.conns))
unfolding send_all
send_all_lem [] said k write m h = (refl, refl)
send_all_lem ((id, pc) ∷ conns) said k write m h =
    let one = send_one_lem pc said k write m in
    let rest = send_all_lem conns said k write (send_one pc said write m).0 h.1 in
    (
      writes-append (send_one pc said write m).1
            (send_all conns said write (send_one pc said write m).0).1
          ∙ rw (one.0, rest.0) refl,
      ground (arith, one.1, rest.1, h.0),
    )

broadcast_to_lem :
    (conns : Map PeerConn) (said k : Bytes) (write : ℕ → Option Bytes) (m : Mesh)
    → Named conns
    → (writes (broadcast_to conns said write m).1 ≡ copies (sent_line said) conns)
      × (lookup k (broadcast_to conns said write m).0.conns
          ≡ (if fails k write conns then none else lookup k m.conns))
unfolding broadcast_to
broadcast_to_lem [] said k write m h = (refl, refl)
broadcast_to_lem (e ∷ conns) said k write m h =
    let all = send_all_lem (e ∷ conns) said k write m h in
    (
      writes-append (send_all (e ∷ conns) said write m).1 (status _ ∷ [])
          ∙ append-nil (writes (send_all (e ∷ conns) said write m).1)
          ∙ all.0,
      all.1,
    )

-- A broadcast writes one copy of the line to every link, in whatever order the links are
-- visited, and loses exactly the links whose write fails.
pub send_broadcast_lem :
    (said k : Bytes) (write : ℕ → Option Bytes) (m : Mesh)
    → Named m.conns
    → (writes (send_broadcast said write m).1 ≡ copies (sent_line said) m.conns)
      × (lookup k (send_broadcast said write m).0.conns
          ≡ (if fails k write m.conns then none else lookup k m.conns))
unfolding send_broadcast
send_broadcast_lem said k write m h = broadcast_to_lem m.conns said k write m h
