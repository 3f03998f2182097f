-- ===== src/Mesh/Run/Loops.antt =====
-- The table of links through the loops of cmd/quicchat/mesh.go.
use quicmeshpoc.Common.{Bytes, List, [], ◌∷◌, Option, none, some}
use quicmeshpoc.Protocol.{RegisterResponse, PeersResponse}
use quicmeshpoc.Mesh.State.{Mesh}
use quicmeshpoc.Mesh.Listen.{Outcome, Result, register_round, peers_round, roster, fetch}
use quicmeshpoc.Mesh.Loops.{register_loop, peers_loop, Accepted, accept_loop}
use quicmeshpoc.Mesh.Run.{polls, accepts, move}
use quicmeshpoc.Mesh.Run.Invariant.{Inv, move-Inv}

register_loop-Inv :
    (decode : Bytes → Result RegisterResponse) (outs : List Outcome) (m : Mesh)
    → Inv m
    → Inv (register_loop decode outs m).0
unfolding register_loop
register_loop-Inv decode [] m v = v
register_loop-Inv decode (out ∷ outs) m v =
    unfold register_round in register_loop-Inv decode outs m v

peers_loop-Inv :
    (decode : Bytes → Result PeersResponse) (path : Bytes) (outs : List Outcome) (m : Mesh)
    → Inv m
    → Inv (peers_loop decode path outs m).0
unfolding peers_loop peers_round move
peers_loop-Inv decode path [] m v = v
peers_loop-Inv decode path (out ∷ outs) m v =
    peers_loop-Inv decode path outs _ (move-Inv (polls (roster (fetch decode path out))) m v)

accept_loop-Inv :
    (arrivals : List (Option Accepted)) (m : Mesh) → Inv m → Inv (accept_loop arrivals m).0
unfolding accept_loop move
accept_loop-Inv [] m v = v
accept_loop-Inv (none ∷ arrivals) m v = v
accept_loop-Inv (some i ∷ arrivals) m v =
    accept_loop-Inv arrivals _ (move-Inv (accepts i.conn i.remote i.line) m v)
