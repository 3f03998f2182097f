-- ===== src/Tui/Rows.antt =====
-- The rows of the sidebar: their order and what is in them.
use quicmeshpoc.Common.{
  ℕ, ◌+◌, Bytes, Bool, false, not, ◌&&◌, List, [], ◌∷◌, str_eq, str_lt, lookup-insert, Map,
  if◌then◌else◌, ◌==◌, ◌≡◌, refl, arith,
}
use quicmeshpoc.Mesh.State.{ConnState, disconnected, connecting}
use quicmeshpoc.Tui.{
  PeerView, Model, state_of, is_connected, is_connecting, connected_count, broadcast_state,
  aggregate, set_peer_state, apply_states,
}

-- No row is before a row with a smaller name.
abbrev pub Sorted : List PeerView → Type 0
Sorted [] = Unit
Sorted (v ∷ []) = Unit
Sorted (v ∷ w ∷ ws) = (str_lt w.node_id v.node_id ≡ false) × Sorted (w ∷ ws)

-- How many of the rows pass a test.
abbrev pub count : (PeerView → Bool) → List PeerView → ℕ
count t [] = 0
count t (v ∷ vs) = (if t v then 1 else 0) + count t vs

-- A report of a peer's state is what is known of that peer from then on, except that a connected
-- peer stays connected when it is reported as connecting; nothing else is learned of other peers.
pub set_peer_state_lem :
    {I : Type 0} (id k : Bytes) (st : ConnState) (m : Model I)
    → state_of k (set_peer_state id st m).states ≡ (
        if str_eq id k && not (is_connecting st && is_connected (state_of id m.states))
        then st
        else state_of k m.states)
unfolding set_peer_state apply_states
set_peer_state_lem id k st m = ground (arith, lookup-insert id k st m.states)

aggregate-connected_count :
    (best : ConnState) (states : Map ConnState)
    → is_connected best ≡ false
    → is_connected (aggregate best states) ≡ not (connected_count states == 0)
unfolding aggregate connected_count
aggregate-connected_count best [] h = h
aggregate-connected_count best ((id, st) ∷ states) h = ground (
  arith,
  aggregate-connected_count best states h,
  aggregate-connected_count connecting states refl,
)

-- The row for all peers is shown as connected exactly if at least one peer is counted as connected.
pub broadcast_state-connected_count :
    (states : Map ConnState)
    → is_connected (broadcast_state states) ≡ not (connected_count states == 0)
unfolding broadcast_state
broadcast_state-connected_count states = aggregate-connected_count disconnected states refl
