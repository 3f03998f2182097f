-- ===== src/Tui/Invariant.antt =====
-- What holds of the model at all times.
use quicmeshpoc.Common.{
  suc, ◌<◌, Bytes, Bool, true, false, List, [], ◌∷◌, str_eq, str_eq_refl, Map, length, All,
  if◌then◌else◌, ◌≡◌, refl, arith, ap, ◌∙◌, text,
}
use quicmeshpoc.Protocol.{Peer}
use quicmeshpoc.Mesh.State.{ConnState, Msg, peers_msg, state_msg, chat_msg, status_msg}
use quicmeshpoc.Tui.{
  PeerView, Model, TextInput, UiMsg, Command, quit, window_size, from_mesh, key, other, FocusArea,
  focus_sidebar, focus_input, broadcast_id, broadcast_row, state_of, insert_row, sort_rows,
  real_rows, merge_peers, stamp, set_peer_state, apply_states, add_chat, take_msg,
}
use quicmeshpoc.Tui.Keys.{
  new_model, toggle, sidebar_key, input_enter, panel_key, handle_key, update,
}

-- The row shows the state that is known of its peer.
abbrev pub Shows : Map ConnState → PeerView → Type 0
Shows states v =
    (if str_eq v.node_id broadcast_id then v.state else state_of v.node_id states) ≡ v.state

-- The row for all peers is the first, the cursor is on a row, and every row shows what is known.
pub record Inv {I : Type 0} (m : Model I) : Type 0 where
  pub rows : List PeerView
  pub pinned : m.peers ≡ broadcast_row ∷ rows
  pub in_bounds : m.cursor < length m.peers
  pub shown : All (Shows m.states) m.peers

Shows-broadcast_row : (states : Map ConnState) → Shows states broadcast_row
Shows-broadcast_row states = ground (arith, str_eq_refl broadcast_id)

Shows-insert_row :
    (states : Map ConnState) (v : PeerView) (ws : List PeerView)
    → Shows states v
    → All (Shows states) ws
    → All (Shows states) (insert_row v ws)
unfolding insert_row
Shows-insert_row states v [] h k = (h, tt)
Shows-insert_row states v (w ∷ ws) h k = ground (arith, Shows-insert_row states v ws h k.1)

Shows-sort_rows :
    (states : Map ConnState) (ps : List Peer) → All (Shows states) (sort_rows (real_rows states ps))
unfolding sort_rows real_rows
Shows-sort_rows states [] = tt
Shows-sort_rows states (p ∷ ps) =
    Shows-insert_row states _ _ (ground arith) (Shows-sort_rows states ps)

Shows-stamp : (states : Map ConnState) (vs : List PeerView) → All (Shows states) (stamp states vs)
unfolding stamp
Shows-stamp states [] = tt
Shows-stamp states (v ∷ vs) = (ground arith, Shows-stamp states vs)

stamp-pinned :
    (states : Map ConnState) (vs : List PeerView)
    → stamp states (broadcast_row ∷ vs) ≡ broadcast_row ∷ stamp states vs
unfolding stamp
stamp-pinned states vs = rw (str_eq_refl broadcast_id) refl

length-stamp : (states : Map ConnState) (vs : List PeerView) → length (stamp states vs) ≡ length vs
unfolding stamp
length-stamp states [] = refl
length-stamp states (v ∷ vs) = ap suc (length-stamp states vs)

module _ {I O : Type 0} (box : TextInput I O) where
  -- The program starts with the row for all peers alone.
  pub new_model-Inv : (node_id : Bytes) (input : I) → Inv (new_model box node_id input)
  unfolding new_model
  new_model-Inv node_id input = record {
    rows = [];
    pinned = refl;
    in_bounds = omega arith;
    shown = (Shows-broadcast_row [], tt);
  }

  -- A model with the same rows, states and cursor.
  same_rows :
      (m m' : Model I)
      → m'.peers ≡ m.peers
      → m'.states ≡ m.states
      → m'.cursor < length m.peers
      → Inv m
      → Inv m'
  same_rows m m' p s c h = record {
    rows = h.rows;
    pinned = p ∙ h.pinned;
    in_bounds = rw p c;
    shown = rw (p, s) h.shown;
  }

  merge_peers-Inv : (peers : List Peer) (m : Model I) → Inv m → Inv (merge_peers peers m)
  unfolding merge_peers
  merge_peers-Inv peers m h = record {
    rows = sort_rows (real_rows m.states peers);
    pinned = refl;
    in_bounds = ground arith;
    shown = (Shows-broadcast_row m.states, Shows-sort_rows m.states peers);
  }

  Inv-if :
      (b : Bool) (s t : Model I × List Command) → Inv s.0 → Inv t.0 → Inv (if b then s else t).0
  Inv-if true s t h k = h
  Inv-if false s t h k = k

  stamp-Inv :
      (m m' : Model I) → m'.peers ≡ stamp m'.states m.peers → m'.cursor ≡ m.cursor → Inv m → Inv m'
  stamp-Inv m m' p c h = record {
    rows = stamp m'.states h.rows;
    pinned = p ∙ ap (stamp m'.states) h.pinned ∙ stamp-pinned m'.states h.rows;
    in_bounds = rw (p, c, length-stamp m'.states m.peers) h.in_bounds;
    shown = rw p (Shows-stamp m'.states m.peers);
  }

  set_peer_state-Inv :
      (id : Bytes) (st : ConnState) (m : Model I) → Inv m → Inv (set_peer_state id st m)
  unfolding set_peer_state apply_states
  set_peer_state-Inv id st m h = stamp-Inv m _ (ground arith) (ground arith) h

  take_msg-Inv : (msg : Msg) (m : Model I) → Inv m → Inv (take_msg msg m)
  unfolding take_msg
  take_msg-Inv (peers_msg peers) m h = merge_peers-Inv peers m h
  take_msg-Inv (state_msg id st) m h = set_peer_state-Inv id st m h
  take_msg-Inv (chat_msg id from said) m h =
      unfold add_chat in same_rows m _ refl refl h.in_bounds h
  take_msg-Inv (status_msg line) m h = same_rows m _ refl refl h.in_bounds h

  toggle-Inv : (f : FocusArea) (m : Model I) → Inv m → Inv (toggle box f m)
  unfolding toggle
  toggle-Inv focus_sidebar m h = same_rows m _ refl refl h.in_bounds h
  toggle-Inv focus_input m h = same_rows m _ refl refl h.in_bounds h

  sidebar_key-Inv : (k : Bytes) (m : Model I) → Inv m → Inv (sidebar_key box k m).0
  unfolding sidebar_key
  sidebar_key-Inv k m h =
      let ok = h.in_bounds in same_rows m _ (ground arith) (ground arith) (ground arith) h

  input_enter-Inv : (m : Model I) → Inv m → Inv (input_enter box m).0
  unfolding input_enter
  input_enter-Inv m h =
      let ok = h.in_bounds in same_rows m _ (ground arith) (ground arith) (ground arith) h

  panel_key-Inv : (f : FocusArea) (k : Bytes) (m : Model I) → Inv m → Inv (panel_key box f k m).0
  unfolding panel_key
  panel_key-Inv focus_sidebar k m h = sidebar_key-Inv k m h
  panel_key-Inv focus_input k m h =
      let typed = record m { input = box.take_key k m.input } in
      Inv-if (str_eq k (text "enter")) (input_enter box m) (typed, []) (input_enter-Inv m h)
        (same_rows m typed refl refl h.in_bounds h)

  handle_key-Inv : (k : Bytes) (m : Model I) → Inv m → Inv (handle_key box k m).0
  unfolding handle_key
  handle_key-Inv k m h =
      Inv-if (str_eq k (text "ctrl+c")) (m, quit ∷ [])
        (if str_eq k (text "tab") then (toggle box m.focus m, []) else panel_key box m.focus k m) h
        (Inv-if (str_eq k (text "tab")) (toggle box m.focus m, []) (panel_key box m.focus k m)
          (toggle-Inv m.focus m h) (panel_key-Inv m.focus k m h))

  -- Whatever message arrives, a new size, an event of the mesh, a key or another, the row for all
  -- peers stays the first row, the cursor stays on a row, and every row of a peer shows the state
  -- known of it, if this was so before.
  pub update-Inv : (msg : UiMsg O) (m : Model I) → Inv m → Inv (update box msg m).0
  unfolding update
  update-Inv (window_size w height) m h = same_rows m _ refl refl h.in_bounds h
  update-Inv (from_mesh msg) m h = take_msg-Inv msg m h
  update-Inv (key k) m h = handle_key-Inv k m h
  update-Inv (other o) m h = same_rows m _ refl refl h.in_bounds h
