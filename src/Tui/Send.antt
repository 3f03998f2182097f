-- ===== src/Tui/Send.antt =====
-- What Enter sends.
use quicmeshpoc.Common.{
  ℕ, Bytes, Bool, false, not, ◌&&◌, List, [], ◌∷◌, ◌++◌, some, get_or, str_eq, str_eq_iff, lookup,
  lookup-insert, Map, if◌then◌else◌, ◌≡◌, refl, arith, text, trim_space,
}
use quicmeshpoc.Protocol.{Peer}
use quicmeshpoc.Mesh.State.{ConnState, Mesh}
use quicmeshpoc.Mesh.Names.{incarnation_changed}
use quicmeshpoc.Mesh.Links.{dial_peer, linked, poll}
use quicmeshpoc.Mesh.Links.Poll.{shows_restart, poll_lem}
use quicmeshpoc.Mesh.Links.Table.{dial_peer_lem}
use quicmeshpoc.Tui.{
  Model, TextInput, send_to, send_to_all, broadcast_id, state_of, is_connected, broadcast_state,
  active_peer, append_line, PeerView,
}
use quicmeshpoc.Tui.Keys.{input_enter, peer_of}
use quicmeshpoc.Tui.Rows.{broadcast_state-connected_count}

-- The indicator of the active row.
abbrev pub indicator : Bytes → Map ConnState → ConnState
indicator id states = if str_eq id broadcast_id then broadcast_state states else state_of id states

-- Whether there is a text to send and somebody to send it to.
abbrev pub can_send : {I O : Type 0} → TextInput I O → Model I → Bool
can_send box m =
    not (str_eq (trim_space (box.value m.input)) [])
    && not (str_eq (active_peer m) [])
    && is_connected (indicator (active_peer m) m.states)

-- The lines shown for a peer.
abbrev pub lines_of : Bytes → Map (List Bytes) → List Bytes
lines_of id chats = get_or (lookup id chats) []

pub lines_of-append_line :
    (id k line : Bytes) (chats : Map (List Bytes))
    → lines_of k (append_line id line chats)
      ≡ (if str_eq id k then lines_of k chats ++ line ∷ [] else lines_of k chats)
unfolding append_line
lines_of-append_line id k line chats =
    ground
      (arith, lookup-insert id k (get_or (lookup id chats) [] ++ line ∷ []) chats, str_eq_iff id k)

broadcast_id_named : str_eq broadcast_id [] ≡ false
unfolding broadcast_id str_eq
broadcast_id_named = refl

module _ {I O : Type 0} (box : TextInput I O) where
  -- Enter sends the text without the space around it, once, to the active row, exactly if it is
  -- not blank and the row's indicator shows connected; it then stands once in that row's chat, and
  -- the box is emptied. Else nothing is sent, and the box and the chats stay as they are.
  pub input_enter_lem :
      (m : Model I) (k : Bytes)
      → let said = trim_space (box.value m.input) in
        let peer = active_peer m in
        let r = input_enter box m in
        (r.1 ≡ (
          if not (can_send box m)
          then []
          else if str_eq peer broadcast_id
          then send_to_all said ∷ []
          else send_to peer said ∷ []))
        × (r.0.input ≡ (if can_send box m then box.set_value [] m.input else m.input))
        × (lines_of k r.0.chats ≡ (
            if can_send box m && str_eq peer k
            then lines_of k m.chats ++ (text "me: " ++ said) ∷ []
            else lines_of k m.chats))
  unfolding input_enter
  input_enter_lem m k =
      let said = trim_space (box.value m.input) in
      let peer = active_peer m in
      ground (
        arith,
        broadcast_state-connected_count m.states,
        broadcast_id_named,
        str_eq_iff peer broadcast_id,
        lines_of-append_line broadcast_id k (text "me: " ++ said) m.chats,
        lines_of-append_line peer k (text "me: " ++ said) m.chats,
      )

shows_restart_unknown :
    (k id : Bytes) (c : ℕ) (ps : List Peer)
    → shows_restart k (some (record { node_id = id; incarnation = []; conn = c })) ps ≡ false
unfolding incarnation_changed
shows_restart_unknown k id c [] = refl
shows_restart_unknown k id c (p ∷ ps) =
    ground (arith, shows_restart_unknown k id c ps, str_eq_iff [] [])

-- A link that the user made, from a row of the sidebar, outlives a restart of the peer: whatever
-- roster comes next, with whatever incarnation of the peer, the round keeps that link.
pub user_link_kept :
    (v : PeerView) (c : ℕ) (peers : List Peer) (m : Mesh)
    → lookup v.node_id (poll (some peers) (dial_peer (peer_of v) (linked c) m).0).0.conns
      ≡ some (record { node_id = v.node_id; incarnation = []; conn = c })
user_link_kept v c peers m =
    let made = (dial_peer_lem (peer_of v) (linked c) m v.node_id).1 in
    let kept = (poll_lem peers (dial_peer (peer_of v) (linked c) m).0 v.node_id).0 in
    ground (
      arith,
      made,
      kept,
      str_eq_iff v.node_id v.node_id,
      shows_restart_unknown v.node_id v.node_id c peers,
    )
