-- ===== src/System/Conversation/Seen.antt =====
-- The pane of the peer in cmd/quicchat/tui.go behind readLoopReader of cmd/quicchat/mesh.go.
use mathlib.Core.List.{Perm, map, append_assoc, append-nil}
use mathlib.Core.List.Perm
use quicmeshpoc.Common.{
  ℕ, Bytes, false, List, [], ◌∷◌, ◌++◌, Option, none, some, All, contains, str_eq, str_eq_iff,
  str_eq_sym, lookup, ◌≡◌, sym, subst, ap, ◌∙◌, arith,
}
use quicmeshpoc.Mesh.State.{Mesh, PeerConn, Effect, emit}
use quicmeshpoc.Mesh.Chat.{heard, read_strings}
use quicmeshpoc.Mesh.Chat.Lines.{messages, heard-sent_lines}
use quicmeshpoc.Tui.{Model, TextInput, from_mesh, broadcast_id, append_line, add_chat}
use quicmeshpoc.Tui.Keys.{update}
use quicmeshpoc.Tui.Send.{lines_of, lines_of-append_line}
use quicmeshpoc.System.Conversation.{carry_all, bytes_on, texts_of, to_peer, me, said_by}
use quicmeshpoc.System.Conversation.Writes.{
  all_lines-Perm, All-IsLine, texts_of-to_peer, bytes_on-carry_all,
}
use quicmeshpoc.System.Conversation.Typing.{
  typed, texts, OneLine, all_lines-texts, Talks, typed_lem,
}

module _ {I O : Type 0} (box : TextInput I O) where
  -- The interface with the messages of the effects.
  abbrev pub shown : List Effect → Model I → Model I
  shown [] m = m
  shown (emit msg ∷ fx) m = shown fx (update box (from_mesh msg) m).0
  shown (_ ∷ fx) m = shown fx m

  lines_of-add_chat :
      (a t : Bytes) (m : Model I)
      → str_eq a broadcast_id ≡ false
      → str_eq a m.node_id ≡ false
      → lines_of a (add_chat a a t m).chats ≡ lines_of a m.chats ++ said_by a t ∷ []
  unfolding add_chat
  lines_of-add_chat a t m e f =
      rw (e, f)
        (lines_of-append_line broadcast_id a (said_by a t) (append_line a (said_by a t) m.chats)
          ∙ ground (
            arith,
            e,
            str_eq_sym broadcast_id a,
            lines_of-append_line a a (said_by a t) m.chats,
            str_eq_iff a a,
          ))

  lines_of-shown :
      (a : Bytes) (ts : List Bytes) (m : Model I)
      → str_eq a broadcast_id ≡ false
      → str_eq a m.node_id ≡ false
      → lines_of a (shown (messages a ts) m).chats ≡ lines_of a m.chats ++ map (said_by a) ts
  unfolding update
  lines_of-shown a [] m e f = sym (append-nil (lines_of a m.chats))
  lines_of-shown a (t ∷ ts) m e f =
      lines_of-shown a ts (add_chat a a t m) e (unfold add_chat in f)
      ∙ ap (λ (ls : List Bytes). ls ++ map (said_by a) ts) (lines_of-add_chat a t m e f)
      ∙ append_assoc (lines_of a m.chats) (said_by a t ∷ []) (map (said_by a) ts)

-- A user types texts to a connected peer, pressing Enter behind each, and the peer's reader
-- gets what the calls of SendChat write. The user's own pane grows by each text that is not blank,
-- without the space around it, in order. The peer's pane for that user grows by one line for each,
-- under the user's name, in the order in which the goroutines of SendChat write, whatever it
-- is; what stands behind the last line on the stream shows nothing. The texts have no newline, the
-- link takes every write, and neither name is the one that stands for all peers, or that of
-- the peer itself or empty.
pub conversation :
    {I O I' O' : Type 0} (box : TextInput I O) (box' : TextInput I' O') (write : ℕ → Option Bytes)
    (a b tail : Bytes) (is : List I) (order : List Bytes) (m : Model I) (m' : Model I')
    (mesh : Mesh) (pc : PeerConn)
    → Talks box b m
    → str_eq b broadcast_id ≡ false
    → str_eq b [] ≡ false
    → All (OneLine box) is
    → lookup b mesh.conns ≡ some pc
    → write pc.conn ≡ none
    → Perm order (texts_of (typed box is m).1)
    → contains b'\n' tail ≡ false
    → str_eq a broadcast_id ≡ false
    → str_eq a m'.node_id ≡ false
    → let bytes = bytes_on pc.conn (carry_all write (to_peer b order) mesh).1 in
      let seen = shown box' (heard a (read_strings [] (bytes ++ tail))) m' in
      (lines_of b (typed box is m).0.chats ≡ lines_of b m.chats ++ map me (texts box is))
      × (lines_of a seen.chats ≡ lines_of a m'.chats ++ map (said_by a) order)
      × Perm (map (said_by a) order) (map (said_by a) (texts box is))
conversation box box' write a b tail is order m m' mesh pc h real named fits linked ok p cut e f =
    let typing = typed_lem box b real named is m h in
    let sent : texts_of (typed box is m).1 ≡ texts box is =
      ap texts_of typing.0 ∙ texts_of-to_peer b (texts box is) in
    let q : Perm order (texts box is) = subst (Perm order) sent p in
    let lines = All-IsLine order (all_lines-Perm q ∙ all_lines-texts box is fits) in
    (
      typing.1,
      ap (λ (s : Bytes). lines_of a (shown box' (heard a (read_strings [] (s ++ tail))) m').chats)
            (bytes_on-carry_all write b pc mesh linked ok order)
          ∙ ap (λ (fx : List Effect). lines_of a (shown box' fx m').chats)
              (heard-sent_lines a tail order lines cut)
          ∙ lines_of-shown box' a order m' e f,
      Perm.map (said_by a) q,
    )
