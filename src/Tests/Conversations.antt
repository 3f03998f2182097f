-- ===== src/Tests/Conversations.antt =====
-- Ann types to bob, and the second line is written first.
use mathlib.Core.List.Perm
use quicmeshpoc.Common.{
  Bytes, List, [], ◌∷◌, ◌++◌, none, lookup, str_eq, text, trim_space, ◌≡◌, refl,
}
use quicmeshpoc.Mesh.State.{Mesh, PeerConn, connected}
use quicmeshpoc.Mesh.Chat.{heard, read_strings}
use quicmeshpoc.Tui.{Model, TextInput, broadcast_id, broadcast_row, focus_input, active_peer}
use quicmeshpoc.Tui.Send.{lines_of}
use quicmeshpoc.Tui.Keys.{update, handle_key, panel_key, input_enter}
use quicmeshpoc.System.Conversation.{carry_all, bytes_on, to_peer, said_by}
use quicmeshpoc.System.Conversation.Typing.{Talks}
use quicmeshpoc.System.Conversation.Seen.{shown, conversation}
use quicmeshpoc.Tests.Data.{ann, bob, cyd}

abbrev letters_box : TextInput Bytes Unit
letters_box = record {
  value = λ i. i;
  set_value = λ s i. s;
  set_width = λ n i. i;
  focused = λ i. i;
  blurred = λ i. i;
  take_key = λ k i. i ++ k;
  take_other = λ o i. i;
}

-- The model of a node that writes to another.
abbrev writes_to : Bytes → Bytes → Model Bytes
writes_to a b = record {
  node_id = a;
  peers =
      broadcast_row ∷ record { node_id = b; addr = []; local_addrs = []; state = connected } ∷ [];
  states = (b, connected) ∷ [];
  chats = [];
  cursor = 1;
  focus = focus_input;
  input = [];
  status = [];
  width = 0;
  height = 0;
}

abbrev to_bob : PeerConn
to_bob = record { node_id = bob; incarnation = []; conn = 4 }

abbrev mesh : Mesh
mesh = record { node_id = ann; incarnation = []; conns = (bob, to_bob) ∷ []; dialing = [] }

-- A text with space around it, a blank one, and another text.
abbrev inputs : List Bytes
inputs = (b' ' ∷ cyd) ∷ (b' ' ∷ []) ∷ ann ∷ []

writing : Talks letters_box bob (writes_to ann bob)
unfolding active_peer lookup str_eq
writing = record { writing = refl; on_row = refl; linked = refl }

conversation_example :
    lines_of ann
      (shown letters_box
        (heard ann (
          read_strings [] (
            bytes_on 4 (carry_all (λ c. none) (to_peer bob (ann ∷ cyd ∷ [])) mesh).1 ++ b'x' ∷ [])))
        (writes_to bob ann)).chats
    ≡ said_by ann ann ∷ said_by ann cyd ∷ []
unfolding lookup str_eq broadcast_id trim_space text active_peer update handle_key panel_key
    input_enter
conversation_example =
    (conversation letters_box letters_box (λ c. none) ann bob (b'x' ∷ []) inputs (ann ∷ cyd ∷ [])
      (writes_to ann bob) (writes_to bob ann) mesh to_bob writing refl refl
      (refl, (refl, (refl, tt))) refl refl (Perm.swap cyd ann []) refl refl refl).1
