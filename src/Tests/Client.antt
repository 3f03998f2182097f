-- ===== src/Tests/Client.antt =====
-- The client's table of links, and its interface.
use quicmeshpoc.Common.{
  ℕ, Bytes, List, true, false, [], ◌∷◌, ◌++◌, Option, none, some, text, lookup, str_eq, ◌≡◌, ◌==◌,
  if◌then◌else◌, refl, arith,
}
use quicmeshpoc.Protocol.{Peer}
use quicmeshpoc.Mesh.State.{connected, PeerConn, Mesh, emit, chat_msg}
use quicmeshpoc.Mesh.Dial.{conn, failure, dial_first, dial_first_lem}
use quicmeshpoc.Mesh.Links.{linked, dial_peer, poll}
use quicmeshpoc.Mesh.Listen.{Outcome}
use quicmeshpoc.Mesh.Loops.{Attempt, signals_stream_loop}
use quicmeshpoc.Mesh.Backoff.{next_backoff, backoff_after, backoff_after_failures}
use quicmeshpoc.Mesh.Chat.{read_strings, heard}
use quicmeshpoc.Mesh.Chat.Lines.{sent_lines, heard-sent_lines}
use quicmeshpoc.Mesh.Flights.{Client, Slice, connects, adds, lands, slices}
use quicmeshpoc.Mesh.Flights.Single.{slices-Single}
use quicmeshpoc.Mesh.Start.{fresh_mesh}
use quicmeshpoc.Mesh.Flights.Even.{count, mark}
use quicmeshpoc.Tui.{broadcast_row, send_to, Model, TextInput, key, active_peer, broadcast_id}
use quicmeshpoc.Common.{trim_space}
use quicmeshpoc.Tui.Keys.{new_model, update, input_enter, peer_of}
use quicmeshpoc.Tui.Invariant.{Inv, new_model-Inv, update-Inv}
use quicmeshpoc.Tui.Send.{input_enter_lem, user_link_kept}
use quicmeshpoc.Tests.Data.{ann, bob, cyd, addr_of}

abbrev peer : Bytes → ℕ → Peer
peer id incarnation = record {
  node_id = id;
  addr = addr_of id;
  local_addrs = [];
  incarnation = incarnation ∷ [];
}

abbrev link : Bytes → ℕ → ℕ → PeerConn
link id incarnation c = record { node_id = id; incarnation = incarnation ∷ []; conn = c }

-- Ann, with links to bob and cyd.
abbrev linked_ann : Mesh
linked_ann = record {
  node_id = ann;
  incarnation = b'0' ∷ [];
  conns = (bob, link bob b'1' 4) ∷ (cyd, link cyd b'1' 5) ∷ [];
  dialing = [];
}

dial_first_lem_example :
    dial_first (ann ∷ bob ∷ []) (failure cyd ∷ conn 3 ∷ conn 4 ∷ []) ≡ (conn 3, 4 ∷ [])
dial_first_lem_example = dial_first_lem (ann ∷ bob ∷ []) (failure cyd ∷ conn 3 ∷ conn 4 ∷ [])

backoff_after_failures_example : backoff_after (1 ∷ 2 ∷ []) 0 ≡ 500000000
backoff_after_failures_example = backoff_after_failures 1 (2 ∷ []) (omega arith, (omega arith, tt))

heard-sent_lines_example :
    heard bob (read_strings [] (sent_lines (ann ∷ cyd ∷ []) ++ b'x' ∷ []))
    ≡ emit (chat_msg bob bob ann) ∷ emit (chat_msg bob bob cyd) ∷ []
heard-sent_lines_example =
    heard-sent_lines bob (b'x' ∷ []) (ann ∷ cyd ∷ [])
      (((λ e. cc), refl, refl), (((λ e. cc), refl, refl), tt)) refl

-- The connection to bob does not take the line.
abbrev writing : ℕ → Option Bytes
writing c = if c == 4 then some [] else none

-- A text box that holds a text and takes every key as one more letter.
abbrev letters_box : TextInput Bytes Unit
letters_box = record {
  value = λ i. i;
  set_value = λ s i. s;
  set_width = λ n i. i;
  focused = λ i. i;
  blurred = λ i. i;
  take_key = λ k i. i ++ k;
  take_other = λ o i. i;
}

abbrev started : Model Bytes
started = new_model letters_box ann cyd

new_model-Inv_started : Inv started
new_model-Inv_started = new_model-Inv letters_box ann cyd

update-Inv_example : Inv (update letters_box (key (text "enter")) started).0
update-Inv_example = update-Inv letters_box (key (text "enter")) started new_model-Inv_started

-- Bob is connected, and the cursor is on the row of bob.
abbrev with_bob : Model Bytes
with_bob = record started {
  states = (bob, connected) ∷ [];
  peers =
      broadcast_row ∷ record { node_id = bob; addr = []; local_addrs = []; state = connected } ∷ [];
  cursor = 1;
}

input_enter_lem_example : (input_enter letters_box with_bob).1 ≡ send_to bob cyd ∷ []
unfolding active_peer str_eq lookup broadcast_id trim_space new_model
input_enter_lem_example = (input_enter_lem letters_box with_bob bob).0

user_link_kept_example :
    lookup bob
      (poll
        (some (peer bob b'2' ∷ []))
        (dial_peer
          (peer_of (record { node_id = bob; addr = []; local_addrs = []; state = connected }))
          (linked 9)
          linked_ann).0).0.conns
    ≡ some (record { node_id = bob; incarnation = []; conn = 9 })
user_link_kept_example =
    user_link_kept (record { node_id = bob; addr = []; local_addrs = []; state = connected }) 9
      (peer bob b'2' ∷ []) linked_ann

-- A dial is asked for twice, finds a connection, and ends.
abbrev one_dial : List Slice
one_dial = connects (peer bob b'2') ∷ connects (peer bob b'2') ∷ adds 0 7 ∷ lands 0 ∷ []

abbrev fresh_client : Client
fresh_client = record { mesh = fresh_mesh ann []; flights = [] }

slices-Single_example :
    count bob (slices one_dial fresh_client).flights ≡ mark bob (slices one_dial fresh_client).mesh
unfolding lookup
slices-Single_example = slices-Single one_dial fresh_client (λ k. refl) bob

-- A stream that cannot be opened, and one that is up for six seconds while nothing comes.
abbrev attempts : List Attempt
attempts =
    record {
      response = Outcome.failure [];
      ending = none;
      elapsed = 7;
      table = linked_ann;
      cancelled = false;
    }
    ∷ record {
      response = Outcome.answer 200 [] [];
      ending = none;
      elapsed = 6000000000;
      table = linked_ann;
      cancelled = false;
    }
    ∷ record {
      response = Outcome.failure [];
      ending = none;
      elapsed = 7;
      table = linked_ann;
      cancelled = true;
    }
    ∷ []

-- The second attempt waits for a quarter of a second, the third not at all.
signals_stream_loop_run :
    (signals_stream_loop (λ a. true) (λ s. none) 0 attempts).pauses ≡ 0 ∷ 250000000 ∷ 0 ∷ []
unfolding signals_stream_loop next_backoff
signals_stream_loop_run = refl
