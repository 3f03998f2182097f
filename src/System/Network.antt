-- ===== src/System/Network.antt =====
-- Any number of clients of cmd/quicchat/mesh.go and the HELLO lines on their way between them, as a
-- step relation: rounds of peersLoop, dials that succeed or fail, HELLO lines that arrive, links that
-- end, and processes that start again, in any order.
pub mod Tables
pub mod Invariant
pub mod Steps
pub mod Arrivals
pub mod Rest
pub mod Broadcast
pub mod Keeps
pub mod Dialing
pub mod Answering
pub mod Progress
pub mod Lost
pub mod Replaced
use quicmeshpoc.Common.{
  ℕ, Bytes, Bool, true, false, not, ◌&&◌, ◌||◌, List, [], ◌∷◌, ◌++◌, Option, none, some, All,
  str_eq, lookup, is_plain, if◌then◌else◌, ◌≡◌, ◌≢◌, ◌⊎◌,
}
use quicmeshpoc.Protocol.{Peer}
use quicmeshpoc.Mesh.State.{Mesh, PeerConn}
use quicmeshpoc.Mesh.Names.{initiates}
use quicmeshpoc.Mesh.Links.{Dialed, linked, dial_peer, poll, end_reader}
use quicmeshpoc.Mesh.Links.Table.{has_link, is_dialing}
use quicmeshpoc.Mesh.Inbound.{hello_line, handle_inbound}
use quicmeshpoc.Mesh.Start.{fresh_mesh}

-- A HELLO that its sender has written and that handleInbound of the other end has not read.
pub record Hello : Type 0 where
  pub from : Bytes
  pub to : Bytes
  pub incarnation : Bytes

-- The client of each name, the HELLO lines on their way, and the pairs, the one that dials first, where
-- the dialed client has removed its link while the other had one, and no HELLO has come since.
-- The removal is by name: it happens when any connection of the pair ends at that client, an older one
-- that was replaced included (readLoopReader). `lost` changes no step.
pub record Net : Type 0 where
  pub clients : Bytes → Mesh
  pub wire : List Hello
  pub lost : Bytes → Bytes → Bool

abbrev pub update_client : (Bytes → Mesh) → Bytes → Mesh → Bytes → Mesh
update_client clients a m k = if str_eq a k then m else clients k

abbrev pub incarnation_of : Net → Bytes → Bytes
incarnation_of s k = (s.clients k).incarnation

-- Whether a client holds a link to a node under this incarnation.
abbrev pub held : Bytes → Option PeerConn → Bool
held i none = false
held i (some pc) = str_eq pc.incarnation i

abbrev pub holds : Bytes → Bytes → Mesh → Bool
holds k i m = held i (lookup k m.conns)

-- A roster with what the nodes that it lists are now.
abbrev pub IsCurrent : Net → List Peer → Type 0
IsCurrent s peers = All (λ (p : Peer). p.incarnation ≡ incarnation_of s p.node_id) peers

abbrev pub is_about : Bytes → Hello → Bool
is_about k h = str_eq h.from k || str_eq h.to k

-- The lines that the end of a process leaves.
abbrev pub without_node : Bytes → List Hello → List Hello
without_node k [] = []
without_node k (h ∷ wire) =
    let rest = without_node k wire in if is_about k h then rest else h ∷ rest

-- What the end of a reader for `y` at the client `x` does to `lost`.
abbrev pub lost_at : Net → Bytes → Bytes → Bytes → Bytes → Bool
lost_at s x y a b =
    if str_eq x a && str_eq y b
    then false
    else if str_eq y a && str_eq x b
    then has_link x (s.clients y)
    else s.lost a b

-- What a HELLO that arrives does.
abbrev pub found_by : Hello → (Bytes → Bytes → Bool) → Bytes → Bytes → Bool
found_by h lost a b = not (str_eq h.from a && str_eq h.to b) && lost a b

-- What a process that starts again does.
abbrev pub forgot : Bytes → (Bytes → Bytes → Bool) → Bytes → Bytes → Bool
forgot x lost a b = not (str_eq x a || str_eq x b) && lost a b

-- `links` is the end of a dial that a client made by itself, with the roster's entry of the time:
-- the connection is open, and the HELLO is written. `ends` is the end of a reader
-- at either end, of any connection to the node, at any time. The incarnation of a process
-- that starts again is one that no client knows.
pub data Step (s : Net) : Net → Type 0 where
  polls :
      (a : Bytes) (peers : List Peer)
      → IsCurrent s peers
      → Step s
          (record s { clients = update_client s.clients a (poll (some peers) (s.clients a)).0 })
  links :
      (a : Bytes) (p : Peer) (c : ℕ)
      → is_dialing p.node_id (s.clients a) ≡ true
      → initiates a p.node_id ≡ true
      → p.incarnation ≢ []
      → is_plain a ≡ true
      → is_plain (incarnation_of s a) ≡ true
      → a ≢ []
      → Step s (record {
        clients = update_client s.clients a (dial_peer p (linked c) (s.clients a)).0;
        wire = record { from = a; to = p.node_id; incarnation = incarnation_of s a } ∷ s.wire;
        lost = s.lost;
      })
  fails :
      (a : Bytes) (p : Peer) (err : Bytes)
      → Step s (record s {
        clients = update_client s.clients a (dial_peer p (Dialed.dial_failed err) (s.clients a)).0;
      })
  arrives :
      (before behind : List Hello) (h : Hello) (d : ℕ) (remote : Bytes)
      → s.wire ≡ before ++ h ∷ behind
      → Step s (record {
        clients =
            update_client s.clients h.to
              (handle_inbound d remote (some (hello_line h.from h.incarnation)) (s.clients h.to)).0;
        wire = before ++ behind;
        lost = found_by h s.lost;
      })
  ends :
      (a b err : Bytes)
      → Step s (record s {
        clients = update_client s.clients a (end_reader b err (s.clients a)).0;
        lost = lost_at s a b;
      })
  restarts :
      (a incarnation : Bytes)
      → incarnation ≢ []
      → ((b : Bytes) → holds a incarnation (s.clients b) ≡ false)
      → Step s (record {
        clients = update_client s.clients a (fresh_mesh a incarnation);
        wire = without_node a s.wire;
        lost = forgot a s.lost;
      })

pub data Reach (s : Net) : Net → Type 0 where
  here : Reach s s
  next : {t u : Net} → Reach s t → Step t u → Reach s u

-- Every client has just started, each with an incarnation.
pub record IsStart (s : Net) : Type 0 where
  pub fresh : (k : Bytes) → s.clients k ≡ fresh_mesh k (incarnation_of s k)
  pub given : (k : Bytes) → incarnation_of s k ≢ []
  pub quiet : s.wire ≡ []
  pub unlost : (a b : Bytes) → s.lost a b ≡ false
