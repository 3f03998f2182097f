-- ===== src/Tests/Networks.antt =====
-- Two clients that find each other, while all others only start.
use quicmeshpoc.Common.{
  Bytes, false, not, ◌&&◌, List, [], ◌∷◌, some, str_eq, str_lt, lookup, insert, delete, fields,
  text, ◌≡◌, refl,
}
use quicmeshpoc.Protocol.{Peer}
use quicmeshpoc.Mesh.Names.{initiates, incarnation_changed}
use quicmeshpoc.Mesh.Links.{
  connect, dial_peer, linked, poll, reap_stale, reap_one, auto_connect, auto_one, add_conn,
  end_reader, remove_conn,
}
use quicmeshpoc.Mesh.Inbound.{hello_line, handle_inbound, hello_names, accept}
use quicmeshpoc.Mesh.Start.{fresh_mesh}
use quicmeshpoc.System.Network.{
  Net, update_client, lost_at, polls, links, arrives, ends, Reach, here, next, IsStart,
}
use quicmeshpoc.System.Network.Keeps.{at_rest}
use quicmeshpoc.System.Network.Replaced.{cut, greeted, replaced_link_lost}
use quicmeshpoc.Mesh.Links.Table.{has_link}
use quicmeshpoc.Tests.Data.{ann, bob, cyd, addr_of}

abbrev all_start : Net
all_start = record { clients = λ k. fresh_mesh k (b'1' ∷ []); wire = []; lost = λ a b. false }

all_start-IsStart : IsStart all_start
all_start-IsStart = record {
  fresh = λ k. refl;
  given = λ k e. cc;
  quiet = refl;
  unlost = λ a b. refl;
}

abbrev entry : Bytes → Peer
entry id = record { node_id = id; addr = addr_of id; local_addrs = []; incarnation = b'1' ∷ [] }

abbrev asked : Net
asked = record all_start {
  clients =
      update_client all_start.clients ann (poll (some (entry bob ∷ [])) (all_start.clients ann)).0;
}

abbrev on_its_way : Net
on_its_way = record {
  clients =
      update_client asked.clients ann (dial_peer (entry bob) (linked 3) (asked.clients ann)).0;
  wire = record { from = ann; to = bob; incarnation = b'1' ∷ [] } ∷ [];
  lost = λ a b. false;
}

abbrev met : Net
met = record {
  clients =
      update_client on_its_way.clients bob
        (handle_inbound 4 [] (some (hello_line ann (b'1' ∷ []))) (on_its_way.clients bob)).0;
  wire = [];
  lost = λ a b. not (str_eq ann a && str_eq bob b) && false;
}

met-Reach : Reach all_start met
unfolding poll reap_stale reap_one auto_connect auto_one connect initiates str_eq str_lt lookup
    insert
met-Reach =
    next
      (next (next here (polls ann (entry bob ∷ []) (refl, tt)))
        (links ann (entry bob) 3 refl refl (λ e. cc) refl refl (λ e. cc)))
      (arrives [] [] (record { from = ann; to = bob; incarnation = b'1' ∷ [] }) 4 [] refl)

abbrev both : Bytes → List Peer
both k = entry ann ∷ entry bob ∷ []

-- Three clients, each of which dials those behind it.
abbrev in_pairs : List (Bytes × Bytes)
in_pairs = (ann, bob) ∷ (ann, cyd) ∷ (bob, cyd) ∷ []

-- Ann's link has ended at her end, and she has dialed again.
abbrev parted : Net
parted = record {
  clients = update_client met.clients ann (end_reader bob [] (met.clients ann)).0;
  wire = [];
  lost = lost_at met ann bob;
}

abbrev asked_again : Net
asked_again = record parted {
  clients = update_client parted.clients ann (poll (some (entry bob ∷ [])) (parted.clients ann)).0;
}

abbrev dialed_again : Net
dialed_again = record {
  clients =
      update_client asked_again.clients ann
        (dial_peer (entry bob) (linked 5) (asked_again.clients ann)).0;
  wire = record { from = ann; to = bob; incarnation = b'1' ∷ [] } ∷ [];
  lost = lost_at met ann bob;
}

dialed_again-Reach : Reach all_start dialed_again
unfolding poll reap_stale reap_one auto_connect auto_one connect initiates str_eq str_lt lookup
    insert delete dial_peer add_conn incarnation_changed handle_inbound hello_names accept fields
    hello_line text end_reader remove_conn
dialed_again-Reach =
    next (next (next met-Reach (ends ann bob [])) (polls ann (entry bob ∷ []) (refl, tt)))
      (links ann (entry bob) 5 refl refl (λ e. cc) refl refl (λ e. cc))

replaced_link_lost_example :
    has_link ann ((cut (greeted dialed_again ann bob [] 6 []) ann bob []).clients bob) ≡ false
unfolding poll reap_stale reap_one auto_connect auto_one connect initiates str_eq str_lt lookup
    insert delete dial_peer add_conn incarnation_changed handle_inbound hello_names accept fields
    hello_line text end_reader remove_conn
replaced_link_lost_example =
    (replaced_link_lost ann bob [] [] [] 6 []
      (record { node_id = ann; incarnation = b'1' ∷ []; conn = 4 }) all_start-IsStart
      dialed_again-Reach refl refl refl refl refl at_rest).1
