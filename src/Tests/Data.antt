-- ===== src/Tests/Data.antt =====
-- A lighthouse with two registered nodes, one of them too old to be listed, and a third that has
-- asked for the first.
use quicmeshpoc.Common.{ℕ, Bytes, false, [], ◌∷◌, ◌+◌, ◌*◌, refl}
use quicmeshpoc.Protocol.{RegisterRequest, ConnectRequest}
use quicmeshpoc.Lighthouse.State.{second, Registration, Lighthouse, Host, VisitsAll, new_lighthouse}

abbrev pub ann : Bytes
ann = b'a' ∷ []

abbrev pub bob : Bytes
bob = b'b' ∷ []

abbrev pub cyd : Bytes
cyd = b'c' ∷ []

abbrev pub addr_of : Bytes → Bytes
addr_of id = b'@' ∷ id

abbrev pub host : Host
host = record { now = λ i. 100 * second + i; order = λ i ks. ks; time_of_day = λ t. [] }

pub host-VisitsAll : VisitsAll host
host-VisitsAll = record { each = λ i ks k. refl; once = λ i ks d. d }

abbrev pub entry : Bytes → ℕ → Registration
entry id seen = record {
  addr = addr_of id;
  local_addrs = [];
  incarnation = b'1' ∷ [];
  last_seen = seen;
}

abbrev pub busy : Lighthouse
busy = record new_lighthouse {
  nodes =
      (ann, entry ann (90 * second))
      ∷ (bob, entry bob (60 * second))
      ∷ (cyd, entry cyd (99 * second))
      ∷ [];
  signals =
      (ann, record { from_node_id = cyd; from_addr = addr_of cyd; from_local_addrs = [] } ∷ [])
      ∷ [];
  signal_subs = (ann, 7) ∷ [];
  handoffs =
      record {
        from = cyd;
        to = ann;
        started = 5;
        picked_up = false;
        completed = false;
        completed_at = 0;
      }
      ∷ [];
  next_channel = 8;
}

abbrev pub register_bob : RegisterRequest
register_bob = record { node_id = bob; local_addrs = []; incarnation = b'2' ∷ [] }

abbrev pub bob_to_ann : ConnectRequest
bob_to_ann = record { from = bob; to = ann }
