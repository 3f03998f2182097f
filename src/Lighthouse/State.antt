-- ===== src/Lighthouse/State.antt =====
-- The state of cmd/lighthouse/main.go and dashboard.go. Instants are nanoseconds since Go's zero
-- time, so 0 is `time.Time{}`; a channel is a number, and its contents are part of the state.
use quicmeshpoc.Common.{ℕ, Bytes, Bool, false, List, [], Map, ◌*◌, ◌≡◌, member, Distinct}
use quicmeshpoc.Protocol.{Signal}

abbrev pub second : ℕ
second = 1000000000

abbrev pub peer_ttl : ℕ
peer_ttl = 30 * second

abbrev pub max_events : ℕ
max_events = 50

abbrev pub max_handoffs : ℕ
max_handoffs = 50

abbrev pub handoff_timeout : ℕ
handoff_timeout = 30 * second

pub record Registration : Type 0 where
  pub addr : Bytes
  pub local_addrs : List Bytes
  pub incarnation : Bytes
  pub last_seen : ℕ

pub record LogEntry : Type 0 where
  pub at : ℕ
  pub kind : Bytes
  pub msg : Bytes

pub record Handoff : Type 0 where
  pub from : Bytes
  pub to : Bytes
  pub started : ℕ
  pub picked_up : Bool
  pub completed : Bool
  pub completed_at : ℕ

-- An entry of `subs`: a channel of the dashboard, with the snapshots that it buffers.
pub record Subscriber : Type 0 where
  pub channel : ℕ
  pub buffer : List Bytes

-- `woken` says of each nudge channel whether it holds its one token; `next_channel` is the next
-- identity that `make(chan …)` gives.
pub record Lighthouse : Type 0 where
  pub nodes : Map Registration
  pub signals : Map (List Signal)
  pub signal_subs : Map ℕ
  pub handoffs : List Handoff
  pub events : List LogEntry
  pub subs : List Subscriber
  pub woken : ℕ → Bool
  pub next_channel : ℕ

abbrev pub new_lighthouse : Lighthouse
new_lighthouse = record {
  nodes = [];
  signals = [];
  signal_subs = [];
  handoffs = [];
  events = [];
  subs = [];
  woken = λ _. false;
  next_channel = 0;
}

-- What a call of a handler gets from its surroundings: the i-th reading of the clock, the order in
-- which the i-th loop over a map visits its keys, and a clock time formatted as 15:04:05 in the
-- host's time zone.
pub record Host : Type 0 where
  pub now : ℕ → ℕ
  pub order : ℕ → List Bytes → List Bytes
  pub time_of_day : ℕ → Bytes

-- The handlers' answers. Texts are the bodies of http.Error; 400 is http.StatusBadRequest.
pub data Reply (A : Type 0) : Type 0 where
  http_error : ℕ → Bytes → Reply A
  json : A → Reply A
  no_content : Reply A

-- Go's promise about a loop over a map: each key is visited once, in no promised order.
pub record VisitsAll (host : Host) : Type 0 where
  pub each : (i : ℕ) (ks : List Bytes) (k : Bytes) → member k (host.order i ks) ≡ member k ks
  pub once : (i : ℕ) (ks : List Bytes) → Distinct ks → Distinct (host.order i ks)
