-- ===== src/Lighthouse/Serve/Invariant.antt =====
-- What holds of the server's state after any history.
use quicmeshpoc.Common.{[], ◌∷◌}
use quicmeshpoc.Lighthouse.State.{Lighthouse, Host, new_lighthouse}
use quicmeshpoc.Lighthouse.Serve.{Call, step, History, run}
use quicmeshpoc.Lighthouse.Serve.Tables.{TablesInv, step-TablesInv}
use quicmeshpoc.Lighthouse.Serve.Log.{LogInv, step-LogInv}
use quicmeshpoc.Common.{keys, lookup, arith}

pub record Inv (l : Lighthouse) : Type 0 where
  pub tables : TablesInv l
  pub log : LogInv l

-- Every request and every round of a stream keeps the invariant: the maps hold no key twice and
-- no node without a name; the table of handoffs has one row for each pair and at most
-- maxHandoffs rows; the log has at most maxEvents entries; no browser's buffer exceeds its channel.
pub step-Inv : (host : Host) (c : Call) (l : Lighthouse) → Inv l → Inv (step host c l)
step-Inv host c l v = record {
  tables = step-TablesInv host c l v.tables;
  log = step-LogInv host c l v.log;
}

run-Inv : (l : Lighthouse) (h : History) → Inv l → Inv (run l h)
unfolding run
run-Inv l [] v = v
run-Inv l ((host, c) ∷ h) v = run-Inv (step host c l) h (step-Inv host c l v)

pub new_lighthouse-Inv : Inv new_lighthouse
unfolding keys lookup
new_lighthouse-Inv = ground arith

-- So it holds of the server after any history since its start.
pub run-new_lighthouse-Inv : (h : History) → Inv (run new_lighthouse h)
run-new_lighthouse-Inv h = run-Inv new_lighthouse h new_lighthouse-Inv
