-- ===== src/Tests/Wakeups.antt =====
-- Requests and streams of the lighthouse that interleave.
use quicmeshpoc.Common.{List, [], ◌∷◌, ◌⊎◌, ◌≡◌, true, refl, lookup, insert, str_eq}
use quicmeshpoc.Lighthouse.State.{Host}
use quicmeshpoc.Lighthouse.Connect.{queued}
use quicmeshpoc.Lighthouse.Wakeup.{Turn, asks, opens, turn, turns, open_stream}
use quicmeshpoc.Lighthouse.Wakeup.Kept.{start, is_due, no_lost_wakeup}
use quicmeshpoc.Lighthouse.Wakeup.Due.{Delivers, turns-Delivers}
use quicmeshpoc.Tests.Data.{ann, bob, host, entry, bob_to_ann}

-- Ann's stream opens, and a request for her comes in before its first flush.
abbrev raced : List (Host × Turn)
raced = (host, opens ann) ∷ (host, asks bob_to_ann (entry bob 0)) ∷ []

no_lost_wakeup_example :
    (queued ann (turns raced start).server ≡ []) ⊎ (is_due 0 (turns raced start) ≡ true)
unfolding turns turn open_stream lookup insert str_eq
no_lost_wakeup_example = no_lost_wakeup raced ann 0 refl

turns-Delivers_example : Delivers ann 0 (turns raced start)
unfolding turns turn open_stream lookup insert str_eq
turns-Delivers_example = turns-Delivers host raced ann 0 refl
