-- ===== src/Lighthouse/Frame.antt =====
-- What the activity log and the pushes to browsers leave alone.
use quicmeshpoc.Common.{ℕ, ◌+◌, Bytes, List, [], ◌∷◌, ◌≡◌, refl}
use quicmeshpoc.Lighthouse.State.{Lighthouse, Host}
use quicmeshpoc.Lighthouse.Events.{add_event}
use quicmeshpoc.Lighthouse.Peers.{note_offline}
use quicmeshpoc.Lighthouse.Signals.{note_punching}

-- The state without the log and the browsers.
abbrev pub core : Lighthouse → Lighthouse
core l = record l { events = []; subs = [] }

pub core-note_offline :
    (host : Host) (i : ℕ) (ids : List Bytes) (l : Lighthouse)
    → core (note_offline host i ids l) ≡ core l
unfolding note_offline add_event
core-note_offline host i [] l = refl
core-note_offline host i (id ∷ ids) l = core-note_offline host (i + 2) ids _

pub core-note_punching :
    (host : Host) (i : ℕ) (self : Bytes) (ids : List Bytes) (l : Lighthouse)
    → core (note_punching host i self ids l) ≡ core l
unfolding note_punching add_event
core-note_punching host i self [] l = refl
core-note_punching host i self (id ∷ ids) l = core-note_punching host (i + 2) self ids _
