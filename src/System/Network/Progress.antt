-- ===== src/System/Network/Progress.antt =====
-- Steps that a net can take to link its clients.
use quicmeshpoc.Common.{Bytes, true, false, ◌≡◌}
use quicmeshpoc.Mesh.Names.{initiates}
use quicmeshpoc.Mesh.Links.Table.{is_dialing}
use quicmeshpoc.System.Network.{Net, incarnation_of, holds}
use quicmeshpoc.System.Network.Keeps.{Keeps, CanDial}

-- Both ends of the link know it, and no dial is on its way.
abbrev pub Linked : Net → Bytes → Bytes → Type 0
Linked t a b =
    (holds b (incarnation_of t b) (t.clients a) ≡ true)
    × (holds a (incarnation_of t a) (t.clients b) ≡ true)
    × (is_dialing b (t.clients a) ≡ false)

-- Pairs of clients, the one that is to dial first.
abbrev pub Dialable : Net → Bytes × Bytes → Type 0
Dialable t (a, b) = (initiates a b ≡ true) × CanDial t a × (t.lost a b ≡ false)

abbrev pub LinkedPair : Net → Bytes × Bytes → Type 0
LinkedPair t (a, b) = Linked t a b
