-- ===== src/System/Network/Replaced.antt =====
-- A client of cmd/quicchat/mesh.go that started again, and the reader of its older connection at the
-- other end.
use quicmeshpoc.Common.{
  ℕ, Bytes, true, false, List, ◌∷◌, ◌++◌, All, some, str_eq, str_eq_refl, str_eq_sym, lookup,
  lookup-delete, subst, ◌≡◌, ap, ◌∙◌, sym, arith, refl,
}
use quicmeshpoc.Mesh.State.{Mesh, PeerConn}
use quicmeshpoc.Mesh.Names.{initiates_once}
use quicmeshpoc.Mesh.Links.{end_reader, remove_conn}
use quicmeshpoc.Mesh.Links.Table.{has_link, is_dialing}
use quicmeshpoc.Mesh.Inbound.{hello_line, handle_inbound}
use quicmeshpoc.System.Network.{
  Hello, Net, incarnation_of, holds, found_by, lost_at, Reach, IsStart, arrives, ends,
}
use quicmeshpoc.System.Network.Tables.{handle_inbound-Same, table-handle_inbound}
use quicmeshpoc.System.Network.Invariant.{waits, IsSound, Inv, after}
use quicmeshpoc.System.Network.Arrivals.{All-remove}
use quicmeshpoc.System.Network.Rest.{Reach-Inv, start-Inv, Step-Inv}
use quicmeshpoc.System.Network.Keeps.{Onward, client_after}
use quicmeshpoc.System.Network.Lost.{OneSided, Onward-OneSided}

-- The HELLO of `a` that `b` reads, from its connection `d`.
abbrev pub greeted : Net → Bytes → Bytes → List Hello → ℕ → Bytes → Net
greeted t a b wire d remote =
    let h : Hello = record { from = a; to = b; incarnation = incarnation_of t a } in
    after t b (handle_inbound d remote (some (hello_line a (incarnation_of t a))) (t.clients b)).0
      wire (found_by h t.lost)

-- A reader for `a` at `b` that ends.
abbrev pub cut : Net → Bytes → Bytes → Bytes → Net
cut t a b err = after t b (end_reader a err (t.clients b)).0 t.wire (lost_at t b a)

same_process : (id err : Bytes) (m : Mesh) → (end_reader id err m).0.incarnation ≡ m.incarnation
unfolding end_reader remove_conn
same_process id err m = refl

gone_after : (id err : Bytes) (m : Mesh) → has_link id (end_reader id err m).0 ≡ false
unfolding end_reader remove_conn
gone_after id err m = rw (lookup-delete id id m.conns, str_eq_refl id) refl

module _ (t : Net) (v : Inv t) (a b err : Bytes) (before behind : List Hello) (d : ℕ)
    (remote : Bytes)
    (line : t.wire
      ≡ before ++ record { from = a; to = b; incarnation = incarnation_of t a } ∷ behind) where
  abbrev sent : Hello
  sent = record { from = a; to = b; incarnation = incarnation_of t a }

  abbrev read : Net
  read = greeted t a b (before ++ behind) d remote

  ok : IsSound (incarnation_of t) sent
  ok =
      (All-remove (incarnation_of t) before behind sent
        (subst (All (IsSound (incarnation_of t))) line v.sound)).0

  apart : str_eq b a ≡ false
  apart = ground (arith, initiates_once a b, ok.1, str_eq_sym a b)

  cut-Inv : Inv (cut read a b err)
  cut-Inv = Step-Inv (ends b a err) (Step-Inv (arrives before behind sent d remote line) v)

  greeted_lem :
      lookup a (read.clients b).conns
      ≡ some (record { node_id = a; incarnation = incarnation_of t a; conn = d })
  greeted_lem = rw (str_eq_refl b) (
      (table-handle_inbound a d remote a (incarnation_of t a) (t.clients b) ok.2 ok.3 ok.4).0
      ∙ rw (str_eq_refl a) refl)

  cut-OneSided :
      waits a b (before ++ behind) ≡ false
      → holds b (incarnation_of t b) (t.clients a) ≡ true
      → is_dialing b (t.clients a) ≡ false
      → OneSided a b (incarnation_of t b) (ok.1) (cut read a b err)
  cut-OneSided none_waits mine unmarked = record {
    now =
        ap (λ (m : Mesh). m.incarnation) (client_after read b _ read.wire (lost_at read b a))
        ∙ same_process a err (read.clients b)
        ∙ ap (λ (m : Mesh). m.incarnation)
            (client_after t b _ (before ++ behind) (found_by sent t.lost))
        ∙ (handle_inbound-Same d remote a (incarnation_of t a) (t.clients b) ok.2 ok.3 ok.4).1;
    mine = rw apart mine;
    unmarked = rw apart unmarked;
    no_line = none_waits;
    gone = rw (str_eq_refl b) (gone_after a err _);
  }

-- A client `a` that has started again, or whose link has ended, has dialed `b` again, and `b` still has
-- the link of before, `old`. When the HELLO comes, `b` has the new connection in place of the old one. But when the reader
-- of the old connection ends then, `b` removes its link by name; and from there on, whatever rounds,
-- dials that succeed and HELLO lines that arrive, of whichever clients, `b` has no link to `a`, while
-- `a` keeps its link to `b`'s present process, with no dial to it on its way: so the mesh does not
-- mend by itself. No other HELLO between them and no dial of `a` to `b` is on its way at
-- first.
pub replaced_link_lost :
    {s t w : Net} (a b err : Bytes) (before behind : List Hello) (d : ℕ) (remote : Bytes)
    (old : PeerConn)
    → IsStart s
    → Reach s t
    → t.wire ≡ before ++ record { from = a; to = b; incarnation = incarnation_of t a } ∷ behind
    → waits a b (before ++ behind) ≡ false
    → holds b (incarnation_of t b) (t.clients a) ≡ true
    → is_dialing b (t.clients a) ≡ false
    → lookup a (t.clients b).conns ≡ some old
    → Onward (cut (greeted t a b (before ++ behind) d remote) a b err) w
    → (lookup a ((greeted t a b (before ++ behind) d remote).clients b).conns
        ≡ some (record { node_id = a; incarnation = incarnation_of t a; conn = d }))
      × (has_link a (w.clients b) ≡ false)
      × (holds b (incarnation_of w b) (w.clients a) ≡ true)
      × (is_dialing b (w.clients a) ≡ false)
replaced_link_lost {s} {t} {w} a b err before behind d remote old start r line single mine idle
      linked onward =
    let v = Reach-Inv (start-Inv s start) r in
    let first = (ok t v a b err before behind d remote line).1 in
    let end =
      (Onward-OneSided a b (incarnation_of t b) first onward
        (cut-Inv t v a b err before behind d remote line)
        (cut-OneSided t v a b err before behind d remote line single mine idle)).1 in
    (
      greeted_lem t v a b err before behind d remote line,
      end.gone,
      subst (λ i. holds b i (w.clients a) ≡ true) (sym end.now) end.mine,
      end.unmarked,
    )
