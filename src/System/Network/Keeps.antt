-- ===== src/System/Network/Keeps.antt =====
-- Steps of the net that lose no process and no link to one.
use quicmeshpoc.Common.{
  Bytes, Bool, true, false, List, [], is_plain, str_eq, str_eq_iff, str_eq_refl, ◌≡◌, ◌≢◌, inl, inr,
  refl, ◌∙◌, sym, subst, Bool-cases,
}
use quicmeshpoc.Protocol.{Peer}
use quicmeshpoc.Mesh.State.{Mesh}
use quicmeshpoc.Mesh.Links.Table.{is_dialing}
use quicmeshpoc.System.Network.{
  Hello, Net, incarnation_of, holds, Step, polls, links, fails, arrives, ends, restarts, Reach,
  here, next,
}
use quicmeshpoc.System.Network.Tables.{Same}
use quicmeshpoc.System.Network.Invariant.{after, incarnation_of-after}

-- The processes stay, and so does each link to a present process.
pub record Keeps (s t : Net) : Type 0 where
  pub now : (k : Bytes) → incarnation_of t k ≡ incarnation_of s k
  pub links_stay :
      (x k : Bytes)
      → holds k (incarnation_of s k) (s.clients x) ≡ true
      → holds k (incarnation_of s k) (t.clients x) ≡ true
  pub still : (a b : Bytes) → s.lost a b ≡ false → t.lost a b ≡ false

pub Keeps-self : (s : Net) → Keeps s s
Keeps-self s = record { now = λ k. refl; links_stay = λ x k h. h; still = λ a b h. h }

pub then_Keeps : (s t u : Net) → Keeps s t → Keeps t u → Keeps s u
then_Keeps s t u h k = record {
  now = λ x. k.now x ∙ h.now x;
  links_stay = λ x y e.
      subst (λ i. holds y i (u.clients x) ≡ true) (h.now y)
        (k.links_stay x y
          (subst (λ i. holds y i (t.clients x) ≡ true) (sym (h.now y)) (h.links_stay x y e)));
  still = λ a b e. k.still a b (h.still a b e);
}

-- No dial starts that is still on its way at the end.
abbrev pub Idles : Net → Net → Type 0
Idles s t = (x k : Bytes) → is_dialing k (s.clients x) ≡ false → is_dialing k (t.clients x) ≡ false

-- A round, a dial that succeeds, or a HELLO that arrives.
abbrev pub is_onward : {s t : Net} → Step s t → Bool
is_onward (polls a peers cur) = true
is_onward (links a p c marked first given plain_a plain_i name) = true
is_onward (fails a p err) = false
is_onward (arrives before behind h d remote e) = true
is_onward (ends a b err) = false
is_onward (restarts a incarnation given new) = false

-- Any number of such steps.
pub data Onward (s : Net) : Net → Type 0 where
  at_rest : Onward s s
  then_on : {t u : Net} → Onward s t → (st : Step t u) → is_onward st ≡ true → Onward s u

pub Onward-trans : {s t u : Net} → Onward s t → Onward t u → Onward s u
Onward-trans r at_rest = r
Onward-trans r (then_on q st on) = then_on (Onward-trans r q) st on

pub Onward-Reach : {s t : Net} → Onward s t → Reach s t
Onward-Reach at_rest = here
Onward-Reach (then_on r st on) = next (Onward-Reach r) st

pub client_after :
    (s : Net) (x : Bytes) (m' : Mesh) (wire' : List Hello) (lost' : Bytes → Bytes → Bool)
    → (after s x m' wire' lost').clients x ≡ m'
client_after s x m' wire' lost' = rw (str_eq_refl x) refl

pub after-Keeps :
    (s : Net) (x : Bytes) (m' : Mesh) (wire' : List Hello) (lost' : Bytes → Bytes → Bool)
    → Same (s.clients x) m'
    → ((k : Bytes)
        → holds k (incarnation_of s k) (s.clients x) ≡ true
        → holds k (incarnation_of s k) m' ≡ true)
    → ((a b : Bytes) → s.lost a b ≡ false → lost' a b ≡ false)
    → Keeps s (after s x m' wire' lost')
after-Keeps s x m' wire' lost' same h l = record {
  now = incarnation_of-after s x m' wire' lost' same;
  links_stay = λ y k e. elim (Bool-cases (str_eq x y)) [
    | inl f ↦ rw f (
        h k (
          subst (λ z. holds k (incarnation_of s k) (s.clients z) ≡ true)
            (sym ((str_eq_iff x y).0 f)) e))
    | inr f ↦ rw f e
  ];
  still = l;
}

-- The roster's entry of a node as it is now.
abbrev pub current : Net → Bytes → Peer
current t b = record { node_id = b; addr = []; local_addrs = []; incarnation = incarnation_of t b }

-- A client that others can reach by the HELLO lines of.
abbrev pub CanDial : Net → Bytes → Type 0
CanDial t a = (is_plain a ≡ true) × (is_plain (incarnation_of t a) ≡ true) × (a ≢ [])

pub CanDial-Keeps : (t u : Net) (a : Bytes) → Keeps t u → CanDial t a → CanDial u a
CanDial-Keeps t u a k can = (can.0, subst (λ i. is_plain i ≡ true) (sym (k.now a)) can.1, can.2)
