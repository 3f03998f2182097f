-- ===== src/Common/Spaces.antt =====
-- strings.TrimSpace over UTF-8 bytes.
use mathlib.Core.List.{reverse}
use Prim.Native.Nat.{ℕ, zero, suc}
use mathlib.Core.List.{List, [], ◌∷◌, map}
use mathlib.Core.Option.{Option, none, some}
use quicmeshpoc.Common.Tests.{if◌then◌else◌}
use quicmeshpoc.Common.Lists.{length, drop}
use quicmeshpoc.Common.Text.{Bytes, has_prefix, utf8}

-- The code points for which unicode.IsSpace holds, each as its UTF-8 bytes.
unfoldable pub spaces : List Bytes
unfolding utf8
spaces = map utf8 (
    0x09 ∷ 0x0a ∷ 0x0b ∷ 0x0c ∷ 0x0d ∷ 0x20 ∷ 0x85 ∷ 0xa0 ∷ 0x1680 ∷ 0x2000 ∷ 0x2001 ∷ 0x2002
    ∷ 0x2003 ∷ 0x2004 ∷ 0x2005 ∷ 0x2006 ∷ 0x2007 ∷ 0x2008 ∷ 0x2009 ∷ 0x200a ∷ 0x2028 ∷ 0x2029
    ∷ 0x202f ∷ 0x205f ∷ 0x3000 ∷ [])

-- The text behind the first entry of the table that it starts with.
unfoldable pub strip_one : List Bytes → Bytes → Option Bytes
unfolding has_prefix
strip_one [] s = none
strip_one (p ∷ ps) s = if has_prefix s p then some (drop (length p) s) else strip_one ps s

-- Each round takes off at least one byte, so the length of the text is enough fuel.
unfoldable pub strip_all : ℕ → List Bytes → Bytes → Bytes
unfolding strip_one
strip_all zero ps s = s
strip_all (suc f) ps s = elim (strip_one ps s) [ none ↦ s | some t ↦ strip_all f ps t ]

unfoldable pub trim_left : Bytes → Bytes
unfolding strip_all spaces
trim_left s = strip_all (length s) spaces s

unfoldable pub trim_right : Bytes → Bytes
unfolding strip_all spaces
trim_right s = reverse (strip_all (length s) (map reverse spaces) (reverse s))

unfoldable pub trim_space : Bytes → Bytes
unfolding trim_left trim_right
trim_space s = trim_right (trim_left s)
