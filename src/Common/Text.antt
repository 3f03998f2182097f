-- ===== src/Common/Text.antt =====
-- Go strings: sequences of bytes, compared byte by byte.
use Prim.Native.Nat.{ℕ, zero, suc, ◌+◌, ◌/◌, ◌%◌}
use Prim.Native.Char.{code}
use Prim.Native.String.{String}
use mathlib.Core.Path.{◌≡◌, refl}
use mathlib.Core.Logic.{◌↔◌}
use mathlib.Core.Bool.{Bool, true, false, ◌&&◌, ◌||◌}
use mathlib.Core.List.{List, [], ◌∷◌, ◌++◌}
use native.Mathlib.Omega.{arith}
use quicmeshpoc.Common.Tests.{ltb, ◌==◌, if◌then◌else◌}

abbrev pub Bytes : Type 0
Bytes = List ℕ

-- The UTF-8 bytes of a code point, as the compiler writes them for a string literal.
unfoldable pub utf8 : ℕ → Bytes
utf8 c =
    if ltb c 0x80
    then c ∷ []
    else if ltb c 0x800
    then (0xc0 + c / 64) ∷ (0x80 + c % 64) ∷ []
    else if ltb c 0x10000
    then (0xe0 + c / 4096) ∷ (0x80 + c / 64 % 64) ∷ (0x80 + c % 64) ∷ []
    else (0xf0 + c / 262144) ∷ (0x80 + c / 4096 % 64) ∷ (0x80 + c / 64 % 64) ∷ (0x80 + c % 64) ∷ []

-- A string literal.
unfoldable pub text : String → Bytes
unfolding utf8
text String.[] = []
text (String.◌∷◌ c s) = utf8 (code c) ++ text s

-- s == t
unfoldable pub str_eq : Bytes → Bytes → Bool
str_eq [] [] = true
str_eq (x ∷ a) (y ∷ b) = x == y && str_eq a b
str_eq _ _ = false

pub str_eq_iff : (a b : Bytes) → (str_eq a b ≡ true) ↔ (a ≡ b)
unfolding str_eq
str_eq_iff (x ∷ a) (y ∷ b) = ground (arith, str_eq_iff a b)
str_eq_iff _ _ = ground arith

pub str_eq_refl : (a : Bytes) → str_eq a a ≡ true
str_eq_refl a = (str_eq_iff a a).1 refl

pub str_eq_sym : (a b : Bytes) → str_eq a b ≡ str_eq b a
str_eq_sym a b = ground (arith, str_eq_iff a b, str_eq_iff b a)

-- s < t
unfoldable pub str_lt : Bytes → Bytes → Bool
str_lt a [] = false
str_lt [] (y ∷ b) = true
str_lt (x ∷ a) (y ∷ b) = ltb x y || (x == y && str_lt a b)

-- Of two different names exactly one is the smaller.
pub str_lt_total : (a b : Bytes) → str_lt a b ≡ (if str_eq a b || str_lt b a then false else true)
unfolding str_lt str_eq
str_lt_total [] [] = refl
str_lt_total (x ∷ a) [] = refl
str_lt_total [] (y ∷ b) = refl
str_lt_total (x ∷ a) (y ∷ b) = ground (arith, str_lt_total a b)

pub str_lt_trans : (a b c : Bytes) → str_lt a b ≡ true → str_lt b c ≡ true → str_lt a c ≡ true
unfolding str_lt
str_lt_trans (x ∷ a) (y ∷ b) (z ∷ c) h k = ground (arith, str_lt_trans a b c)
str_lt_trans [] (y ∷ b) (z ∷ c) h k = refl
str_lt_trans a [] c h k = ground (arith, h)
str_lt_trans a (y ∷ b) [] h k = ground (arith, k)

-- strings.HasPrefix
unfoldable pub has_prefix : Bytes → Bytes → Bool
has_prefix s [] = true
has_prefix [] (y ∷ p) = false
has_prefix (x ∷ s) (y ∷ p) = x == y && has_prefix s p

-- The decimal digits of `n`, in front of `rest`; the fuel bounds the number of digits.
unfoldable pub digits : ℕ → ℕ → Bytes → Bytes
digits zero n rest = rest
digits (suc f) n rest =
    let more = digits f (n / 10) ((b'0' + n % 10) ∷ rest) in
    if ltb n 10 then (b'0' + n) ∷ rest else more

-- fmt's %d and strconv.Itoa for a number that is not negative; `n + 1` digits are always enough.
unfoldable pub decimal : ℕ → Bytes
unfolding digits
decimal n = digits (n + 1) n []

-- Whether the byte occurs.
abbrev pub contains : ℕ → Bytes → Bool
contains b [] = false
contains b (c ∷ s) = b == c || contains b s

pub contains-append : (b : ℕ) (s t : Bytes) → contains b (s ++ t) ≡ (contains b s || contains b t)
contains-append b [] t = refl
contains-append b (c ∷ s) t = ground (arith, contains-append b s t)
