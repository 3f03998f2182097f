-- ===== src/Common.antt =====
-- The names that the other modules share: the libraries', passed on, and those of the children.
mod Tests
mod Lists
mod Text
mod Maps
pub use Tests.*
pub use Prim.Native.Nat.{ℕ, zero, suc, ◌+◌, ◌-◌, ◌*◌, ◌/◌, ◌%◌, ◌≤◌, ◌<◌}
pub use mathlib.Core.Path.{◌≡◌, refl, sym, ap, ◌∙◌, subst}
pub use mathlib.Core.Logic.{◌≢◌, ◌↔◌, ◌⊎◌, inl, inr}
pub use mathlib.Core.Bool.{Bool, true, false, not, ◌&&◌, ◌||◌}
pub use mathlib.Core.Option.{Option, none, some}
pub use mathlib.Core.List.{List, [], ◌∷◌, ◌++◌, map, foldl}
pub use native.Mathlib.Omega.{arith}
pub use Lists.{All, length, drop, get_elem?, length-append, length-drop, length-modify}
pub use Lists.{All-append, All-drop}
unfoldable pub use Lists.{find_last, modify}
pub use Text.{
  Bytes, str_eq_iff, str_eq_refl, str_eq_sym, str_lt_total, str_lt_trans, contains, contains-append,
}
unfoldable pub use Text.{text, utf8, str_eq, str_lt, has_prefix, digits, decimal}
pub use Maps.{
  Map, Distinct, lookup-insert, lookup-delete, member-keys, Distinct-insert, Distinct-delete,
  member-append, Distinct-concat,
}
unfoldable pub use Maps.{member, lookup, insert, delete, keys}
mod Spaces
mod Words
mod WordLaws
unfoldable pub use Spaces.{spaces, strip_one, strip_all, trim_left, trim_right, trim_space}
unfoldable pub use Words.{word_then, words, fields}
pub use WordLaws.{is_plain, words-plain, words_space, words_newline}
mod Int
pub use Int.{ℤ, pos, negsuc, sub_ℕ}
mod Options
pub use Options.{◌>>=◌}
