-- ===== src/Tests/Streams.antt =====
-- The event streams.
use quicmeshpoc.Common.{
  Bytes, Bool, true, false, List, [], ◌∷◌, Option, none, some, contains, ◌≡◌, ◌≢◌, refl, arith,
}
use quicmeshpoc.Sse.{stream_signals}
use quicmeshpoc.Sse.RoundTrip.{
  Codec, Write, event, heartbeat, written, events, stream_signals-written,
}

-- A codec for a type with two values, one letter each.
abbrev letter : Bool → Bytes
letter true = b't' ∷ []
letter false = b'f' ∷ []

abbrev unletter : Bytes → Option Bool
unletter (c ∷ []) = elim (contains c (b't' ∷ [])) [ true ↦ some true | false ↦ some false ]
unletter _ = none

letter_line : (b : Bool) → contains b'\n' (letter b) ≡ false
letter_line true = refl
letter_line false = refl

letter_return : (b : Bool) → contains b'\r' (letter b) ≡ false
letter_return true = refl
letter_return false = refl

letter_not_empty : (b : Bool) → letter b ≢ []
letter_not_empty true e = cc
letter_not_empty false e = cc

abbrev letters : Codec Bool
letters = record {
  marshal = letter;
  unmarshal = unletter;
  one_line = letter_line;
  no_return = letter_return;
  not_empty = letter_not_empty;
}

abbrev some_writes : List (Write Bool)
some_writes = event true ∷ heartbeat ∷ event false ∷ []

stream_signals-written_example :
    stream_signals unletter (written letters some_writes) ≡ true ∷ false ∷ []
unfolding events
stream_signals-written_example =
    stream_signals-written letters some_writes
      ((refl, omega arith), (tt, ((refl, omega arith), tt)))
