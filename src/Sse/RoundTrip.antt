-- ===== src/Sse/RoundTrip.antt =====
-- A signal stream from the lighthouse's writer to the client's reader.
use quicmeshpoc.Common.{
  Bytes, false, List, [], ◌∷◌, ◌++◌, Option, some, ◌≡◌, ◌≢◌, ◌<◌, ◌+◌, refl, ap, ◌∙◌, All, length,
  text, trim_space, str_eq, has_prefix, contains, arith,
}
use quicmeshpoc.Sse.{
  write_sse, keep_alive, data_fields, max_line, scan, no_fields, read_lines, decoded,
  stream_signals,
}
use quicmeshpoc.Sse.Lines.{split_lines_one, scan-append}

-- encoding/json, as far as the program uses it for one type: its compact output is one line,
-- since it escapes control bytes, and never empty.
pub record Codec (S : Type 0) : Type 0 where
  pub marshal : S → Bytes
  pub unmarshal : Bytes → Option S
  pub one_line : (s : S) → contains b'\n' (marshal s) ≡ false
  pub no_return : (s : S) → contains b'\r' (marshal s) ≡ false
  pub not_empty : (s : S) → marshal s ≢ []

-- What the stream handler writes: an event, or a heartbeat.
pub data Write (S : Type 0) : Type 0 where
  event : S → Write S
  heartbeat : Write S

module _ {S : Type 0} (codec : Codec S) where
  -- The bytes of a sequence of writes.
  unfoldable pub written : List (Write S) → Bytes
  unfolding write_sse keep_alive
  written [] = []
  written (event s ∷ ws) = write_sse (text "signal") (codec.marshal s) (written ws)
  written (heartbeat ∷ ws) = keep_alive (written ws)

  -- The encoding of `s` decodes to `s` again, and fits in the scanner's buffer behind `data: `.
  abbrev pub IsSendable : Write S → Type 0
  IsSendable (event s) =
      (codec.unmarshal (codec.marshal s) ≡ some s) × (length (codec.marshal s) + 6 < max_line)
  IsSendable heartbeat = Unit

module _ {S : Type 0} where
  unfoldable pub events : List (Write S) → List S
  events [] = []
  events (event s ∷ ws) = s ∷ events ws
  events (heartbeat ∷ ws) = events ws

scan-write_sse :
    (m rest : Bytes)
    → contains b'\n' m ≡ false
    → contains b'\r' m ≡ false
    → length m + 6 < max_line
    → scan (write_sse (text "signal") m rest)
      ≡ text "event: signal" ∷ (text "data: " ++ m) ∷ [] ∷ scan rest
unfolding write_sse data_fields text
scan-write_sse m rest hn hr hl = rw (split_lines_one m hn) (
    scan-append (text "event: signal") _ refl refl (omega arith)
    ∙ rw (scan-append (text "data: " ++ m) (b'\n' ∷ rest) hn hr (omega arith))
        (rw (scan-append [] rest refl refl (omega arith))))

scan-keep_alive : (rest : Bytes) → scan (keep_alive rest) ≡ text ": keep-alive" ∷ [] ∷ scan rest
unfolding keep_alive text
scan-keep_alive rest =
    scan-append (text ": keep-alive") (b'\n' ∷ rest) refl refl (omega arith)
    ∙ rw (scan-append [] rest refl refl (omega arith))

module _ {S : Type 0} (unmarshal : Bytes → Option S) where
  -- The three lines of an event hand its data on, and leave no field behind.
  read_lines_event :
      (m : Bytes) (ls : List Bytes)
      → m ≢ []
      → read_lines unmarshal no_fields (text "event: signal" ∷ (text "data: " ++ m) ∷ [] ∷ ls)
        ≡ decoded unmarshal (some m) (read_lines unmarshal no_fields ls)
  unfolding read_lines text has_prefix trim_space str_eq
  read_lines_event [] ls h = absurd (h refl)
  read_lines_event (c ∷ m) ls h = refl

  -- A heartbeat hands on nothing.
  read_lines_heartbeat :
      (ls : List Bytes)
      → read_lines unmarshal no_fields (text ": keep-alive" ∷ [] ∷ ls)
        ≡ read_lines unmarshal no_fields ls
  unfolding read_lines text has_prefix trim_space str_eq
  read_lines_heartbeat ls = refl

-- From what the stream handler writes, events and heartbeats in any order, the client reads
-- exactly the events, in order, if each event decodes to itself and fits in the scanner's buffer.
pub stream_signals-written :
    {S : Type 0} (codec : Codec S) (ws : List (Write S))
    → All (IsSendable codec) ws
    → stream_signals codec.unmarshal (written codec ws) ≡ events ws
unfolding stream_signals written events
stream_signals-written codec [] h = refl
stream_signals-written codec (event s ∷ ws) h =
    rw
      (scan-write_sse (codec.marshal s) (written codec ws) (codec.one_line s) (codec.no_return s)
        h.0.1)
      (read_lines_event codec.unmarshal (codec.marshal s) _ (codec.not_empty s)
        ∙ rw (h.0.0, decoded) (ap (◌∷◌ s) (stream_signals-written codec ws h.1)))
stream_signals-written codec (heartbeat ∷ ws) h =
    rw (scan-keep_alive (written codec ws))
      (read_lines_heartbeat codec.unmarshal _ ∙ stream_signals-written codec ws h.1)
