-- ===== src/Sse.antt =====
-- Server-sent events, both ends: `writeSSE` of cmd/lighthouse/dashboard.go, and the scanner and
-- parser inside `streamSignals` of cmd/quicchat/mesh.go.
pub mod Lines
pub mod RoundTrip
use quicmeshpoc.Common.{
  ℕ, Bytes, Bool, true, false, ◌&&◌, ◌||◌, List, [], ◌∷◌, ◌++◌, Option, none, some, ◌==◌, str_eq,
  has_prefix, drop, length, text, trim_space, ltb, if◌then◌else◌,
}

-- One more byte at the front of the first piece.
unfoldable pub extend_first : ℕ → List Bytes → List Bytes
extend_first c [] = (c ∷ []) ∷ []
extend_first c (line ∷ ls) = (c ∷ line) ∷ ls

-- strings.Split(s, "\n")
unfoldable pub split_lines : Bytes → List Bytes
unfolding extend_first
split_lines [] = [] ∷ []
split_lines (c ∷ s) =
    let rest = split_lines s in if c == b'\n' then [] ∷ rest else extend_first c rest

-- The loop of writeSSE over the lines of the payload, in front of `rest`.
unfoldable pub data_fields : List Bytes → Bytes → Bytes
data_fields [] rest = rest
data_fields (line ∷ ls) rest = text "data: " ++ (line ++ (b'\n' ∷ data_fields ls rest))

-- What writeSSE writes, in front of what is written next.
unfoldable pub write_sse : Bytes → Bytes → Bytes → Bytes
unfolding split_lines data_fields
write_sse event payload rest =
    text "event: " ++ (event ++ (b'\n' ∷ data_fields (split_lines payload) (b'\n' ∷ rest)))

-- The heartbeat of both streams.
unfoldable pub keep_alive : Bytes → Bytes
keep_alive rest = text ": keep-alive" ++ (b'\n' ∷ b'\n' ∷ rest)

-- bufio.ScanLines takes one carriage return off the end of a line.
unfoldable pub drop_cr : Bytes → Bytes
drop_cr [] = []
drop_cr (c ∷ []) = if c == b'\r' then [] else c ∷ []
drop_cr (c ∷ d ∷ s) = c ∷ drop_cr (d ∷ s)

-- A last line with no newline counts if it is not empty.
unfoldable pub drop_empty_last : List Bytes → List Bytes
drop_empty_last [] = []
drop_empty_last ([] ∷ []) = []
drop_empty_last (line ∷ ls) = line ∷ drop_empty_last ls

-- scanner.Buffer(make([]byte, 0, 64*1024), 1<<20)
abbrev pub max_line : ℕ
max_line = 1048576

-- The lines that the scanner hands out: it stops for good at one that does not fit its buffer.
unfoldable pub fitting : List Bytes → List Bytes
unfolding drop_cr
fitting [] = []
fitting (line ∷ ls) = if ltb (length line) max_line then drop_cr line ∷ fitting ls else []

-- The lines of a response body.
unfoldable pub scan : Bytes → List Bytes
unfolding fitting drop_empty_last split_lines
scan body = fitting (drop_empty_last (split_lines body))

-- `var event, data string`
pub record Fields : Type 0 where
  pub event : Bytes
  pub content : Bytes

abbrev pub no_fields : Fields
no_fields = record { event = []; content = [] }

-- strings.TrimPrefix(s, " ")
unfoldable pub trim_one_space : Bytes → Bytes
trim_one_space [] = []
trim_one_space (c ∷ s) = if c == b' ' then s else c ∷ s

-- A `data:` field: further lines are joined by newlines.
unfoldable pub add_data : Bytes → Bytes → Bytes
unfolding trim_one_space
add_data content d = if str_eq content [] then d else content ++ (b'\n' ∷ d)

-- The data of the event that a blank line dispatches, if it is one to act on.
unfoldable pub dispatched : Fields → Option Bytes
dispatched f =
    if str_eq f.content []
    then none
    else if str_eq f.event [] || str_eq f.event (text "signal")
    then some f.content
    else none

-- The body of the loop over the lines: the fields after the line, and what it dispatches.
unfoldable pub read_line : Fields → Bytes → Fields × Option Bytes
unfolding add_data dispatched
read_line f [] = (no_fields, dispatched f)
read_line f (c ∷ s) =
    let line = c ∷ s in
    if has_prefix line (text ":")
    then (f, none)
    else if has_prefix line (text "event:")
    then (record f { event = trim_space (drop 6 line) }, none)
    else if has_prefix line (text "data:")
    then (record f { content = add_data f.content (trim_one_space (drop 5 line)) }, none)
    else (f, none)

-- The loop, on the events' data; an event that does not decode is logged and skipped.
module _ {S : Type 0} (unmarshal : Bytes → Option S) where
  unfoldable pub decoded : Option Bytes → List S → List S
  decoded none rest = rest
  decoded (some d) rest = elim (unmarshal d) [ none ↦ rest | some s ↦ s ∷ rest ]

  unfoldable pub read_lines : Fields → List Bytes → List S
  unfolding read_line decoded
  read_lines f [] = []
  read_lines f (line ∷ ls) = let (f', d) = read_line f line in decoded d (read_lines f' ls)

  -- The signals that `streamSignals` hands to `respondToPunch`, in order, from a response body.
  unfoldable pub stream_signals : Bytes → List S
  unfolding read_lines scan
  stream_signals body = read_lines no_fields (scan body)
