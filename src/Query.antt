-- ===== src/Query.antt =====
-- The name of a node in a request target: what peersLoop and streamSignals of cmd/quicchat/mesh.go
-- put behind `?self=`, and what r.URL.Query().Get("self") of cmd/lighthouse/main.go reads there.
pub mod RoundTrip
use quicmeshpoc.Common.{
  ℕ, Bytes, Bool, true, false, ◌&&◌, ◌||◌, List, [], ◌∷◌, ◌++◌, Option, none, some, ◌==◌, ltb, leb,
  ◌+◌, ◌-◌, ◌*◌, str_eq, text, contains, if◌then◌else◌,
}
use quicmeshpoc.Sse.{extend_first}

-- The target of the two requests, behind the base URL.
unfoldable pub self_target : Bytes → Bytes → Bytes
unfolding text
self_target path node_id = path ++ (text "?self=" ++ node_id)

-- strings.Cut, with what stands before and behind the first such byte.
unfoldable pub cut : ℕ → Bytes → Bytes × Bytes
cut b [] = ([], [])
cut b (c ∷ s) = let (before, behind) = cut b s in if c == b then ([], s) else (c ∷ before, behind)

-- The parts of a query, as url.ParseQuery cuts them off.
unfoldable pub split_on : ℕ → Bytes → List Bytes
unfolding extend_first
split_on b [] = [] ∷ []
split_on b (c ∷ s) = let rest = split_on b s in if c == b then [] ∷ rest else extend_first c rest

-- net/url refuses a URL with an ASCII control byte.
abbrev pub has_control : Bytes → Bool
has_control [] = false
has_control (c ∷ s) = ltb c 0x20 || c == 0x7f || has_control s

-- The query of a URL: between the first `?` and the fragment.
unfoldable pub query_of : Bytes → Option Bytes
unfolding cut
query_of target = if has_control target then none else some (cut b'?' (cut b'#' target).0).1

-- The path of a URL, as far as it has no percent codes.
unfoldable pub path_of : Bytes → Bytes
unfolding cut
path_of target = (cut b'?' (cut b'#' target).0).0

abbrev pub is_hex : ℕ → Bool
is_hex c = (leb b'0' c && leb c b'9') || (leb b'a' c && leb c b'f') || (leb b'A' c && leb c b'F')

abbrev pub hex_value : ℕ → ℕ
hex_value c = if leb c b'9' then c - b'0' else if leb c b'F' then c - b'A' + 10 else c - b'a' + 10

abbrev pub then_byte : ℕ → Option Bytes → Option Bytes
then_byte c none = none
then_byte c (some s) = some (c ∷ s)

abbrev pub unplus : ℕ → ℕ
unplus c = if c == b'+' then b' ' else c

-- url.QueryUnescape
unfoldable pub unescape : Bytes → Option Bytes
unescape [] = some []
unescape (c ∷ []) = if c == b'%' then none else some (unplus c ∷ [])
unescape (c ∷ d ∷ []) =
    let more = then_byte (unplus c) (unescape (d ∷ [])) in if c == b'%' then none else more
unescape (c ∷ d ∷ e ∷ s) =
    let coded = then_byte (hex_value d * 16 + hex_value e) (unescape s) in
    let more = then_byte (unplus c) (unescape (d ∷ e ∷ s)) in
    if c == b'%' then if is_hex d && is_hex e then coded else none else more

-- One part of a query, as a key and a value; a part that is empty, has a semicolon or does not
-- unescape is dropped.
unfoldable pub parameter : Bytes → Option (Bytes × Bytes)
unfolding cut unescape
parameter part =
    if str_eq part [] || contains b';' part then none else elim (unescape (cut b'=' part).0) [
      | none ↦ none
      | some k ↦ elim (unescape (cut b'=' part).1) [ none ↦ none | some v ↦ some (k, v) ]
    ]

-- Query().Get(key): the first value of the key, or the empty text.
unfoldable pub first_value : Bytes → List Bytes → Bytes
unfolding parameter
first_value key [] = []
first_value key (part ∷ parts) =
    let rest = first_value key parts in
    elim (parameter part) [ none ↦ rest | some (k, v) ↦ if str_eq k key then v else rest ]

-- The name that the lighthouse reads from a target, if the client can send it.
unfoldable pub self_param : Bytes → Option Bytes
unfolding query_of split_on first_value text
self_param target = elim (query_of target) [
  | none ↦ none
  | some q ↦ some (first_value (text "self") (split_on b'&' q))
]
