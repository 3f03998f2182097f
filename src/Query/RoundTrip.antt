-- ===== src/Query/RoundTrip.antt =====
-- Which names arrive.
use quicmeshpoc.Common.{
  ℕ, Bytes, Bool, true, false, not, ◌&&◌, ◌||◌, [], ◌∷◌, ◌++◌, some, ◌==◌, leb, str_eq, text,
  contains, contains-append, ◌≡◌, ◌≢◌, refl, ap, ◌∙◌, arith,
}
use quicmeshpoc.Sse.{extend_first}
use quicmeshpoc.Query.{
  self_target, path_of, cut, split_on, has_control, query_of, unplus, unescape, parameter,
  first_value, self_param,
}

-- No byte of the text stands for something else in a query, except `+`.
abbrev pub is_literal : Bytes → Bool
is_literal [] = true
is_literal (c ∷ s) =
    not (leb c 0x20 || c == 0x7f || c == b'%' || c == b'&' || c == b';' || c == b'#')
    && is_literal s

-- The text with a space for every `+`.
abbrev pub plus_to_space : Bytes → Bytes
plus_to_space [] = []
plus_to_space (c ∷ s) = unplus c ∷ plus_to_space s

is_literal_parts :
    (c : ℕ) (s : Bytes) → is_literal (c ∷ s) ≡ true → ((c == b'%') ≡ false) × (is_literal s ≡ true)
is_literal_parts c s h = ground arith

unescape_literal : (s : Bytes) → is_literal s ≡ true → unescape s ≡ some (plus_to_space s)
unfolding unescape
unescape_literal [] h = refl
unescape_literal (c ∷ []) h = rw (is_literal_parts c [] h).0 refl
unescape_literal (c ∷ d ∷ []) h =
    let l = is_literal_parts c (d ∷ []) h in rw (l.0, unescape_literal (d ∷ []) l.1) refl
unescape_literal (c ∷ d ∷ e ∷ s) h =
    let l = is_literal_parts c (d ∷ e ∷ s) h in rw (l.0, unescape_literal (d ∷ e ∷ s) l.1) refl

contains_literal :
    (s : Bytes)
    → is_literal s ≡ true
    → (contains b'&' s ≡ false)
      × (contains b';' s ≡ false)
      × (contains b'#' s ≡ false)
      × (has_control s ≡ false)
contains_literal [] h = (refl, refl, refl, refl)
contains_literal (c ∷ s) h = ground (arith, contains_literal s)

cut-append : (b : ℕ) (a s : Bytes) → contains b a ≡ false → cut b (a ++ (b ∷ s)) ≡ (a, s)
unfolding cut
cut-append b [] s h = ground arith
cut-append b (c ∷ a) s h = ground (arith, cut-append b a s)

cut_none : (b : ℕ) (a : Bytes) → contains b a ≡ false → cut b a ≡ (a, [])
unfolding cut
cut_none b [] h = refl
cut_none b (c ∷ a) h = ground (arith, cut_none b a)

split_on_none : (b : ℕ) (a : Bytes) → contains b a ≡ false → split_on b a ≡ a ∷ []
unfolding split_on extend_first
split_on_none b [] h = refl
split_on_none b (c ∷ a) h = ground (arith, split_on_none b a)

has_control-append : (a s : Bytes) → has_control (a ++ s) ≡ (has_control a || has_control s)
has_control-append [] s = refl
has_control-append (c ∷ a) s = ground (arith, has_control-append a s)

first_value_self :
    (id : Bytes)
    → is_literal id ≡ true
    → first_value (text "self") (split_on b'&' (text "self=" ++ id)) ≡ plus_to_space id
unfolding first_value text str_eq
first_value_self id h =
    let l = contains_literal id h in
    rw (split_on_none b'&' (text "self=" ++ id) l.0, parameter, l.1, unescape_literal id h, str_eq)
      refl

query_of-append :
    (path q : Bytes)
    → is_literal path ≡ true
    → contains b'?' path ≡ false
    → is_literal q ≡ true
    → query_of (path ++ (b'?' ∷ q)) ≡ some q
unfolding query_of
query_of-append path q hp hq h =
    let l = contains_literal path hp in
    let m = contains_literal q h in
    let clean : has_control (path ++ (b'?' ∷ q)) ≡ false =
      ground (arith, has_control-append path (b'?' ∷ q), l.3, m.3) in
    let whole : contains b'#' (path ++ (b'?' ∷ q)) ≡ false =
      ground (arith, contains-append b'#' path (b'?' ∷ q), l.2, m.2) in
    rw (clean, cut_none b'#' (path ++ (b'?' ∷ q)) whole, cut-append b'?' path q hq) refl

path_of-append :
    (path q : Bytes)
    → is_literal path ≡ true
    → contains b'?' path ≡ false
    → is_literal q ≡ true
    → path_of (path ++ (b'?' ∷ q)) ≡ path
unfolding path_of
path_of-append path q hp hq h =
    let l = contains_literal path hp in
    let m = contains_literal q h in
    let whole : contains b'#' (path ++ (b'?' ∷ q)) ≡ false =
      ground (arith, contains-append b'#' path (b'?' ∷ q), l.2, m.2) in
    rw (path_of, cut_none b'#' (path ++ (b'?' ∷ q)) whole, cut-append b'?' path q hq) refl

pub path_of-self_target :
    (path id : Bytes)
    → is_literal path ≡ true
    → contains b'?' path ≡ false
    → is_literal id ≡ true
    → path_of (self_target path id) ≡ path
unfolding self_target text
path_of-self_target path id hp hq h = path_of-append path (text "self=" ++ id) hp hq h

-- What the lighthouse reads of a name that holds nothing else with a meaning in a query.
self_param_literal :
    (path id : Bytes)
    → is_literal path ≡ true
    → contains b'?' path ≡ false
    → is_literal id ≡ true
    → self_param (self_target path id) ≡ some (plus_to_space id)
unfolding self_param self_target text
self_param_literal path id hp hq h =
    rw (query_of-append path (text "self=" ++ id) hp hq h, self_param)
      (ap some (first_value_self id h))

plus_to_space_none : (s : Bytes) → contains b'+' s ≡ false → plus_to_space s ≡ s
plus_to_space_none [] h = refl
plus_to_space_none (c ∷ s) h = ground (arith, plus_to_space_none s)

contains-plus_to_space : (s : Bytes) → contains b'+' (plus_to_space s) ≡ false
contains-plus_to_space [] = refl
contains-plus_to_space (c ∷ s) = ground (arith, contains-plus_to_space s)

-- A client's name arrives unchanged at the lighthouse, if it holds no control byte, no space and none
-- of `%`, `&`, `;`, `#` and `+`, and the path no control byte, no space and none of `%`, `&`, `;`,
-- `#` and `?`.
pub self_param-self_target :
    (path id : Bytes)
    → is_literal path ≡ true
    → contains b'?' path ≡ false
    → is_literal id ≡ true
    → contains b'+' id ≡ false
    → self_param (self_target path id) ≡ some id
self_param-self_target path id hp hq h k =
    self_param_literal path id hp hq h ∙ ap some (plus_to_space_none id k)

-- A client whose name holds a plus sign, but no control byte, no space and none of `%`, `&`, `;` and
-- `#`, is taken for another node: the lighthouse reads another name than the client's. The path
-- holds none of these bytes and no `?`.
pub self_param_plus :
    (path id : Bytes)
    → is_literal path ≡ true
    → contains b'?' path ≡ false
    → is_literal id ≡ true
    → contains b'+' id ≡ true
    → (other : Bytes) × (self_param (self_target path id) ≡ some other) × (other ≢ id)
self_param_plus path id hp hq h k =
    (plus_to_space id, self_param_literal path id hp hq h, λ e. elim (same e) [ ])
  where
    same : plus_to_space id ≡ id → ⊥
    same e = ground (arith, contains-plus_to_space id, ap (contains b'+') e, k)
