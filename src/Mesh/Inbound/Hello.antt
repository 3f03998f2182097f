-- ===== src/Mesh/Inbound/Hello.antt =====
-- The two ends of a HELLO.
use quicmeshpoc.Common.{
  ℕ, Bytes, true, [], ◌∷◌, ◌++◌, some, text, fields, word_then, str_eq, ◌≡◌, ◌≢◌, refl, ap, ◌∙◌,
  is_plain, words-plain, words_space, words_newline, lookup, lookup-insert, str_eq_refl,
}
use quicmeshpoc.Mesh.State.{Mesh}
use quicmeshpoc.Mesh.Inbound.{hello_line, hello_names, accept, handle_inbound}

fields-hello_line :
    (id incarnation : Bytes)
    → is_plain id ≡ true
    → is_plain incarnation ≡ true
    → fields (hello_line id incarnation) ≡ text "HELLO" ∷ word_then id (word_then incarnation [])
unfolding fields hello_line text
fields-hello_line id incarnation p q =
    words-plain (text "HELLO") [] (b' ' ∷ (id ++ (b' ' ∷ (incarnation ++ b'\n' ∷ [])))) refl
    ∙ words_space (text "HELLO") (id ++ (b' ' ∷ (incarnation ++ b'\n' ∷ [])))
    ∙ ap (◌∷◌ (text "HELLO")) (
        words-plain id [] (b' ' ∷ (incarnation ++ b'\n' ∷ [])) p
        ∙ words_space id (incarnation ++ b'\n' ∷ [])
        ∙ ap (word_then id)
            (words-plain incarnation [] (b'\n' ∷ []) q ∙ words_newline incarnation []))

hello_names_lem :
    (id incarnation : Bytes)
    → id ≢ []
    → hello_names (text "HELLO" ∷ word_then id (word_then incarnation [])) ≡ some (id, incarnation)
unfolding hello_names text str_eq
hello_names_lem [] incarnation h = absurd (h refl)
hello_names_lem (c ∷ id) [] h = refl
hello_names_lem (c ∷ id) (d ∷ incarnation) h = refl

-- The responder reads from the initiator's HELLO exactly the initiator's name and incarnation, and
-- holds the connection under that name with that incarnation, if both are printable ASCII without
-- spaces and the name is not empty.
pub handle_inbound-hello_line :
    (c : ℕ) (remote id incarnation : Bytes) (m : Mesh)
    → is_plain id ≡ true
    → is_plain incarnation ≡ true
    → id ≢ []
    → (handle_inbound c remote (some (hello_line id incarnation)) m
        ≡ accept (some (id, incarnation)) c remote m)
      × (lookup id (handle_inbound c remote (some (hello_line id incarnation)) m).0.conns
          ≡ some (record { node_id = id; incarnation = incarnation; conn = c }))
unfolding handle_inbound
handle_inbound-hello_line c remote id incarnation m p q h =
    rw (fields-hello_line id incarnation p q, hello_names_lem id incarnation h)
      (refl, unfold accept in rw (lookup-insert id id _ m.conns, str_eq_refl id))
