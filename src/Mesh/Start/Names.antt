-- ===== src/Mesh/Start/Names.antt =====
-- What an incarnation looks like.
use quicmeshpoc.Common.{
  ℕ, zero, suc, ◌+◌, ◌*◌, ◌/◌, ◌%◌, ◌<◌, Bytes, true, ◌&&◌, [], ◌∷◌, none, some, All, ltb, length,
  is_plain, ◌≡◌, ◌≢◌, refl, arith, lookup, Bool-cases, inl, inr,
}
use quicmeshpoc.Mesh.State.{Mesh}
use quicmeshpoc.Mesh.Start.{hex_digit, hex_encode, hex_digits, new_incarnation}
use quicmeshpoc.Mesh.Inbound.{hello_line, handle_inbound}
use quicmeshpoc.Mesh.Inbound.Hello.{handle_inbound-hello_line}

hex_digit-plain : (n : ℕ) → n < 16 → (ltb 0x20 (hex_digit n) && ltb (hex_digit n) 0x7f) ≡ true
unfolding hex_digit
hex_digit-plain n h = ground arith

hex_encode-plain : (s : Bytes) → All (λ c. c < 256) s → is_plain (hex_encode s) ≡ true
unfolding hex_encode
hex_encode-plain [] h = refl
hex_encode-plain (c ∷ s) h = ground (
  arith,
  hex_digit-plain (c / 16) (omega arith),
  hex_digit-plain (c % 16) (omega arith),
  hex_encode-plain s h.1,
)

length-hex_encode : (s : Bytes) → length (hex_encode s) ≡ 2 * length s
unfolding hex_encode
length-hex_encode [] = omega arith
length-hex_encode (c ∷ s) = omega (arith, length-hex_encode s)

hex_digits-plain :
    (f n : ℕ) (rest : Bytes) → is_plain rest ≡ true → is_plain (hex_digits f n rest) ≡ true
unfolding hex_digits
hex_digits-plain zero n rest h = h
hex_digits-plain (suc f) n rest h = elim (Bool-cases (ltb n 16)) [
  | inl small ↦ rw small (ground (arith, hex_digit-plain n (ground arith), h))
  | inr large ↦ rw large (
      hex_digits-plain f (n / 16) (hex_digit (n % 16) ∷ rest)
        (ground (arith, hex_digit-plain (n % 16) (omega arith), h)))
]

-- The incarnation of a process is printable ASCII without spaces, with random bytes or without; with
-- eight random bytes it has sixteen digits. So the HELLO of a process, under a name that is
-- not empty and plain too, always gives its peer that name and that incarnation.
pub new_incarnation_lem :
    (node_id : Bytes) (now c : ℕ) (bytes remote : Bytes) (m : Mesh)
    → is_plain node_id ≡ true
    → node_id ≢ []
    → length bytes ≡ 8
    → All (λ b. b < 256) bytes
    → (length (new_incarnation (some bytes) now) ≡ 16)
      × (lookup node_id
            (handle_inbound c remote
              (some (hello_line node_id (new_incarnation (some bytes) now)))
              m).0.conns
          ≡ some (record {
            node_id = node_id;
            incarnation = new_incarnation (some bytes) now;
            conn = c;
          }))
      × (lookup node_id
            (handle_inbound c remote
              (some (hello_line node_id (new_incarnation none now)))
              m).0.conns
          ≡ some (record { node_id = node_id; incarnation = new_incarnation none now; conn = c }))
unfolding new_incarnation
new_incarnation_lem node_id now c bytes remote m p given eight small = (
  omega (arith, length-hex_encode bytes, eight),
  (handle_inbound-hello_line c remote node_id (hex_encode bytes) m p (hex_encode-plain bytes small)
      given).1,
  (handle_inbound-hello_line c remote node_id (hex_digits (now + 1) now []) m p
      (hex_digits-plain (now + 1) now [] refl) given).1,
)
