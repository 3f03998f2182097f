-- ===== src/Tests/Arguments.antt =====
-- The command line of the client.
use quicmeshpoc.Common.{
  Bytes, List, [], ◌∷◌, ◌≡◌, ◌≤◌, refl, arith, length, ◌==◌, if◌then◌else◌, str_eq,
}
use quicmeshpoc.Cli.{
  FlagEnd, bad_flag, help, args_left, parse_args, exits, node, Layout, result_of, first_word,
  parse_args_lem,
}
use quicmeshpoc.Tests.Data.{ann}

-- A flag is an argument that starts with a dash; -h asks for help, and one with a second dash is bad.
abbrev pub drop_flags : List Bytes → FlagEnd
drop_flags [] = args_left []
drop_flags ([] ∷ rest) = args_left ([] ∷ rest)
drop_flags ((c ∷ s) ∷ rest) =
    if c == b'-'
    then (if str_eq s (b'h' ∷ [])
        then help
        else if str_eq s (b'-' ∷ [])
        then bad_flag
        else drop_flags rest)
    else args_left ((c ∷ s) ∷ rest)

drop_flags_shrinks :
    (args rest : List Bytes) → drop_flags args ≡ args_left rest → length rest ≤ length args
drop_flags_shrinks [] rest e = ground (arith, e)
drop_flags_shrinks ([] ∷ args) rest e = ground (arith, e)
drop_flags_shrinks ((c ∷ s) ∷ args) rest e = ground (arith, e, drop_flags_shrinks args rest)

-- A flag, the name, and a bad flag behind it.
abbrev bad_behind : List Bytes
bad_behind = (b'-' ∷ []) ∷ ann ∷ (b'-' ∷ b'-' ∷ []) ∷ []

parse_args_lem_example :
    (words : List Bytes) × (e : FlagEnd) × Layout drop_flags bad_behind words e
    × (parse_args drop_flags 4 [] bad_behind
        ≡ result_of drop_flags e (first_word drop_flags [] words))
parse_args_lem_example = parse_args_lem drop_flags 4 bad_behind drop_flags_shrinks (omega arith)

-- The name is found between flags; a request for help ends with status 0.
parse_args_run : parse_args drop_flags 4 [] ((b'-' ∷ []) ∷ ann ∷ (b'-' ∷ []) ∷ []) ≡ node ann
unfolding parse_args str_eq
parse_args_run = refl

parse_args_help : parse_args drop_flags 3 [] (ann ∷ (b'-' ∷ b'h' ∷ []) ∷ []) ≡ exits 0
unfolding parse_args str_eq
parse_args_help = refl
