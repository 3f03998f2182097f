-- ===== src/Cli.antt =====
-- cmd/quicchat/main.go: the loop that lets flags stand on both sides of the node's name. The flag
-- package enters as `parse`, which ends the process itself or gives what it leaves of the arguments.
pub mod Main
use quicmeshpoc.Common.{
  ℕ, zero, suc, ◌+◌, ◌≤◌, ◌<◌, Bytes, List, [], ◌∷◌, Option, none, some, length, str_eq,
  if◌then◌else◌, ◌≡◌, refl, arith,
}

-- What flag.CommandLine.Parse does, under flag.ExitOnError: it ends the process, at an argument that is
-- no valid flag or at a request for help, or it returns and flag.Args is what is left.
pub data FlagEnd : Type 0 where
  bad_flag help : FlagEnd
  args_left : List Bytes → FlagEnd

-- The status that the process ends with, or the name, which is empty if none was given; `no_fuel` is
-- not a case of the program.
pub data Parsed : Type 0 where
  no_fuel : Parsed
  exits : ℕ → Parsed
  node : Bytes → Parsed

module _ (parse : List Bytes → FlagEnd) where
  unfoldable pub parse_args : ℕ → Bytes → List Bytes → Parsed
  parse_args zero id rest = no_fuel
  parse_args (suc f) id rest = elim (parse rest) [
    | bad_flag ↦ exits 2
    | help ↦ exits 0
    | args_left left ↦ elim left [
      | [] ↦ node id
      | a ∷ more ↦ parse_args f (if str_eq id [] then a else id) more
    ]
  ]

  -- The words of the arguments that are not taken as flags, each found where the flag package stops,
  -- and what it does behind the last of them.
  pub data Layout : List Bytes → List Bytes → FlagEnd → Type 0 where
    fails : {args : List Bytes} → parse args ≡ bad_flag → Layout args [] bad_flag
    asks : {args : List Bytes} → parse args ≡ help → Layout args [] help
    all_flags : {args : List Bytes} → parse args ≡ args_left [] → Layout args [] (args_left [])
    word :
        {args rest words : List Bytes} {e : FlagEnd} (w : Bytes)
        → parse args ≡ args_left (w ∷ rest)
        → Layout rest words e
        → Layout args (w ∷ words) e

  -- The first of the words that is not empty.
  abbrev pub first_word : Bytes → List Bytes → Bytes
  first_word id [] = id
  first_word id (w ∷ words) = first_word (if str_eq id [] then w else id) words

  abbrev pub result_of : FlagEnd → Bytes → Parsed
  result_of bad_flag id = exits 2
  result_of help id = exits 0
  result_of (args_left left) id = node id

  abbrev pub Shrinks : Type 0
  Shrinks = (args rest : List Bytes) → parse args ≡ args_left rest → length rest ≤ length args

  -- What the loop finds, and its result.
  abbrev pub Found : ℕ → Bytes → List Bytes → Type 0
  Found f id args =
      (words : List Bytes) × (e : FlagEnd) × Layout args words e
      × (parse_args f id args ≡ result_of e (first_word id words))

  parsed_round :
      (f : ℕ) (id : Bytes) (args : List Bytes) (e : FlagEnd)
      → parse args ≡ e
      → ((w : Bytes) (rest : List Bytes)
          → e ≡ args_left (w ∷ rest)
          → Found f (if str_eq id [] then w else id) rest)
      → Found (suc f) id args
  unfolding parse_args
  parsed_round f id args bad_flag h onward = ([], bad_flag, fails h, rw (h, parse_args) refl)
  parsed_round f id args help h onward = ([], help, asks h, rw (h, parse_args) refl)
  parsed_round f id args (args_left []) h onward =
      ([], args_left [], all_flags h, rw (h, parse_args) refl)
  parsed_round f id args (args_left (w ∷ rest)) h onward =
      let (words, e, found, run) = onward w rest refl in
      (w ∷ words, e, word w h found, rw (h, parse_args) run)

  parsed : (f : ℕ) (id : Bytes) (args : List Bytes) → Shrinks → length args < f → Found f id args
  parsed zero id args shrinks k = absurd (omega (arith, k))
  parsed (suc f) id args shrinks k = parsed_round f id args (parse args) refl (λ w rest e.
      parsed f (if str_eq id [] then w else id) rest shrinks
        (omega (arith, shrinks args (w ∷ rest) e, k)))

  -- If the flag package leaves no more arguments than it gets, the loop comes to an end in one round
  -- more than there are arguments: it finds the words of the arguments that are no flags, wherever
  -- the flags stand, and then a bad flag, with which the process exits with status 2, a request for
  -- help, with which it exits with status 0, or no more arguments, and then the name is the first word
  -- that is not empty. More rounds do not change the result.
  pub parse_args_lem :
      (f : ℕ) (args : List Bytes)
      → ((args rest : List Bytes) → parse args ≡ args_left rest → length rest ≤ length args)
      → length args < f
      → (words : List Bytes) × (e : FlagEnd) × Layout args words e
        × (parse_args f [] args ≡ result_of e (first_word [] words))
  parse_args_lem f args shrinks k = parsed f [] args shrinks k
