-- ===== src/Utils/Flags.antt =====
-- src/utils/CommandLineParser.cpp and src/utils/CommandLineParser.h: the registries of flags and the
-- parser of the command line. A string is the list of its bytes; the formatted input of numbers is a
-- parameter.
pub mod Compaction
pub mod Usage
pub mod Assignment
use ccml.Base.{
  ℕ, zero, suc, ◌+◌, ◌-◌, Bool, true, false, ◌&&◌, ◌||◌, List, [], ◌∷◌, ◌++◌, map, Option, none,
  some, length, get_elem?, set, drop, ltb, leb, ◌==◌, if◌then◌else◌,
}
use ccml.Utils.Str.{Text, starts_with, str_eq}

-- `CommandLineFlagRegistry<T>::Command`, with the variable that `value` points to.
pub record Command (T : Type 0) : Type 0 where
  pub name : Text
  pub value : T
  pub text : Text
  pub default_value : T

-- The constructor of `CommandLineFlagRegister`.
pub register : {T : Type 0} → Text → T → Text → List (Command T) → List (Command T)
register name value desc commands =
    commands ++ record { name = name; value = value; text = desc; default_value = value } ∷ []

-- CC_DEFINE_variable: the variable starts as its default, and is registered under its name.
pub cc_define_variable : {T : Type 0} → Text → T → Text → List (Command T) → List (Command T)
unfolding register
cc_define_variable name default_value text commands = register name default_value text commands

-- `k_status_ok`, `k_status_invalid` with the name in `extra_info`, `k_status_not_found`
pub data Status : Type 0 where
  ok : Status
  invalid : Text → Status
  not_found : Status

-- The `std::transform` of `StringToValue<bool>`.
abbrev lower : ℕ → ℕ
lower c = if leb c 90 && leb 65 c then c + 32 else c

-- `StringToValue<bool>`: whether it succeeds, and the value afterwards. The texts are "true", "1",
-- "false" and "0".
unfoldable pub bool_of : Text → Bool → Bool × Bool
unfolding str_eq
bool_of content value =
    let tmp = map lower content in
    if str_eq tmp (116 ∷ 114 ∷ 117 ∷ 101 ∷ []) || str_eq tmp (49 ∷ [])
    then (true, true)
    else if str_eq tmp (102 ∷ 97 ∷ 108 ∷ 115 ∷ 101 ∷ []) || str_eq tmp (48 ∷ [])
    then (true, false)
    else (false, value)

-- `StringToValue<std::string>`
pub string_of : Text → Text → Bool × Text
string_of content value = (true, content)

-- `content` for one command: what stands behind `--name=` or `-name=`.
pub content_of : Text → Text → Text
unfolding starts_with
content_of argument name =
    let long = 45 ∷ 45 ∷ name ++ 61 ∷ [] in
    let short = 45 ∷ name ++ 61 ∷ [] in
    if starts_with argument long
    then drop (length long) argument
    else if starts_with argument short
    then drop (length short) argument
    else []

-- The rest of a round of `parse_argument`: the conversion of a content that is not empty.
unfoldable pub converted : {T : Type 0} → Command T → Bool × T → Status × Command T
converted command (true, value) = (ok, record command { value = value })
converted command (false, value) = (invalid command.name, record command { value = value })

-- `parse_argument<T>`, with `StringToValue<T>` given: the status and the commands afterwards.
pub parse_argument :
    {T : Type 0} → (Text → T → Bool × T) → Text → List (Command T) → Status × List (Command T)
unfolding content_of converted
parse_argument convert argument [] = (not_found, [])
parse_argument convert argument (command ∷ commands) =
    let (status, rest) = parse_argument convert argument commands in
    let content = content_of argument command.name in
    if length content == 0
    then (status, command ∷ rest)
    else let (s, c) = converted command (convert content command.value) in (s, c ∷ commands)

-- `prefixes`: "-", "--", "-no", "--no"
abbrev prefixes : List (Text × Bool)
prefixes =
    (45 ∷ [], true)
    ∷ (45 ∷ 45 ∷ [], true)
    ∷ (45 ∷ 110 ∷ 111 ∷ [], false)
    ∷ (45 ∷ 45 ∷ 110 ∷ 111 ∷ [], false)
    ∷ []

-- What one command makes of the argument: the new value.
pub bool_match : Text → Text → Option Bool
unfolding str_eq
bool_match argument name =
    if ltb (length name) (length argument)
    then elim (get_elem? prefixes (length argument - length name - 1)) [
      | none ↦ none
      | some (prefix, value) ↦ if str_eq argument (prefix ++ name) then some value else none
    ]
    else none

-- `parse_bool_argument_extra`
pub parse_bool_argument_extra : Text → List (Command Bool) → Bool × List (Command Bool)
unfolding bool_match
parse_bool_argument_extra argument [] = (false, [])
parse_bool_argument_extra argument (command ∷ commands) =
    let (found, rest) = parse_bool_argument_extra argument commands in
    elim (bool_match argument command.name) [
      | none ↦ (found, command ∷ rest)
      | some value ↦ (true, record command { value = value } ∷ commands)
    ]

-- The formatted input of a number type: whether it succeeds, and the value that it stores.
pub record Numbers : Type 1 where
  pub Number : Type 0
  pub read_int32 : Text → Number → Bool × Number
  pub read_double : Text → Number → Bool × Number
  pub read_int64 : Text → Number → Bool × Number
  pub read_uint64 : Text → Number → Bool × Number

-- `std::swap(argv[i], argv[j])`
exchange : ℕ → ℕ → List Text → Option Text → Option Text → List Text
exchange i j argv none y = argv
exchange i j argv (some x) none = argv
exchange i j argv (some x) (some y) = set (set argv i y) j x

pub swap : ℕ → ℕ → List Text → List Text
unfolding exchange
swap i j argv = exchange i j argv (get_elem? argv i) (get_elem? argv j)

module _ (n : Numbers) where
  -- The registries, in the order in which they are asked.
  pub record Flags : Type 0 where
    pub bools : List (Command Bool)
    pub int32s : List (Command n.Number)
    pub doubles : List (Command n.Number)
    pub int64s : List (Command n.Number)
    pub uint64s : List (Command n.Number)
    pub strings : List (Command Text)

  -- What becomes of an argument: it is used, it stays, or the program exits with its usage.
  pub data Fate : Type 0 where
    used : Flags → Fate
    stays : Fate
    exits : Fate

  -- The test of the status behind each `parse_argument`.
  abbrev after : Status → Flags → Fate → Fate
  after ok flags next = used flags
  after (invalid name) flags next = exits
  after not_found flags next = next

  -- "--help" or "-h"
  abbrev is_help : Text → Bool
  is_help arg = str_eq arg (45 ∷ 45 ∷ 104 ∷ 101 ∷ 108 ∷ 112 ∷ []) || str_eq arg (45 ∷ 104 ∷ [])

  -- The body of the loop up to the swap.
  unfoldable pub fate : Bool → Flags → Text → Fate
  unfolding parse_argument parse_bool_argument_extra bool_of string_of str_eq
  fate with_help f arg =
      let b = parse_argument bool_of arg f.bools in
      let i = parse_argument n.read_int32 arg f.int32s in
      let d = parse_argument n.read_double arg f.doubles in
      let l = parse_argument n.read_int64 arg f.int64s in
      let u = parse_argument n.read_uint64 arg f.uint64s in
      let s = parse_argument string_of arg f.strings in
      let e = parse_bool_argument_extra arg f.bools in
      after b.0 (record f { bools = b.1 })
        (after i.0 (record f { int32s = i.1 })
          (after d.0 (record f { doubles = d.1 })
            (after l.0 (record f { int64s = l.1 })
              (after u.0 (record f { uint64s = u.1 })
                (after s.0 (record f { strings = s.1 })
                  (if e.0
                    then used (record f { bools = e.1 })
                    else if with_help && is_help arg
                    then exits
                    else stays))))))

  -- The registries, `argv` and `unused_argc` at the end; `none` if the program exits.
  abbrev pub Parsed : Type 0
  Parsed = Option (Flags × List Text × ℕ)

  -- The loop over `i`, with the arguments from `i` on: those are not moved before their round.
  pub flags_loop : Bool → ℕ → List Text → Flags → List Text → ℕ → Parsed
  unfolding fate swap
  flags_loop with_help i [] f argv unused = some (f, argv, unused)
  flags_loop with_help i (arg ∷ args) f argv unused = elim (fate with_help f arg) [
    | used f' ↦ flags_loop with_help (i + 1) args f' argv unused
    | stays ↦ flags_loop with_help (i + 1) args f (swap unused i argv) (unused + 1)
    | exits ↦ none
  ]

  -- `parse_commandline_flags`
  pub parse_commandline_flags : Bool → Flags → List Text → Parsed
  unfolding flags_loop
  parse_commandline_flags with_help f argv = flags_loop with_help 1 (drop 1 argv) f argv 1
