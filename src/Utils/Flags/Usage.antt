-- ===== src/Utils/Flags/Usage.antt =====
-- The usage text of src/utils/CommandLineParser.cpp, which the program prints before it exits.
use ccml.Base.{ℕ, Bool, List, [], ◌∷◌}
use ccml.Utils.Str.{Text}
use ccml.Utils.Flags.{Command, Numbers, Flags}

-- A line: the name, the description and the default value.
abbrev pub Line : Type 0 → Type 0
Line T = Text × Text × T

-- `name = "--" + name`
pub dashed : {T : Type 0} → Command T → Command T
dashed c = record c { name = 45 ∷ 45 ∷ c.name }

-- `print_type_usage`: the lines, and the registry then, whose names are changed.
pub print_type_usage : {T : Type 0} → List (Command T) → List (Line T) × List (Command T)
unfolding dashed
print_type_usage [] = ([], [])
print_type_usage (c ∷ commands) =
    let (lines, rest) = print_type_usage commands in
    (((dashed c).name, c.text, c.default_value) ∷ lines, dashed c ∷ rest)

module _ (n : Numbers) where
  -- `print_usage_and_exit`: the text by the types in the order of `print_type_usages`, and the status.
  pub record Usage : Type 0 where
    pub bools : List (Line Bool)
    pub int32s : List (Line n.Number)
    pub strings : List (Line Text)
    pub doubles : List (Line n.Number)
    pub int64s : List (Line n.Number)
    pub uint64s : List (Line n.Number)
    pub status : ℕ

  pub print_usage_and_exit : Flags n → Usage
  unfolding print_type_usage
  print_usage_and_exit f = record {
    bools = (print_type_usage f.bools).0;
    int32s = (print_type_usage f.int32s).0;
    strings = (print_type_usage f.strings).0;
    doubles = (print_type_usage f.doubles).0;
    int64s = (print_type_usage f.int64s).0;
    uint64s = (print_type_usage f.uint64s).0;
    status = 1;
  }

  -- `print_parse_error`: the name and the input that are printed, then the usage.
  pub print_parse_error : Text → Text → Flags n → Text × Text × Usage
  unfolding print_usage_and_exit
  print_parse_error name actual_input f = (name, actual_input, print_usage_and_exit f)
