-- ===== src/Tests/CommandLine.antt =====
-- The theorems on the command line at concrete inputs.
use ccml.Base.{arith, ℕ, ◌+◌, ◌≡◌, refl, Bool, true, false, List, [], ◌∷◌, ◌++◌, some, Perm}
use ccml.Utils.Str.{Text}
use ccml.Utils.Flags.Assignment.{IsPlain, assigned, parse_argument-assigned}
use ccml.Utils.Flags.{
  Numbers, Command, ok, not_found, bool_of, parse_argument, Flags, fate, used, stays,
  parse_commandline_flags,
}
use ccml.Utils.Flags.Compaction.{done, uses, keeps, parse_commandline_flags-Sifts}

-- Numbers that are never read.
abbrev no_numbers : Numbers
no_numbers = record {
  Number = ℕ;
  read_int32 = λ s v. (false, v);
  read_double = λ s v. (false, v);
  read_int64 = λ s v. (false, v);
  read_uint64 = λ s v. (false, v);
}

-- One flag, `v`, of type bool.
abbrev flags_with : Bool → Flags no_numbers
flags_with b = record {
  bools = record { name = 118 ∷ []; value = b; text = []; default_value = false } ∷ [];
  int32s = [];
  doubles = [];
  int64s = [];
  uint64s = [];
  strings = [];
}

-- "-v", "x", "--v=0"
abbrev arguments : List Text
arguments = (45 ∷ 118 ∷ []) ∷ (120 ∷ []) ∷ (45 ∷ 45 ∷ 118 ∷ 61 ∷ 48 ∷ []) ∷ []

short_used : fate no_numbers true (flags_with false) (45 ∷ 118 ∷ []) ≡ used (flags_with true)
unfolding fate
short_used = refl

other_stays : fate no_numbers true (flags_with true) (120 ∷ []) ≡ stays
unfolding fate
other_stays = refl

long_used :
    fate no_numbers true (flags_with true) (45 ∷ 45 ∷ 118 ∷ 61 ∷ 48 ∷ []) ≡ used (flags_with false)
unfolding fate
long_used = refl

parse_commandline_flags-Sifts_example :
    (moved : List Text) × (parse_commandline_flags no_numbers true
        (flags_with false)
        ((112 ∷ []) ∷ arguments)
      ≡ some (flags_with false, (112 ∷ []) ∷ (((120 ∷ []) ∷ []) ++ moved), 1 + 1))
    × Perm moved ((45 ∷ 118 ∷ []) ∷ (45 ∷ 45 ∷ 118 ∷ 61 ∷ 48 ∷ []) ∷ [])
parse_commandline_flags-Sifts_example =
    parse_commandline_flags-Sifts no_numbers true (flags_with false) (flags_with false) (112 ∷ [])
      arguments ((120 ∷ []) ∷ []) ((45 ∷ 118 ∷ []) ∷ (45 ∷ 45 ∷ 118 ∷ 61 ∷ 48 ∷ []) ∷ [])
      (uses short_used (keeps other_stays (uses long_used done)))

-- Two flags of type bool, `a` and `ab`, and the argument "--ab=1".
abbrev two_flags : Bool → List (Command Bool)
two_flags b =
    record { name = 97 ∷ []; value = false; text = []; default_value = false }
    ∷ record { name = 97 ∷ 98 ∷ []; value = b; text = []; default_value = false }
    ∷ []

ab-IsPlain : IsPlain (97 ∷ 98 ∷ [])
ab-IsPlain = ((ground arith, ground arith), ((ground arith, ground arith), tt))

parse_argument-assigned_example :
    (parse_argument bool_of (45 ∷ 45 ∷ 97 ∷ 98 ∷ 61 ∷ 49 ∷ []) (two_flags false)
      ≡ (ok, two_flags true))
    × (parse_argument bool_of (45 ∷ 45 ∷ 97 ∷ 98 ∷ 61 ∷ []) (two_flags false)
        ≡ (not_found, two_flags false))
unfolding assigned bool_of
parse_argument-assigned_example =
    parse_argument-assigned bool_of true (97 ∷ 98 ∷ []) [] 49 (two_flags false) ab-IsPlain
      (((ground arith, ground arith), tt), (ab-IsPlain, tt))
