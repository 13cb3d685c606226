-- ===== src/Utils/Flags/Assignment.antt =====
-- What an argument `--name=value` or `-name=value` does to the flags of one type.
use ccml.Base.{
  ℕ, ◌≡◌, ◌≢◌, refl, ap, sym, ◌∙◌, Bool, true, false, List, [], ◌∷◌, ◌++◌, length, drop, All, arith,
  append_assoc, Bool-cases, inl, inr, if◌then◌else◌, drop-length-append, ◌==◌,
}
use ccml.Utils.Str.{Text, str_eq, starts_with}
use ccml.Utils.Str.Prefix.{starts_with_iff, str_eq_refl, str_eq_sound}
use ccml.Utils.Flags.{Command, Status, not_found, content_of, converted, parse_argument}

-- A name without `=` and `-`, as an identifier of the program is.
abbrev pub IsPlain : Text → Type 0
IsPlain name = All (λ c. (c ≢ 61) × (c ≢ 45)) name

-- The argument, with two dashes or with one.
abbrev pub flag_argument : Bool → Text → Text → Text
flag_argument true name value = 45 ∷ 45 ∷ name ++ 61 ∷ value
flag_argument false name value = 45 ∷ name ++ 61 ∷ value

-- Names in front of `=` are the same if the texts are.
name_unique : (n m a b : Text) → IsPlain n → IsPlain m → n ++ 61 ∷ a ≡ m ++ 61 ∷ b → n ≡ m
name_unique [] [] a b p q e = refl
name_unique [] (y ∷ m) a b p q e = let z = q.0.0 in absurd (ground (arith, z, e))
name_unique (x ∷ n) [] a b p q e = let z = p.0.0 in absurd (ground (arith, z, e))
name_unique (x ∷ n) (y ∷ m) a b p q e =
    let head : x ≡ y = ground (arith, e) in
    let tail : n ++ 61 ∷ a ≡ m ++ 61 ∷ b = ground (arith, e) in
    let rest = name_unique n m a b p.1 q.1 tail in ap (λ c. c ∷ n) head ∙ ap (λ l. y ∷ l) rest

-- No name begins with a dash.
no_dash : (n a b : Text) → IsPlain n → n ++ 61 ∷ a ≢ 45 ∷ b
no_dash [] a b p e = ground (arith, e)
no_dash (x ∷ n) a b p e = let z = p.0.1 in ground (arith, z, e)

split_prefix : (name value : Text) → (name ++ 61 ∷ []) ++ value ≡ name ++ 61 ∷ value
split_prefix name value = append_assoc name (61 ∷ []) value

starts_with-false : (s p : Text) → ((rest : Text) → s ≢ p ++ rest) → starts_with s p ≡ false
starts_with-false s p h = elim (Bool-cases (starts_with s p)) [
  | inl e ↦ let (rest, q) = (starts_with_iff s p).0 e in absurd (h rest q)
  | inr e ↦ e
]

tails : (x y : ℕ) (s t : Text) → x ∷ s ≡ y ∷ t → s ≡ t
tails x y s t e = ground (arith, e)

-- An argument with two dashes and one with one dash, each against both forms of a name.
long_long :
    (name value c : Text)
    → IsPlain name
    → IsPlain c
    → str_eq c name ≡ false
    → starts_with (flag_argument true name value) (45 ∷ 45 ∷ c ++ 61 ∷ []) ≡ false
long_long name value c p q differ = starts_with-false _ _ (λ rest e.
    let same =
      name_unique name c value rest p q
        (tails 45 45 _ _ (tails 45 45 _ _ e) ∙ split_prefix c rest) in
    let equal = ap (λ n. str_eq c n) same ∙ str_eq_refl c in ground (arith, equal, differ))

long_short :
    (name value c : Text)
    → IsPlain c
    → starts_with (flag_argument true name value) (45 ∷ c ++ 61 ∷ []) ≡ false
long_short name value c q = starts_with-false _ _ (λ rest e.
    no_dash c rest (name ++ 61 ∷ value) q (sym (tails 45 45 _ _ e ∙ split_prefix c rest)))

short_long :
    (name value c : Text)
    → IsPlain name
    → starts_with (flag_argument false name value) (45 ∷ 45 ∷ c ++ 61 ∷ []) ≡ false
short_long name value c p =
    starts_with-false _ _ (λ rest e. no_dash name value _ p (tails 45 45 _ _ e))

short_short :
    (name value c : Text)
    → IsPlain name
    → IsPlain c
    → str_eq c name ≡ false
    → starts_with (flag_argument false name value) (45 ∷ c ++ 61 ∷ []) ≡ false
short_short name value c p q differ = starts_with-false _ _ (λ rest e.
    let same = name_unique name c value rest p q (tails 45 45 _ _ e ∙ split_prefix c rest) in
    let equal = ap (λ n. str_eq c n) same ∙ str_eq_refl c in ground (arith, equal, differ))

content_of-other :
    (long : Bool) (name value c : Text)
    → IsPlain name
    → IsPlain c
    → str_eq c name ≡ false
    → content_of (flag_argument long name value) c ≡ []
unfolding content_of
content_of-other true name value c p q differ =
    rw (long_long name value c p q differ, long_short name value c q) refl
content_of-other false name value c p q differ =
    rw (short_long name value c p, short_short name value c p q differ) refl

-- The argument begins with the prefix, and the value is the rest.
cut_prefix :
    (argument prefix value : Text)
    → prefix ++ value ≡ argument
    → (starts_with argument prefix ≡ true) × (drop (length prefix) argument ≡ value)
cut_prefix argument prefix value e = (
  (starts_with_iff argument prefix).1 (value, sym e),
  ap (drop (length prefix)) (sym e) ∙ drop-length-append prefix value,
)

content_of-same :
    (long : Bool) (name value : Text)
    → IsPlain name
    → content_of (flag_argument long name value) name ≡ value
unfolding content_of
content_of-same true name value p =
    let cut =
      cut_prefix (flag_argument true name value) (45 ∷ 45 ∷ name ++ 61 ∷ []) value
        (ap (λ l. 45 ∷ 45 ∷ l) (split_prefix name value)) in
    rw cut.0 cut.1
content_of-same false name value p =
    let cut =
      cut_prefix (flag_argument false name value) (45 ∷ name ++ 61 ∷ []) value
        (ap (λ l. 45 ∷ l) (split_prefix name value)) in
    rw (short_long name value name p, cut.0) cut.1

module _ {T : Type 0} (convert : Text → T → Bool × T) where
  -- The first flag of the name gets what the conversion gives, and the others stay.
  unfoldable pub assigned : Text → Text → List (Command T) → Status × List (Command T)
  unfolding converted
  assigned name value [] = (not_found, [])
  assigned name value (command ∷ commands) =
      let (status, rest) = assigned name value commands in
      if str_eq command.name name
      then (let (s, c) = converted command (convert value command.value) in (s, c ∷ commands))
      else (status, command ∷ rest)

  -- An argument `--name=value` or `-name=value` sets the first flag with exactly this name, reports
  -- whether the value could be converted and changes no other flag; it is not found if no flag has the
  -- name. With no value it is not found and changes nothing. The names have no `=` and no dash.
  pub parse_argument-assigned :
      (long : Bool) (name value : Text) (v : ℕ) (commands : List (Command T))
      → IsPlain name
      → All (λ c. IsPlain c.name) commands
      → (parse_argument convert (flag_argument long name (v ∷ value)) commands
          ≡ assigned name (v ∷ value) commands)
        × (parse_argument convert (flag_argument long name []) commands ≡ (not_found, commands))
  unfolding parse_argument assigned
  parse_argument-assigned long name value v [] p all = (refl, refl)
  parse_argument-assigned long name value v (c ∷ commands) p all =
      let (ih, ih') = parse_argument-assigned long name value v commands p all.1 in
      elim (Bool-cases (str_eq c.name name)) [
        | inr e ↦ (
          rw (content_of-other long name (v ∷ value) c.name p all.0 e, e, ih) refl,
          rw (content_of-other long name [] c.name p all.0 e, ih') refl,
        )
        | inl e ↦
            let same = str_eq_sound c.name name e in
            let content = λ (w : Text).
              ap (content_of (flag_argument long name w)) same ∙ content_of-same long name w p in
            let some_value : (length (v ∷ value) == 0) ≡ false = ground arith in
            (rw (content (v ∷ value), e, some_value) refl, rw (content [], ih') refl)
      ]
