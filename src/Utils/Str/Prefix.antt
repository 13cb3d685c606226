-- ===== src/Utils/Str/Prefix.antt =====
-- What `starts_with` and `ends_with` decide.
use ccml.Base.{
  ◌-◌, ◌≡◌, refl, ap, sym, ◌∙◌, ◌↔◌, true, [], ◌∷◌, ◌++◌, length, take, drop, leb, ==-refl, le→leb,
  arith, length-append, take-append-drop, drop-length-append,
}
use ccml.Utils.Str.{Text, str_eq, prefix_loop, starts_with, ends_with}

pub str_eq_refl : (s : Text) → str_eq s s ≡ true
unfolding str_eq
str_eq_refl [] = refl
str_eq_refl (c ∷ s) = rw (==-refl c) (str_eq_refl s)

pub str_eq_sound : (s t : Text) → str_eq s t ≡ true → s ≡ t
unfolding str_eq
str_eq_sound [] [] h = refl
str_eq_sound [] (y ∷ ys) h = cc
str_eq_sound (x ∷ xs) [] h = cc
str_eq_sound (x ∷ xs) (y ∷ ys) h = ground (arith, str_eq_sound xs ys)

prefix_loop_sound : (s p : Text) → prefix_loop s p ≡ true → (rest : Text) × (s ≡ p ++ rest)
unfolding prefix_loop
prefix_loop_sound s [] h = (s, refl)
prefix_loop_sound [] (y ∷ p) h = cc
prefix_loop_sound (x ∷ s) (y ∷ p) h =
    let (rest, e) = prefix_loop_sound s p (ground arith) in (rest, ground arith)

prefix_loop_append : (p rest : Text) → prefix_loop (p ++ rest) p ≡ true
unfolding prefix_loop
prefix_loop_append [] rest = refl
prefix_loop_append (x ∷ p) rest = rw (==-refl x) (prefix_loop_append p rest)

-- `starts_with` holds exactly when the text is the prefix followed by some rest.
pub starts_with_iff : (s p : Text) → (starts_with s p ≡ true) ↔ ((rest : Text) × (s ≡ p ++ rest))
unfolding starts_with
starts_with_iff s p = (sound, complete)
  where
    sound : starts_with s p ≡ true → (rest : Text) × (s ≡ p ++ rest)
    sound h = prefix_loop_sound s p (ground arith)

    complete : ((rest : Text) × (s ≡ p ++ rest)) → starts_with s p ≡ true
    complete (rest, e) =
        rw (e, le→leb (length p) (length (p ++ rest)) (omega (arith, length-append p rest)))
          (prefix_loop_append p rest)

-- `ends_with` holds exactly when the text is some start followed by the extension.
ends_with_iff : (s ext : Text) → (ends_with s ext ≡ true) ↔ ((start : Text) × (s ≡ start ++ ext))
unfolding ends_with
ends_with_iff s ext = (sound, complete)
  where
    sound : ends_with s ext ≡ true → (start : Text) × (s ≡ start ++ ext)
    sound h =
        let tail_eq : ext ≡ drop (length s - length ext) s = str_eq_sound ext _ (ground arith) in
        (
          take (length s - length ext) s,
          sym (take-append-drop (length s - length ext) s)
              ∙ ap (◌++◌ (take (length s - length ext) s)) (sym tail_eq),
        )

    complete : ((start : Text) × (s ≡ start ++ ext)) → ends_with s ext ≡ true
    complete (start, e) =
        let n : length (start ++ ext) - length ext ≡ length start =
          omega (arith, length-append start ext) in
        let fits : leb (length ext) (length (start ++ ext)) ≡ true =
          le→leb (length ext) (length (start ++ ext)) (omega (arith, length-append start ext)) in
        rw (e, n, fits, drop-length-append start ext, str_eq_refl ext)

-- `starts_with` holds exactly when the text is the prefix followed by some rest, and `ends_with` exactly
-- when it is some start followed by the extension.
pub starts_with-ends_with :
    (s affix : Text)
    → ((starts_with s affix ≡ true) ↔ ((rest : Text) × (s ≡ affix ++ rest)))
      × ((ends_with s affix ≡ true) ↔ ((start : Text) × (s ≡ start ++ affix)))
starts_with-ends_with s affix = (starts_with_iff s affix, ends_with_iff s affix)
