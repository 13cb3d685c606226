-- ===== src/Utils/Flags/Compaction.antt =====
-- What `parse_commandline_flags` leaves in `argv`.
use mathlib.Core.List.{perm_middle}
use mathlib.Core.List.Perm
use ccml.Base.{
  ℕ, zero, suc, ◌+◌, ◌≡◌, refl, sym, ap, ◌∙◌, Bool, List, [], ◌∷◌, ◌++◌, append_assoc, append-nil,
  some, length, get_elem?, set, length-append, Perm, arith,
}
use ccml.Utils.Str.{Text}
use ccml.Utils.Flags.{
  Numbers, Flags, used, stays, fate, exchange, swap, flags_loop, parse_commandline_flags,
}

get_elem?-append :
    (xs : List Text) (y : Text) (ys : List Text) (i : ℕ)
    → i ≡ length xs
    → get_elem? (xs ++ y ∷ ys) i ≡ some y
get_elem?-append [] y ys zero h = refl
get_elem?-append [] y ys (suc i) h = ground arith
get_elem?-append (x ∷ xs) y ys zero h = ground arith
get_elem?-append (x ∷ xs) y ys (suc i) h = get_elem?-append xs y ys i (omega arith)

set-append :
    (xs : List Text) (y z : Text) (ys : List Text) (i : ℕ)
    → i ≡ length xs
    → set (xs ++ y ∷ ys) i z ≡ xs ++ z ∷ ys
set-append [] y z ys zero h = refl
set-append [] y z ys (suc i) h = ground arith
set-append (x ∷ xs) y z ys zero h = ground arith
set-append (x ∷ xs) y z ys (suc i) h = ap (λ t. x ∷ t) (set-append xs y z ys i (omega arith))

-- Swapping the first argument behind the kept ones with the next one of those to come, where arguments
-- that were used stand between them.
swap-between :
    (kept passed : List Text) (u arg : Text) (args : List Text)
    → swap
        (length kept)
        (length kept + suc (length passed))
        ((kept ++ (u ∷ passed)) ++ (arg ∷ args))
      ≡ (kept ++ (arg ∷ passed)) ++ (u ∷ args)
unfolding swap exchange
swap-between kept passed u arg args =
    let j = length kept + suc (length passed) in
    let l : j ≡ length (kept ++ (u ∷ passed)) = sym (length-append kept (u ∷ passed)) in
    let l' : j ≡ length (kept ++ (arg ∷ passed)) = sym (length-append kept (arg ∷ passed)) in
    let first =
      ap (λ t. get_elem? t (length kept)) (append_assoc kept (u ∷ passed) (arg ∷ args))
      ∙ get_elem?-append kept u (passed ++ (arg ∷ args)) (length kept) refl in
    let second = get_elem?-append (kept ++ (u ∷ passed)) arg args j l in
    let set_first =
      ap (λ t. set t (length kept) arg) (append_assoc kept (u ∷ passed) (arg ∷ args))
      ∙ set-append kept u arg (passed ++ (arg ∷ args)) (length kept) refl
      ∙ sym (append_assoc kept (arg ∷ passed) (arg ∷ args)) in
    rw (first, second, exchange, set_first) (set-append (kept ++ (arg ∷ passed)) arg u args j l')

swap-same :
    (kept : List Text) (arg : Text) (args : List Text)
    → swap (length kept) (length kept) (kept ++ arg ∷ args) ≡ kept ++ arg ∷ args
unfolding swap exchange
swap-same kept arg args =
    let e = get_elem?-append kept arg args (length kept) refl in
    let f = set-append kept arg arg args (length kept) refl in rw (e, exchange, f, f) refl

-- The list after the swap, by what is kept and what was used.
swap-same_kept :
    (front : List Text) (arg : Text) (args : List Text) (i : ℕ)
    → i ≡ length front
    → swap (length front) i ((front ++ []) ++ (arg ∷ args)) ≡ ((front ++ (arg ∷ [])) ++ []) ++ args
swap-same_kept front arg args i h =
    rw (h, append-nil front, append-nil (front ++ (arg ∷ [])), append_assoc front (arg ∷ []) args)
      (swap-same front arg args)

swap-between_kept :
    (front passed : List Text) (u arg : Text) (args : List Text) (i : ℕ)
    → i ≡ length front + suc (length passed)
    → swap (length front) i ((front ++ (u ∷ passed)) ++ (arg ∷ args))
      ≡ ((front ++ (arg ∷ [])) ++ (passed ++ (u ∷ []))) ++ args
swap-between_kept front passed u arg args i h =
    let spread =
      append_assoc (front ++ (arg ∷ [])) (passed ++ (u ∷ [])) args
      ∙ append_assoc front (arg ∷ []) ((passed ++ (u ∷ [])) ++ args)
      ∙ ap (λ t. front ++ (arg ∷ t)) (append_assoc passed (u ∷ []) args) in
    rw h (
      swap-between front passed u arg args
      ∙ append_assoc front (arg ∷ passed) (u ∷ args)
      ∙ sym spread)

module _ (n : Numbers) (with_help : Bool) where
  loop_lem :
      (f : Flags n) (i : ℕ) (args : List Text) {g : Flags n} {argv argv' l l' : List Text}
      {k k' m m' : ℕ}
      → argv ≡ argv'
      → k ≡ k'
      → l ≡ l'
      → m ≡ m'
      → flags_loop n with_help i args f argv' k' ≡ some (g, l, m)
      → flags_loop n with_help i args f argv k ≡ some (g, l', m')
  loop_lem f i args a b c d e = cc

  -- What becomes of the arguments one after the other: the flags at the end, the arguments that stay
  -- and those that are used, each in their order.
  pub data Sifts : Flags n → List Text → Flags n → List Text → List Text → Type 0 where
    done : {f : Flags n} → Sifts f [] f [] []
    uses :
        {f f' g : Flags n} {arg : Text} {args kept rest : List Text}
        → fate n with_help f arg ≡ used f'
        → Sifts f' args g kept rest
        → Sifts f (arg ∷ args) g kept (arg ∷ rest)
    keeps :
        {f g : Flags n} {arg : Text} {args kept rest : List Text}
        → fate n with_help f arg ≡ stays
        → Sifts f args g kept rest
        → Sifts f (arg ∷ args) g (arg ∷ kept) rest

  -- The loop ends with the kept arguments in front and with `moved` behind them.
  abbrev Ends :
      ℕ → List Text → Flags n → List Text → List Text → Flags n → List Text → List Text → Type 0
  Ends i args f front passed g kept rest =
      (moved : List Text) × (flags_loop n with_help i args f ((front ++ passed) ++ args)
          (length front)
        ≡ some (g, (front ++ kept) ++ moved, length front + length kept))
      × Perm moved (passed ++ rest)

  loop-Sifts :
      {f g : Flags n} {args kept rest : List Text} (front passed : List Text) (i : ℕ)
      → i ≡ length front + length passed
      → Sifts f args g kept rest
      → Ends i args f front passed g kept rest
  unfolding flags_loop
  loop-Sifts {f = f} front passed i h done = (
    passed,
    rw (append-nil front, append-nil (front ++ passed))
        (ap (λ k. some (f, front ++ passed, k)) (omega arith)),
    rw (append-nil passed) (Perm.refl _),
  )
  loop-Sifts {g = g} front passed i h
        (uses {f' = f'} {arg = arg} {args = args} {kept = kept} {rest = rest} e s) =
      let (moved, r, p) =
        loop-Sifts front (passed ++ (arg ∷ [])) (i + 1)
          (omega (arith, length-append passed (arg ∷ []))) s in
      let move : (front ++ passed) ++ (arg ∷ args) ≡ (front ++ (passed ++ (arg ∷ []))) ++ args =
        ap (λ t. t) (append_assoc front passed (arg ∷ args))
        ∙ ap (λ t. front ++ t) (sym (append_assoc passed (arg ∷ []) args))
        ∙ sym (append_assoc front (passed ++ (arg ∷ [])) args) in
      (moved, rw (e, flags_loop, move) r, rw (append_assoc passed (arg ∷ []) rest) at p)
  loop-Sifts front [] i h
        (keeps {f = f} {arg = arg} {args = args} {kept = kept} {rest = rest} e s) =
      let (moved, r, p) =
        loop-Sifts (front ++ (arg ∷ [])) [] (i + 1) (omega (arith, length-append front (arg ∷ [])))
          s in
      (
        moved,
        rw (e, flags_loop)
            (loop_lem f (i + 1) args (swap-same_kept front arg args i (omega arith))
              (sym (length-append front (arg ∷ [])))
              (ap (λ t. t ++ moved) (append_assoc front (arg ∷ []) kept))
              (omega (arith, length-append front (arg ∷ []))) r),
        p,
      )
  loop-Sifts front (u ∷ passed) i h
        (keeps {f = f} {arg = arg} {args = args} {kept = kept} {rest = rest} e s) =
      let (moved, r, p) =
        loop-Sifts (front ++ (arg ∷ [])) (passed ++ (u ∷ [])) (i + 1)
          (omega (arith, length-append front (arg ∷ []), length-append passed (u ∷ []))) s in
      (
        moved,
        rw (e, flags_loop)
            (loop_lem f (i + 1) args (swap-between_kept front passed u arg args i (omega arith))
              (sym (length-append front (arg ∷ [])))
              (ap (λ t. t ++ moved) (append_assoc front (arg ∷ []) kept))
              (omega (arith, length-append front (arg ∷ []))) r),
        Perm.trans (rw (append_assoc passed (u ∷ []) rest) at p) (perm_middle passed rest),
      )

  -- When no argument ends the program, `argv` starts with the program's name and the arguments that are no flags,
  -- in the order in which they came, as many as `argc` then says, and the flags that were used stand
  -- behind them in some order: no argument is lost. The flags have the values that the arguments give
  -- one after the other.
  pub parse_commandline_flags-Sifts :
      (f g : Flags n) (name : Text) (args kept rest : List Text)
      → Sifts f args g kept rest
      → (moved : List Text) × (parse_commandline_flags n with_help f (name ∷ args)
          ≡ some (g, name ∷ (kept ++ moved), 1 + length kept))
        × Perm moved rest
  unfolding parse_commandline_flags
  parse_commandline_flags-Sifts f g name args kept rest s =
      loop-Sifts (name ∷ []) [] 1 (omega arith) s
