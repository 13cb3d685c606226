-- ===== src/Utils/Str/Split.antt =====
-- What `split` returns.
use ccml.Base.{
  ℕ, zero, suc, ◌+◌, ◌-◌, ◌<◌, ◌≡◌, ◌≢◌, refl, ap, sym, ◌∙◌, subst, ◌⊎◌, inl, inr, List, [], ◌∷◌,
  ◌++◌, append_assoc, append-nil, none, some, length, take, drop, arith, length-drop, drop-drop,
  All, Option-cases,
}
use ccml.Utils.Str.{Text, index_of, find, substr, last_piece, split_loop, split}

abbrev pub Lacks : ℕ → Text → Type 0
Lacks sep = All (λ c. c ≢ sep)

-- The pieces, each with a separator behind it.
abbrev pub terminated : ℕ → List Text → Text
terminated sep [] = []
terminated sep (p ∷ ps) = p ++ sep ∷ terminated sep ps

-- The pieces are what stands between the separators; what stands behind the last separator is a
-- piece if it is not empty.
abbrev pub Splits : ℕ → Text → List Text → Type 0
Splits sep s ps =
    All (Lacks sep) ps
    × ((s ≡ terminated sep ps)
        ⊎ ((first : List Text) × (last : Text) × (ps ≡ first ++ last ∷ [])
            × (last ≢ [])
            × (s ≡ terminated sep first ++ last)))

index_of-none : (sep : ℕ) (s : Text) → index_of sep s ≡ none → Lacks sep s
unfolding index_of
index_of-none sep [] h = tt
index_of-none sep (c ∷ s) h = ground (arith, index_of-none sep s)

index_of-some :
    (sep : ℕ) (s : Text) (i : ℕ)
    → index_of sep s ≡ some i
    → (s ≡ take i s ++ sep ∷ drop (suc i) s) × Lacks sep (take i s) × (i < length s)
unfolding index_of
index_of-some sep [] i h = cc
index_of-some sep (c ∷ s) zero h = ground arith
index_of-some sep (c ∷ s) (suc i) h = ground (arith, index_of-some sep s i)

Splits-cons :
    (sep : ℕ) (s p r : Text) (ps : List Text)
    → s ≡ p ++ sep ∷ r
    → Lacks sep p
    → Splits sep r ps
    → Splits sep s (p ∷ ps)
Splits-cons sep s p r ps e lacks (all, inl whole) =
    ((lacks, all), inl (e ∙ ap (λ t. p ++ sep ∷ t) whole))
Splits-cons sep s p r ps e lacks (all, inr (first, last, eq, full, whole)) = (
  (lacks, all),
  inr (
    p ∷ first,
    last,
    ap (◌∷◌ p) eq,
    full,
    e ∙ ap (λ t. p ++ sep ∷ t) whole ∙ sym (append_assoc p (sep ∷ terminated sep first) last),
  ),
)

module _ (str : Text) (sep : ℕ) where
  -- The loop from `pos` on, given what is left of the text there.
  Loops : ℕ → ℕ → List Text → Text → Type 0
  Loops fuel pos pieces r =
      (ps : List Text) × (split_loop fuel str sep pos pieces ≡ some (pieces ++ ps))
      × Splits sep r ps

  last_piece-nil :
      (pos : ℕ) (pieces : List Text) → drop pos str ≡ [] → last_piece str pos pieces ≡ pieces
  unfolding last_piece
  last_piece-nil pos pieces e = rw (e, last_piece)

  last_piece-cons :
      (pos c : ℕ) (r : Text) (pieces : List Text)
      → drop pos str ≡ c ∷ r
      → last_piece str pos pieces ≡ pieces ++ (c ∷ r) ∷ []
  unfolding last_piece
  last_piece-cons pos c r pieces e = rw (e, last_piece)

  split_loop-none :
      (fuel pos : ℕ) (pieces : List Text)
      → index_of sep (drop pos str) ≡ none
      → split_loop (suc fuel) str sep pos pieces ≡ some (last_piece str pos pieces)
  unfolding split_loop find
  split_loop-none fuel pos pieces h = rw (h, split_loop)

  split_loop_last :
      (fuel pos : ℕ) (pieces : List Text) (r : Text)
      → drop pos str ≡ r
      → index_of sep (drop pos str) ≡ none
      → Loops (suc fuel) pos pieces r
  unfolding Loops
  split_loop_last fuel pos pieces [] e h = (
    [],
    split_loop-none fuel pos pieces h
        ∙ ap some (last_piece-nil pos pieces e ∙ sym (append-nil pieces)),
    (tt, inl refl),
  )
  split_loop_last fuel pos pieces (c ∷ r) e h = (
    (c ∷ r) ∷ [],
    split_loop-none fuel pos pieces h ∙ ap some (last_piece-cons pos c r pieces e),
    ((index_of-none sep (c ∷ r) (rw e at h), tt), inr ([], c ∷ r, refl, λ n. cc, refl)),
  )

  split_loop_lem :
      (fuel pos : ℕ) (pieces : List Text)
      → length (drop pos str) < fuel
      → Loops fuel pos pieces (drop pos str)
  unfolding Loops split_loop find substr
  split_loop_lem zero pos pieces h = absurd (omega arith)
  split_loop_lem (suc fuel) pos pieces h = elim (Option-cases (index_of sep (drop pos str))) [
    | inl e ↦ split_loop_last fuel pos pieces (drop pos str) refl e
    | inr (i, e) ↦
        let (whole, lacks, lt) = index_of-some sep (drop pos str) i e in
        let at : pos + i + 1 ≡ pos + suc i = omega arith in
        let same : drop (pos + i + 1) str ≡ drop (suc i) (drop pos str) =
          rw at (sym (drop-drop (suc i) pos str)) in
        let short : length (drop (pos + i + 1) str) < fuel =
          rw same (omega (arith, length-drop (suc i) (drop pos str))) in
        let (ps, run, spec) =
          split_loop_lem fuel (pos + i + 1) (pieces ++ take i (drop pos str) ∷ []) short in
        let width : pos + i - pos ≡ i = omega arith in
        (
          take i (drop pos str) ∷ ps,
          rw (e, split_loop, width) (run ∙ ap some (append_assoc pieces _ ps)),
          Splits-cons sep (drop pos str) _ _ ps whole lacks
              (subst (λ r. Splits sep r ps) same spec),
        )
  ]

-- `split` returns for every text, and its pieces are exactly what stands between the separators: none
-- holds the separator, and with a separator behind each they spell the text, except that the last
-- one has none behind it where the text goes on behind its last separator.
pub split-Splits :
    (s : Text) (sep : ℕ) → (ps : List Text) × (split s sep ≡ some ps) × Splits sep s ps
unfolding split Loops
split-Splits [] sep = ([], refl, (tt, inl refl))
split-Splits (c ∷ s) sep = split_loop_lem (c ∷ s) sep (suc (length (c ∷ s))) 0 [] (omega arith)
