-- ===== src/Core/Channel/Vectored.antt =====
-- `readwritev`: a transfer over several buffers, whatever part of it each system call moves.
use ccml.Base.{
  ℕ, ◌%◌, ◌^◌, ◌≤◌, ◌<◌, ◌≡◌, refl, sym, ap, subst, ◌∙◌, inl, List, [], ◌∷◌, append-nil, some,
  length, take, drop, arith, take-all, drop-all,
}
use ccml.Utils.Logging.{quiet}
use ccml.Core.Channel.{
  Iovec, total_len, cells_of, Io, readwritev_loop, readwritev, array_with, int_count,
}
use ccml.Core.Channel.Skip.{at_done, Partial, advance-zero}
use ccml.Core.Channel.Rounds.{
  Serves, readwritev_loop-stop, Finishes, at_done-cons, at_done-nil, readwritev_loop-Serves,
}

module _ {ℓ} {A : Type ℓ} where
  -- A number of vectors that fits an `int`.
  counted_all :
      (iovs : List (Iovec A))
      → length iovs < 2 ^ 31
      → (take (int_count (length iovs)) iovs ≡ iovs) × (drop (int_count (length iovs)) iovs ≡ [])
  unfolding int_count
  counted_all iovs h =
      let n : int_count (length iovs) ≡ length iovs = ground arith in
      rw n (take-all (length iovs) iovs (omega arith), drop-all (length iovs) iovs (omega arith))

  -- However little of the vectors each call of the kernel moves, and however many vectors it is
  -- offered at a time, `readwritev` moves every cell of every vector once, in order, returns their
  -- number, logs nothing, and leaves the array of vectors as it found it. The sizes add up to less
  -- than 2 ^ 63, and there are less than 2 ^ 31 vectors, so that their number is an `int`.
  pub readwritev-Serves :
      (max : ℕ) (iovs : List (Iovec A)) (answers : List Io)
      → total_len iovs < 2 ^ 63
      → length iovs < 2 ^ 31
      → Serves max iovs answers
      → readwritev max iovs answers
        ≡ some (quiet (record { size = total_len iovs; moved = cells_of iovs; iovs = iovs }))
  unfolding readwritev array_with
  readwritev-Serves max iovs answers small few serves =
      let same : at_done 0 iovs ≡ iovs = at_zero iovs in
      let e : total_len iovs % 2 ^ 64 ≡ total_len iovs = omega arith in
      let r : Finishes max 0 (total_len iovs) [] iovs 0 [] answers =
        readwritev_loop-Serves max 0 (total_len iovs) [] iovs 0 [] answers (at_start iovs)
          (omega (arith, ap total_len same)) (omega arith) (omega arith)
          (subst (λ l. Serves max l answers) (sym same) serves) in
      let (front, back) = counted_all iovs few in
      (λ i.
        array_with (back i)
          (readwritev_loop max 0 (total_len (front i) % 2 ^ 64) [] (front i) 0 [] answers))
      ∙ (rw e (ap (array_with []) (rw same at r))
          ∙ ap
              (λ l.
                some (quiet (record { size = total_len iovs; moved = cells_of iovs; iovs = l })))
              (append-nil iovs))
    where
      at_zero : (vs : List (Iovec A)) → at_done 0 vs ≡ vs
      at_zero [] = at_done-nil 0
      at_zero (v ∷ vs) = at_done-cons 0 v vs ∙ ap (λ u. u ∷ vs) (advance-zero v)

      at_start : (vs : List (Iovec A)) → Partial 0 vs
      at_start [] = unfold Partial in tt
      at_start (v ∷ vs) = unfold Partial in inl refl

  -- A number of vectors that is no `int` above 0: nothing is moved.
  pub readwritev-negative :
      (max : ℕ) (iovs : List (Iovec A)) (answers : List Io)
      → 2 ^ 31 ≤ length iovs % 2 ^ 32
      → readwritev max iovs answers ≡ some (quiet (record { size = 0; moved = []; iovs = iovs }))
  unfolding readwritev array_with int_count
  readwritev-negative max iovs answers h =
      let n : int_count (length iovs) ≡ 0 = ground arith in
      ap
        (λ k.
          array_with (drop k iovs) (
            readwritev_loop max 0 (total_len (take k iovs) % 2 ^ 64) [] (take k iovs) 0 [] answers))
        n
      ∙ ap (array_with iovs) (
          readwritev_loop-stop max 0 (total_len {A = A} [] % 2 ^ 64) [] [] 0 [] answers
            (omega arith))
