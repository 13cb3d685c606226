-- ===== src/Core/ParameterServer/Lookup.antt =====
-- What the lookups of src/core/ParameterServer.h return, and when they complain.
use ccml.Base.{
  ℕ, zero, suc, ◌^◌, ◌≤◌, ◌<◌, ◌≡◌, ◌⊎◌, ◌↔◌, inl, inr, refl, ap, ◌∙◌, true, not, ◌&&◌, List, [],
  ◌∷◌, none, some, length, get_elem?, ltb, arith,
}
use ccml.Utils.Logging.{quiet}
use ccml.Core.ParameterServer.{
  ParameterServer, found_config, get_block_config, is_valid_vector_handle, is_valid_matrix_handle,
  negative,
}

get_elem?-cases :
    {A : Type 0} (xs : List A) (i : ℕ)
    → ((i < length xs) × ((x : A) × (get_elem? xs i ≡ some x)))
      ⊎ ((length xs ≤ i) × (get_elem? xs i ≡ none))
get_elem?-cases [] i = inr (omega arith, refl)
get_elem?-cases (x ∷ xs) zero = inl (omega arith, (x, refl))
get_elem?-cases (x ∷ xs) (suc i) = elim (get_elem?-cases xs i) [
  | inl (l, (y, e)) ↦ inl (omega arith, (y, e))
  | inr (l, e) ↦ inr (omega arith, e)
]

module _ {Config : Type 0} (s : ParameterServer Config) where
  -- A handle passes its check exactly when it is an index of the vectors, or of the matrices, and only a
  -- handle that fails logs an error and sets the message of the response. There are less than 2 ^ 63 of
  -- each.
  pub handles_valid :
      (h : ℕ)
      → s.num_vectors < 2 ^ 63
      → s.num_matrices < 2 ^ 63
      → (((is_valid_vector_handle s h).value.0 ≡ true) ↔ (h < s.num_vectors))
        × (((is_valid_vector_handle s h).log ≡ []) ↔ (h < s.num_vectors))
        × (((is_valid_vector_handle s h).value.1 ≡ none) ↔ (h < s.num_vectors))
        × (((is_valid_matrix_handle s h).value.0 ≡ true) ↔ (h < s.num_matrices))
        × (((is_valid_matrix_handle s h).log ≡ []) ↔ (h < s.num_matrices))
        × (((is_valid_matrix_handle s h).value.1 ≡ none) ↔ (h < s.num_matrices))
  unfolding is_valid_vector_handle is_valid_matrix_handle
  handles_valid h v m =
      (ground arith, ground arith, ground arith, ground arith, ground arith, ground arith)

  -- The configuration of a block is returned, with no message, exactly for an index of the blocks; any
  -- other index is used although its check failed. There are less than 2 ^ 63 blocks.
  pub get_block_config_cases :
      (i : ℕ)
      → length s.block_infos < 2 ^ 63
      → ((i < length s.block_infos)
          × ((c : Config) × (get_elem? s.block_infos i ≡ some c)
              × (get_block_config s i ≡ some (quiet c))))
        ⊎ ((length s.block_infos ≤ i) × (get_block_config s i ≡ none))
  unfolding get_block_config found_config
  get_block_config_cases i small = elim (get_elem?-cases s.block_infos i) [
    | inl (l, (c, e)) ↦
        let ok : (not (negative s i) && ltb i (length s.block_infos)) ≡ true = ground arith in
        inl (l, (c, e, ap (found_config s _) e ∙ rw ok refl))
    | inr (l, e) ↦ inr (l, ap (found_config s _) e)
  ]
