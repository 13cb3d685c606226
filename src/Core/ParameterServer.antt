-- ===== src/Core/ParameterServer.antt =====
-- The functions of src/core/ParameterServer.h that have a body: the aligned buffer, and the lookups
-- and checks that the handlers of requests start with. The handlers themselves are declared only.
pub mod Blocks
pub mod Lookup
use ccml.Base.{
  ℕ, ◌+◌, ◌-◌, ◌*◌, ◌/◌, ◌%◌, ◌^◌, Bool, true, false, not, ◌&&◌, ◌||◌, List, [], ◌∷◌, Option, none,
  some, String, length, get_elem?, ltb, leb, ◌==◌, if◌then◌else◌,
}
use ccml.Utils.Logging.{Logged, cc_check, cc_log, error, ◌>>=◌, ◌>>◌, quiet}

-- The constants of `ReadWriteBuffer<T, AlignBytes>`: `sizeof(T)` and `AlignBytes`.
pub record Alignment : Type 0 where
  pub size_of_t : ℕ
  pub align_bytes : ℕ

-- `IsTLargerThanAlign`
abbrev pub is_t_larger : Alignment → Bool
is_t_larger t = leb t.align_bytes t.size_of_t

-- `AlignElementCount`
abbrev pub align_element_count : Alignment → ℕ
align_element_count t = t.align_bytes / t.size_of_t

-- `ReadWriteBuffer`: the number of elements of the vector, and `_current_offset`.
pub record ReadWriteBuffer : Type 0 where
  pub elements : ℕ
  pub current_offset : ℕ

module _ (t : Alignment) where
  pub resize_with_align_hints : ReadWriteBuffer → ℕ → ℕ → ReadWriteBuffer
  resize_with_align_hints b size align_block_count =
      if is_t_larger t
      then record b { elements = size }
      else record b { elements = (size + align_block_count * (align_element_count t - 1)) % 2 ^ 64 }

  pub reset_align_alloc : ReadWriteBuffer → ReadWriteBuffer
  reset_align_alloc b = record b { current_offset = 0 }

  -- `(n + AlignElementCount - 1) & ~(AlignElementCount - 1)`, for a count that is a power of two.
  pub round_up : ℕ → ℕ
  round_up n = let count = align_element_count t in (n + count - 1) % 2 ^ 64 / count * count

  -- `next_block`: the index that the pointer points to, and the buffer.
  pub next_block : ReadWriteBuffer → ℕ → ℕ × ReadWriteBuffer
  unfolding round_up
  next_block b block_size =
      let offset = (b.current_offset + block_size) % 2 ^ 64 in
      (
        b.current_offset,
        record b { current_offset = if is_t_larger t then offset else round_up offset },
      )

-- `BlockKey`
pub record BlockKey : Type 0 where
  pub para_id : ℕ
  pub block_id : ℕ

-- `BlockKeyHash`, over `std::hash<size_t>`
pub block_key_hash : (ℕ → ℕ) → BlockKey → ℕ
block_key_hash hash key = (hash key.para_id + key.block_id) % 2 ^ 64

-- `operator==` of two keys
abbrev pub key_eq : BlockKey → BlockKey → Bool
key_eq k l = k.para_id == l.para_id && k.block_id == l.block_id

-- The members that the functions below read. `Config` is what protobuf makes of `ParameterConfig`.
pub record ParameterServer (Config : Type 0) : Type 0 where
  pub block_id_map : List (BlockKey × ℕ)
  pub config_map : List (ℕ × Config)
  pub block_infos : List Config  -- `*info.config` of each `BlockInfo`
  pub num_vectors : ℕ
  pub num_matrices : ℕ

-- `_config_map.find`, `_block_id_map.find`
pub find_config : {Config : Type 0} → ℕ → List (ℕ × Config) → Option Config
find_config id [] = none
find_config id ((k, c) ∷ rest) = if k == id then some c else find_config id rest

pub find_block : BlockKey → List (BlockKey × ℕ) → Option ℕ
find_block key [] = none
find_block key ((k, i) ∷ rest) = if key_eq k key then some i else find_block key rest

module _ {Config : Type 0} (s : ParameterServer Config) where
  -- The end of `get_parameter_config`; to dereference the end iterator is undefined, which is `none`.
  found_config : Logged (Unit {0}) → Option Config → Option (Logged Config)
  found_config before none = none
  found_config before (some c) = some (before >> quiet c)

  -- `get_parameter_config` of a block, by its parameter.
  pub get_parameter_config : ℕ → Option (Logged Config)
  unfolding find_config found_config
  get_parameter_config para_id =
      found_config (cc_check (ltb para_id (2 ^ 64 - 1)) "ParameterServer.h" 247)
        (find_config para_id s.config_map)

  -- An `int64_t` by its word: whether it is negative.
  abbrev pub negative : ℕ → Bool
  negative w = leb (2 ^ 63) w

  -- `get_parameter_config` of a block id; an index that is out of range is undefined.
  pub get_block_config : ℕ → Option (Logged Config)
  unfolding found_config
  get_block_config block_id =
      found_config
        (cc_check (not (negative block_id) && ltb block_id (length s.block_infos))
          "ParameterServer.h" 254)
        (get_elem? s.block_infos block_id)

  -- The messages of the two checks of handles, `set_return_message` of the response.
  pub data Message : Type 0 where
    invalid_vector_handle : Message
    invalid_matrix_handle : Message

  -- `is_valid_vector_handle`: the result, and what it sets in the response.
  pub is_valid_vector_handle : ℕ → Logged (Bool × Option Message)
  is_valid_vector_handle handle =
      if negative handle || leb s.num_vectors handle
      then cc_log error "ParameterServer.h" 261 >> quiet (false, some invalid_vector_handle)
      else quiet (true, none)

  pub is_valid_matrix_handle : ℕ → Logged (Bool × Option Message)
  is_valid_matrix_handle handle =
      if negative handle || leb s.num_matrices handle
      then cc_log error "ParameterServer.h" 271 >> quiet (false, some invalid_matrix_handle)
      else quiet (true, none)

  -- `get_block_id`; -1 is 2 ^ 64 - 1.
  found_block : Option ℕ → ℕ
  found_block none = 2 ^ 64 - 1
  found_block (some i) = i

  pub get_block_id : BlockKey → ℕ
  unfolding find_block found_block
  get_block_id key = found_block (find_block key s.block_id_map)
