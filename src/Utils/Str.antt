-- ===== src/Utils/Str.antt =====
-- src/utils/StringUtils.cpp: `starts_with`, `ends_with` and `split`. A `std::string` is the list of
-- its bytes.
pub mod Prefix
pub mod Split
pub mod Convert
use ccml.Base.{
  ℕ, zero, suc, ◌+◌, ◌-◌, ◌≡◌, Bool, true, false, not, ◌&&◌, List, [], ◌∷◌, ◌++◌, Option, none,
  some, length, take, drop, leb, ◌==◌, if◌then◌else◌,
}

-- `std::string`
abbrev pub Text : Type 0
Text = List ℕ

-- `operator==` of two strings
unfoldable pub str_eq : Text → Text → Bool
str_eq [] [] = true
str_eq [] (y ∷ ys) = false
str_eq (x ∷ xs) [] = false
str_eq (x ∷ xs) (y ∷ ys) = x == y && str_eq xs ys

-- The loop of `starts_with`, at the bytes from `i` on; `str` is at least as long as `prefix`.
prefix_loop : Text → Text → Bool
prefix_loop str [] = true
prefix_loop [] (p ∷ prefix) = false
prefix_loop (c ∷ str) (p ∷ prefix) =
    let rest = prefix_loop str prefix in if not (c == p) then false else rest

unfoldable pub starts_with : Text → Text → Bool
unfolding prefix_loop
starts_with str prefix = if leb (length prefix) (length str) then prefix_loop str prefix else false

pub ends_with : Text → Text → Bool
unfolding str_eq
ends_with str ext =
    if leb (length ext) (length str) && str_eq ext (drop (length str - length ext) str)
    then true
    else false

-- `str.find(sep, 0)`: where the first `sep` stands
index_of : ℕ → Text → Option ℕ
index_of sep [] = none
index_of sep (c ∷ s) =
    if c == sep then some 0 else elim (index_of sep s) [ none ↦ none | some i ↦ some (suc i) ]

-- `str.find(sep, pos)`, with `npos` as `none`
find : Text → ℕ → ℕ → Option ℕ
unfolding index_of
find str sep pos = elim (index_of sep (drop pos str)) [ none ↦ none | some i ↦ some (pos + i) ]

-- `str.substr(pos, n)`
substr : Text → ℕ → ℕ → Text
substr str pos n = take n (drop pos str)

-- `if(!str.substr(pos).empty()) pieces->push_back(str.substr(pos));`
last_piece : Text → ℕ → List Text → List Text
last_piece str pos pieces = elim (drop pos str) [ [] ↦ pieces | c ∷ s ↦ pieces ++ (c ∷ s) ∷ [] ]

-- The `while` loop with fuel; each round moves `pos` forward, so `length str + 1` rounds are enough.
split_loop : ℕ → Text → ℕ → ℕ → List Text → Option (List Text)
unfolding find substr last_piece
split_loop zero str sep pos pieces = none
split_loop (suc fuel) str sep pos pieces = elim (find str sep pos) [
  | none ↦ some (last_piece str pos pieces)
  | some next ↦ split_loop fuel str sep (next + 1) (pieces ++ substr str pos (next - pos) ∷ [])
]

unfoldable pub split : Text → ℕ → Option (List Text)
unfolding split_loop
split [] sep = some []
split (c ∷ s) sep = split_loop (suc (length (c ∷ s))) (c ∷ s) sep 0 []
