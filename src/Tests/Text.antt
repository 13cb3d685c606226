-- ===== src/Tests/Text.antt =====
-- The theorems on text at concrete inputs.
use Prim.Native.Char.{code}
use ccml.Base.{◌≡◌, refl, List, [], ◌∷◌, some, String}
use ccml.Utils.Str.{Text, split}
use ccml.Utils.Str.Split.{Splits, split-Splits}

-- The bytes of an ASCII literal.
abbrev codes : String → Text
codes String.[] = []
codes (String.◌∷◌ c s) = code c ∷ codes s

two_devices : split (codes "eth0,,eth1") b',' ≡ some (codes "eth0" ∷ [] ∷ codes "eth1" ∷ [])
unfolding split
two_devices = refl

split-Splits_example :
    (ps : List Text) × (split (codes "eth0,eth1") b',' ≡ some ps)
    × Splits b',' (codes "eth0,eth1") ps
split-Splits_example = split-Splits (codes "eth0,eth1") b','
