-- ===== src/Base/Text.antt =====
-- Texts as lists of code points.
use Prim.Native.Nat.{ℕ}
use Prim.Native.Char.{code}
use Prim.Native.String.{String}
use mathlib.Core.List.{List, [], ◌∷◌}

-- The runes of a text, as Go's `range` gives them.
abbrev pub codes : String → List ℕ
codes String.[] = []
codes (String.◌∷◌ rune rest) = code rune ∷ codes rest
