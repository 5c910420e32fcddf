-- ===== src/Prelude/Texts.antt =====
-- What the source uses of Go's package strings, on lists of ASCII characters.
use Prim.Native.Nat.{ℕ, ◌+◌}
use mathlib.Core.Bool.{Bool, ◌&&◌, ◌||◌}
use mathlib.Core.List.{List, [], ◌∷◌, reverse}
use clash_for_android.Prelude.Tests.{leb, ◌==◌, if◌then◌else◌}
use clash_for_android.Prelude.ByteStrings.{Bytes}

-- strings.Split by one character.
abbrev pub onto_first : ℕ → List Bytes → List Bytes
onto_first c [] = (c ∷ []) ∷ []
onto_first c (part ∷ parts) = (c ∷ part) ∷ parts

unfoldable pub split : ℕ → Bytes → List Bytes
split sep [] = [] ∷ []
split sep (c ∷ s) = let parts = split sep s in if c == sep then [] ∷ parts else onto_first c parts

-- strings.Trim by a test of characters.
abbrev pub trim_left : (ℕ → Bool) → Bytes → Bytes
trim_left cut [] = []
trim_left cut (c ∷ s) = if cut c then trim_left cut s else c ∷ s

unfoldable pub trim : (ℕ → Bool) → Bytes → Bytes
trim cut s = reverse (trim_left cut (reverse (trim_left cut s)))

abbrev pub is_space : ℕ → Bool
is_space c = c == 32 || (leb 9 c && leb c 13)

-- strings.ToLower on ASCII
abbrev pub lower : ℕ → ℕ
lower c = if leb b'A' c && leb c b'Z' then c + 32 else c
