-- ===== src/CodePoints.antt =====
-- Methods of `str` on texts as lists of code points, where the code looks into a text.
use aegis_gateway.Prelude.{
  ℕ, String, Bool, true, false, ◌&&◌, ◌||◌, Option, none, some, List, [], ◌∷◌, ◌==◌, leb,
  if◌then◌else◌,
}
use Prim.Native.Char.{code}
use mathlib.Core.List.{reverse}

-- The code points of a `str`.
abbrev pub codes : String → List ℕ
codes String.[] = []
codes (String.◌∷◌ c s) = code c ∷ codes s

-- `str.isspace` of one code point, over ASCII and the no-break space.
abbrev pub is_space : ℕ → Bool
is_space c = (leb 9 c && leb c 13) || (leb 28 c && leb c 32) || (c == 133 || c == 160)

unfoldable pub lstrip : List ℕ → List ℕ
lstrip [] = []
lstrip (c ∷ line) = let rest = lstrip line in if is_space c then rest else c ∷ line

unfoldable pub strip : List ℕ → List ℕ
unfolding lstrip
strip line = reverse (lstrip (reverse (lstrip line)))

-- `line.removeprefix(prefix)` if `line.startswith(prefix)`
unfoldable pub remove_prefix : List ℕ → List ℕ → Option (List ℕ)
remove_prefix [] line = some line
remove_prefix (p ∷ prefix) [] = none
remove_prefix (p ∷ prefix) (c ∷ line) = if p == c then remove_prefix prefix line else none

unfoldable pub same : List ℕ → List ℕ → Bool
same [] [] = true
same (a ∷ as_) (b ∷ bs) = a == b && same as_ bs
same _ _ = false

abbrev pub is_empty : List ℕ → Bool
is_empty [] = true
is_empty (c ∷ line) = false
