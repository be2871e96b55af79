-- ===== src/Base/Text.antt =====
-- Python's `str.partition`, `str.strip` and blank tests, over code points.
use Prim.Native.Nat.{ℕ}
use Prim.Native.Char.{code}
use Prim.Native.String.{String}
use mathlib.Core.Bool.{Bool, ◌&&◌, ◌||◌}
use mathlib.Core.Option.{Option, none, some}
use mathlib.Core.List.{List, [], ◌∷◌, reverse}
use native.Mathlib.Decide.{ℕ_discrete}
use odoo_forge.Base.Tests.{if◌then◌else◌, leb}
use odoo_forge.Base.Equality.{Eq, ◌==◌}

unfoldable pub nat_dec : Discrete ℕ
unfolding ℕ_discrete
nat_dec = ℕ_discrete

instance abbrev pub nat_eq : Eq ℕ
nat_eq = record { dec = nat_dec }

abbrev pub codes : String → List ℕ
codes String.[] = []
codes (String.◌∷◌ c s) = code c ∷ codes s

-- str.isspace of one character
unfoldable pub is_space : ℕ → Bool
is_space c =
    (leb 9 c && leb c 13)
    || (leb 28 c && leb c 32)
    || c == 133
    || c == 160
    || c == 5760
    || (leb 8192 c && leb c 8202)
    || c == 8232
    || c == 8233
    || c == 8239
    || c == 8287
    || c == 12288

unfoldable pub strip_left : List ℕ → List ℕ
unfolding is_space
strip_left [] = []
strip_left (c ∷ s) = let rest = strip_left s in if is_space c then rest else c ∷ s

unfoldable pub strip : List ℕ → List ℕ
unfolding strip_left
strip s = reverse (strip_left (reverse (strip_left s)))

before : ℕ → Option (List ℕ × List ℕ) → Option (List ℕ × List ℕ)
before c none = none
before c (some (a, b)) = some (c ∷ a, b)

-- text.partition(sep): what stands before and after the first separator, if there is one.
unfoldable pub partition : ℕ → List ℕ → Option (List ℕ × List ℕ)
unfolding before
partition sep [] = none
partition sep (c ∷ s) =
    let rest = before c (partition sep s) in if c == sep then some ([], s) else rest
