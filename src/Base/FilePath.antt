-- ===== src/Base/FilePath.antt =====
-- Python's `pathlib` on absolute POSIX paths: the segments after the root.
use Prim.Native.Char.{code}
use Prim.Native.String.{String}
use mathlib.Core.Bool.{Bool, false, not, ◌&&◌}
use mathlib.Core.Option.{Option, none, some}
use mathlib.Core.List.{List, [], ◌∷◌, ◌++◌}
use odoo_forge.Base.Tests.{if◌then◌else◌}
use odoo_forge.Base.Equality.{◌==◌, string_eq, string_dec}
use odoo_forge.Base.Lists.{select}
use odoo_forge.Base.Text.{nat_eq, nat_dec}

abbrev pub FilePath : Type 0
FilePath = List String

prepend : String → List String → List String
prepend c [] = c ∷ []
prepend String.[] (x ∷ xs) = x ∷ xs
prepend (String.◌∷◌ c _) (x ∷ xs) = String.◌∷◌ c x ∷ xs

-- text.split("/")
split_slash : String → List String
unfolding prepend nat_dec
split_slash String.[] = "" ∷ []
split_slash (String.◌∷◌ c s) =
    let rest = split_slash s in
    if code c == 47 then "" ∷ rest else prepend (String.◌∷◌ c String.[]) rest

-- the segments of a text, empty ones and dots left out
unfoldable pub segments : String → List String
unfolding split_slash select string_dec
segments text = select (λ s. not (s == "") && not (s == ".")) (split_slash text)

is_absolute : String → Bool
unfolding nat_dec
is_absolute String.[] = false
is_absolute (String.◌∷◌ c s) = code c == 47

-- base / text
infixl 66 ◌//◌
unfoldable pub ◌//◌ : FilePath → String → FilePath
unfolding segments is_absolute
base // text = if is_absolute text then segments text else base ++ segments text

-- path.relative_to(base).parts, where it does not raise
unfoldable pub relative_to : FilePath → FilePath → Option (List String)
unfolding string_dec
relative_to path [] = some path
relative_to [] (b ∷ base) = none
relative_to (p ∷ path) (b ∷ base) =
    let rest = relative_to path base in if p == b then rest else none
