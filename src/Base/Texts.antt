-- ===== src/Base/Texts.antt =====
-- Python's text methods that the source uses, on the native String.
use Prim.Native.Char.{Char, code}
use Prim.Native.String.{String}
use Prim.Native.Nat.{ℕ, zero, suc, ◌+◌}
use mathlib.Core.Bool.{Bool, true, false, ◌&&◌, ◌||◌}
use mathlib.Core.List.{List, [], ◌∷◌}
use text.Mathlib.Text.{◌==◌}
use ming_jian.Base.Tests.{eqb, leb, if◌then◌else◌}

-- `str.isspace` of a character, up to Latin-1.
abbrev pub is_space : ℕ → Bool
is_space c = eqb c 32 || (leb 9 c && leb c 13) || (leb 28 c && leb c 31) || eqb c 133 || eqb c 160

unfoldable pub lstrip : String → String
lstrip String.[] = String.[]
lstrip (String.◌∷◌ c s) = if is_space (code c) then lstrip s else String.◌∷◌ c s

unfoldable pub rstrip : String → String
rstrip String.[] = String.[]
rstrip (String.◌∷◌ c s) =
    let r = rstrip s in if (r == "") && is_space (code c) then "" else String.◌∷◌ c r

-- `text.strip()`
unfoldable pub strip : String → String
unfolding lstrip rstrip
strip s = rstrip (lstrip s)

abbrev pub to_lower : ℕ → ℕ
to_lower c = if leb b'A' c && leb c b'Z' then c + 32 else c

-- `text.lower() == word`, for a word of small ASCII letters.
unfoldable pub lower_is : String → String → Bool
lower_is String.[] String.[] = true
lower_is String.[] (String.◌∷◌ d t) = false
lower_is (String.◌∷◌ c s) String.[] = false
lower_is (String.◌∷◌ c s) (String.◌∷◌ d t) = eqb (to_lower (code c)) (code d) && lower_is s t

-- The character in front of the first part.
abbrev pub cons_head : Char → List String → List String
cons_head c [] = []
cons_head c (p ∷ ps) = String.◌∷◌ c p ∷ ps

-- `text.split(sep)` for a separator of one character.
unfoldable pub split_at : ℕ → String → List String
split_at sep String.[] = "" ∷ []
split_at sep (String.◌∷◌ c s) =
    let parts = split_at sep s in if eqb (code c) sep then "" ∷ parts else cons_head c parts

-- `text.partition(sep)`, less the separator.
unfoldable pub partition_at : ℕ → String → String × String
partition_at sep String.[] = ("", "")
partition_at sep (String.◌∷◌ c s) =
    let rest = partition_at sep s in
    if eqb (code c) sep then ("", s) else (String.◌∷◌ c rest.0, rest.1)

-- `text[n:]`
unfoldable pub drop_text : ℕ → String → String
drop_text zero s = s
drop_text (suc n) String.[] = ""
drop_text (suc n) (String.◌∷◌ c s) = drop_text n s
