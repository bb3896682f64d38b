-- ===== src/Prelude/Text.antt =====
-- Text as a list of UTF-16 code units, with the methods of JavaScript strings that the code calls.
use Prim.Native.Nat.{ℕ, ◌+◌}
use Prim.Native.Char.{code}
use Prim.Native.String.{String}
use mathlib.Core.Bool.{Bool, true, false, ◌&&◌, ◌||◌}
use mathlib.Core.List.{List, [], ◌∷◌}
use reins_core.Prelude.Tests.{leb, ◌==◌, if◌then◌else◌}
use reins_core.Prelude.Lists.{any}

abbrev pub Text : Type 0
Text = List ℕ

-- The code units of a literal; it must lie in the basic plane.
abbrev pub units : String → Text
units String.[] = []
units (String.◌∷◌ c s) = code c ∷ units s

abbrev pub text_eq : Text → Text → Bool
text_eq [] [] = true
text_eq (c ∷ cs) (d ∷ ds) = c == d && text_eq cs ds
text_eq _ _ = false

-- White space and line ends, as `trim` and `\s` know them.
unfoldable pub is_space : ℕ → Bool
is_space c =
    leb 9 c && leb c 13
    || any (λ d. c == d) (32 ∷ 160 ∷ 0x1680 ∷ [])
    || leb 0x2000 c && leb c 0x200a
    || any (λ d. c == d) (0x2028 ∷ 0x2029 ∷ 0x202f ∷ 0x205f ∷ 0x3000 ∷ 0xfeff ∷ [])

abbrev is_nil : Text → Bool
is_nil [] = true
is_nil (c ∷ cs) = false

trim_start : Text → Text
trim_start [] = []
trim_start (c ∷ cs) = if is_space c then trim_start cs else c ∷ cs

trim_end : Text → Text
trim_end [] = []
trim_end (c ∷ cs) = let rest = trim_end cs in if is_nil rest && is_space c then [] else c ∷ rest

-- `text.trim()`
unfoldable pub trim : Text → Text
unfolding is_space trim_start trim_end
trim text = trim_end (trim_start text)

abbrev cons_head : ℕ → List Text → List Text
cons_head c [] = (c ∷ []) ∷ []
cons_head c (t ∷ ts) = (c ∷ t) ∷ ts

-- `text.split(separator)` for a separator of one unit: the pieces, of which there is always one.
unfoldable pub split_on : ℕ → Text → List Text
split_on separator [] = [] ∷ []
split_on separator (c ∷ cs) =
    let rest = split_on separator cs in if c == separator then [] ∷ rest else cons_head c rest

-- `text.split(/\s+/)`; the flag says that the unit before was a space.
split_gaps : Bool → Text → List Text
split_gaps gap [] = [] ∷ []
split_gaps gap (c ∷ cs) =
    let rest = split_gaps (is_space c) cs in
    if is_space c then (if gap then rest else [] ∷ rest) else cons_head c rest

unfoldable pub split_spaces : Text → List Text
unfolding is_space split_gaps
split_spaces text = split_gaps false text

-- `text.includes(c)` for one unit.
abbrev pub includes : ℕ → Text → Bool
includes c text = any (λ d. d == c) text

abbrev pub starts_with : Text → Text → Bool
starts_with text [] = true
starts_with [] (p ∷ ps) = false
starts_with (c ∷ cs) (p ∷ ps) = c == p && starts_with cs ps

-- `toLowerCase`, for the ASCII letters.
abbrev pub to_lower_unit : ℕ → ℕ
to_lower_unit c = if leb b'A' c && leb c b'Z' then c + 32 else c
