-- ===== src/Base/Words.antt =====
-- What Go's `strings` does to a code or a header: `TrimSpace`, `ReplaceAll(s, " ", "")`, and the
-- parts before and after the first blank.
use Prim.Native.Char.{Char, code}
use Prim.Native.String.{String, [], ◌∷◌}
use mathlib.Core.Bool.{Bool, ◌||◌, ◌&&◌}
use mathlib.Core.Option.{Option, none, some}
use commitkube.Base.Tests.{leb, ◌==◌, if◌then◌else◌}

-- `unicode.IsSpace`
unfoldable pub is_space : Char → Bool
is_space c =
    let n = code c in
    (leb 9 n && leb n 13)
    || n == 32
    || n == 133
    || n == 160
    || n == 5760
    || (leb 8192 n && leb n 8202)
    || n == 8232
    || n == 8233
    || n == 8239
    || n == 8287
    || n == 12288

unfoldable pub trim_left : String → String
trim_left [] = []
trim_left (c ∷ s) = let rest = trim_left s in if is_space c then rest else c ∷ s

-- A character in front of what is left of a text, unless it ends in it as a space.
abbrev keep_inner : Char → String → String
keep_inner c [] = if is_space c then [] else c ∷ []
keep_inner c (d ∷ s) = c ∷ d ∷ s

unfoldable pub trim_right : String → String
trim_right [] = []
trim_right (c ∷ s) = keep_inner c (trim_right s)

-- `strings.ReplaceAll(s, " ", "")`
unfoldable pub without_blanks : String → String
without_blanks [] = []
without_blanks (c ∷ s) = let rest = without_blanks s in if code c == 32 then rest else c ∷ rest

-- How a code is read: `ReplaceAll(TrimSpace(code), " ", "")`.
unfoldable pub clean : String → String
clean s = without_blanks (trim_right (trim_left s))

unfoldable pub before_blank : String → String
before_blank [] = []
before_blank (c ∷ s) = let rest = c ∷ before_blank s in if code c == 32 then [] else rest

unfoldable pub after_blank : String → Option String
after_blank [] = none
after_blank (c ∷ s) = let rest = after_blank s in if code c == 32 then some s else rest
