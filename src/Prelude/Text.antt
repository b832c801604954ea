-- ===== src/Prelude/Text.antt =====
-- `str.strip()`, and the texts that it leaves empty; `str.split` at its first part; lengths.
use Prim.Native.Nat.{ℕ, zero, suc, ◌/◌, ◌%◌}
use Prim.Native.Char.{Char, code}
use Prim.Native.String.{String, ◌++◌ as append}
use mathlib.Core.List.{List, [], ◌∷◌}
use mathlib.Core.Bool.{Bool, true, ◌&&◌, ◌||◌}
use uni_acmis.Prelude.Tests.{leb, ◌==◌, if◌then◌else◌}

-- the characters for which Python's `str.isspace()` holds
abbrev pub is_space : ℕ → Bool
is_space c =
    (leb 9 c && leb c 13)
    || (leb 28 c && leb c 32)
    || (c == 0x85)
    || (c == 0xa0)
    || (c == 0x1680)
    || (leb 0x2000 c && leb c 0x200a)
    || (leb 0x2028 c && leb c 0x2029)
    || (c == 0x202f)
    || (c == 0x205f)
    || (c == 0x3000)

-- `not text.strip()`
unfoldable pub is_blank : String → Bool
is_blank String.[] = true
is_blank (String.◌∷◌ c s) = is_space (code c) && is_blank s

unfoldable pub text_length : String → ℕ
text_length String.[] = 0
text_length (String.◌∷◌ c s) = suc (text_length s)

-- a character before a stripped rest
abbrev pub keep_unless_space : Char → String → String
keep_unless_space c String.[] = if is_space (code c) then String.[] else String.◌∷◌ c String.[]
keep_unless_space c (String.◌∷◌ d s) = String.◌∷◌ c (String.◌∷◌ d s)

-- `text.rstrip()`
unfoldable pub rstrip : String → String
rstrip String.[] = String.[]
rstrip (String.◌∷◌ c s) = keep_unless_space c (rstrip s)

-- `text.lstrip()`
unfoldable pub lstrip : String → String
lstrip String.[] = String.[]
lstrip (String.◌∷◌ c s) = let rest = lstrip s in if is_space (code c) then rest else String.◌∷◌ c s

unfoldable pub strip : String → String
unfolding rstrip lstrip
strip s = rstrip (lstrip s)

-- `text.split(mark)[0]`, for one character
unfoldable pub before_mark : (mark : ℕ) → String → String
before_mark mark String.[] = String.[]
before_mark mark (String.◌∷◌ c s) =
    let rest = before_mark mark s in if code c == mark then String.[] else String.◌∷◌ c rest

-- the parts of an f-string, joined
unfoldable pub concat_text : List String → String
concat_text [] = String.[]
concat_text (s ∷ rest) = append s (concat_text rest)

-- a decimal digit
abbrev pub digit : ℕ → String
digit d =
    if d == 0
    then "0"
    else if d == 1
    then "1"
    else if d == 2
    then "2"
    else if d == 3
    then "3"
    else if d == 4
    then "4"
    else if d == 5
    then "5"
    else if d == 6
    then "6"
    else if d == 7
    then "7"
    else if d == 8
    then "8"
    else "9"

-- the digits of a number before its last `width`, or none for nought; the number itself is fuel enough,
-- as a tenth of it is less
unfoldable pub leading_digits : (fuel : ℕ) → ℕ → String
leading_digits zero n = String.[]
leading_digits (suc f) n =
    let rest = append (leading_digits f (n / 10)) (digit (n % 10)) in
    if n == 0 then String.[] else rest

-- `f"{n:0{width}d}"`
unfoldable pub padded : (width : ℕ) → ℕ → String
unfolding leading_digits
padded zero n = leading_digits n n
padded (suc w) n = append (padded w (n / 10)) (digit (n % 10))
