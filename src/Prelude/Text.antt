-- ===== src/Prelude/Text.antt =====
-- Operations on texts: the last characters of a text, and decimal numbers.
use Prim.Native.Char.{code}
use Prim.Native.Nat.{ℕ, zero, suc, ◌-◌, ◌/◌, ◌%◌}
use Prim.Native.String.{String, ◌++◌ as str_append}
use mathlib.Core.Bool.{Bool, not, ◌&&◌, ◌||◌}
use mathlib.Core.List.{List, [], ◌∷◌}
use text.Mathlib.Text.{◌==◌ as str_eq, find?}
use automated_workflow.Prelude.Tests.{◌==◌, leb, if◌then◌else◌, is_none}

-- The number of characters.
abbrev pub text_length : String → ℕ
text_length String.[] = 0
text_length (String.◌∷◌ c s) = suc (text_length s)

abbrev pub drop_chars : ℕ → String → String
drop_chars zero s = s
drop_chars (suc n) String.[] = ""
drop_chars (suc n) (String.◌∷◌ c s) = drop_chars n s

-- `text[-n:]`, for a positive n
unfoldable pub last_chars : ℕ → String → String
last_chars n s = drop_chars (text_length s - n) s

-- `text[:n]`
unfoldable pub first_chars : ℕ → String → String
first_chars zero s = ""
first_chars (suc n) String.[] = ""
first_chars (suc n) (String.◌∷◌ c s) = String.◌∷◌ c (first_chars n s)

digit : ℕ → String
digit d =
    if d == 0
    then "0"
    else if d == 1
    then "1"
    else if d == 2
    then "2"
    else if d == 3
    then "3"
    else if d == 4
    then "4"
    else if d == 5
    then "5"
    else if d == 6
    then "6"
    else if d == 7
    then "7"
    else if d == 8
    then "8"
    else "9"

-- The fuel is one more than the number, which has fewer digits than that.
digits : ℕ → ℕ → String → String
digits zero n out = out
digits (suc fuel) n out =
    let here = str_append (digit (n % 10)) out in
    let rest = digits fuel (n / 10) here in if n / 10 == 0 then here else rest

-- `str(n)`
unfoldable pub show : ℕ → String
unfolding digits digit
show n = digits (suc n) n ""

-- Python's white space.
abbrev pub is_space : ℕ → Bool
is_space n =
    (leb 9 n && leb n 13)
    || (leb 28 n && leb n 32)
    || n == 133
    || n == 160
    || n == 5760
    || (leb 8192 n && leb n 8202)
    || n == 8232
    || n == 8233
    || n == 8239
    || n == 8287
    || n == 12288

unfoldable pub left_strip : String → String
left_strip String.[] = ""
left_strip (String.◌∷◌ c s) =
    let rest = left_strip s in if is_space (code c) then rest else String.◌∷◌ c s

unfoldable pub right_strip : String → String
right_strip String.[] = ""
right_strip (String.◌∷◌ c s) =
    let rest = right_strip s in
    if is_space (code c) && str_eq rest "" then "" else String.◌∷◌ c rest

-- `text.strip()`
unfoldable pub strip : String → String
unfolding left_strip right_strip
strip s = right_strip (left_strip s)

lower_pairs : List (String × String)
lower_pairs =
    ("A", "a")
    ∷ ("B", "b")
    ∷ ("C", "c")
    ∷ ("D", "d")
    ∷ ("E", "e")
    ∷ ("F", "f")
    ∷ ("G", "g")
    ∷ ("H", "h")
    ∷ ("I", "i")
    ∷ ("J", "j")
    ∷ ("K", "k")
    ∷ ("L", "l")
    ∷ ("M", "m")
    ∷ ("N", "n")
    ∷ ("O", "o")
    ∷ ("P", "p")
    ∷ ("Q", "q")
    ∷ ("R", "r")
    ∷ ("S", "s")
    ∷ ("T", "t")
    ∷ ("U", "u")
    ∷ ("V", "v")
    ∷ ("W", "w")
    ∷ ("X", "x")
    ∷ ("Y", "y")
    ∷ ("Z", "z")
    ∷ []

lower_in : List (String × String) → String → String
lower_in [] s = s
lower_in ((u, l) ∷ pairs) s = if str_eq s u then l else lower_in pairs s

-- `text.lower()`, on the letters of ASCII
unfoldable pub lower : String → String
unfolding lower_in lower_pairs
lower String.[] = ""
lower (String.◌∷◌ c s) = str_append (lower_in lower_pairs (String.◌∷◌ c "")) (lower s)

-- `t in s`
abbrev pub contains_text : String → String → Bool
contains_text s t = not (is_none (find? s t))

-- `text.partition(" ")`: what is before the first space, and what is after it.
unfoldable pub before_space : String → String
before_space String.[] = ""
before_space (String.◌∷◌ c s) = if code c == 32 then "" else String.◌∷◌ c (before_space s)

unfoldable pub after_space : String → String
after_space String.[] = ""
after_space (String.◌∷◌ c s) = if code c == 32 then s else after_space s
