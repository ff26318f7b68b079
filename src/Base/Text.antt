-- ===== src/Base/Text.antt =====
-- Python's text methods over the native `String`. Case is mapped where the result is ASCII, which
-- decides every comparison of the program's code; other letters are left alone. `strip` removes
-- what Python counts as whitespace.
use Prim.Native.Nat.{ℕ, zero, suc, ◌+◌, ◌-◌, ◌*◌, ◌/◌, ◌%◌}
use Prim.Native.Char.{Char, code}
use Prim.Native.String.{String, ◌++◌}
use mathlib.Core.Bool.{Bool, true, false, ◌||◌, ◌&&◌, not}
use mathlib.Core.List.{List, [], ◌∷◌}
use hpe_com_event_integratio.Base.Tests.{◌==◌, nat_eq, leb, ltb, if◌then◌else◌}

-- The character that stands in the second text where `c` stands in the first.
translate : String → String → Char → Char
translate (String.◌∷◌ a s) (String.◌∷◌ b t) c =
    if nat_eq (code a) (code c) then b else translate s t c
translate _ _ c = c

-- Letters whose upper case is several ASCII letters: the sharp s and the ligatures.
upper_expansion : ℕ → String → String
upper_expansion n other =
    if nat_eq n 0xdf
    then "SS"
    else if nat_eq n 0xfb00
    then "FF"
    else if nat_eq n 0xfb01
    then "FI"
    else if nat_eq n 0xfb02
    then "FL"
    else if nat_eq n 0xfb03
    then "FFI"
    else if nat_eq n 0xfb04
    then "FFL"
    else if nat_eq n 0xfb05 || nat_eq n 0xfb06
    then "ST"
    else other

-- `s.upper()`
unfoldable pub upper : String → String
unfolding translate upper_expansion
upper String.[] = ""
upper (String.◌∷◌ c s) =
    upper_expansion (code c) (
      String.◌∷◌ (translate "abcdefghijklmnopqrstuvwxyzıſ" "ABCDEFGHIJKLMNOPQRSTUVWXYZIS" c)
        String.[])
    ++ upper s

-- `s.lower()`
unfoldable pub lower : String → String
unfolding translate
lower String.[] = ""
lower (String.◌∷◌ c s) =
    String.◌∷◌ (translate "ABCDEFGHIJKLMNOPQRSTUVWXYZK" "abcdefghijklmnopqrstuvwxyzk" c) (lower s)

-- `s.endswith(t)`
unfoldable pub ends_with : String → String → Bool
ends_with String.[] t = t == ""
ends_with (String.◌∷◌ c s) t = String.◌∷◌ c s == t || ends_with s t

between : ℕ → ℕ → ℕ → Bool
between lo hi n = leb lo n && leb n hi

unfoldable pub is_space : ℕ → Bool
unfolding between
is_space n =
    between 9 13 n
    || between 28 32 n
    || nat_eq n 0x85
    || nat_eq n 0xa0
    || nat_eq n 0x1680
    || between 0x2000 0x200a n
    || nat_eq n 0x2028
    || nat_eq n 0x2029
    || nat_eq n 0x202f
    || nat_eq n 0x205f
    || nat_eq n 0x3000

-- A character in front of a text that has been stripped on the right.
strip_cons : Char → String → String
strip_cons c rest = if rest == "" && is_space (code c) then "" else String.◌∷◌ c rest

-- `s.rstrip()` and `s.lstrip()`
rstrip : String → String
rstrip String.[] = ""
rstrip (String.◌∷◌ c s) = strip_cons c (rstrip s)

lstrip : String → String
lstrip String.[] = ""
lstrip (String.◌∷◌ c s) = let rest = lstrip s in if is_space (code c) then rest else String.◌∷◌ c s

-- `s.strip()`
unfoldable pub strip : String → String
unfolding is_space strip_cons rstrip lstrip
strip s = lstrip (rstrip s)

-- A character joined to the first part of a split text.
onto_first : Char → List String → List String
onto_first c [] = String.◌∷◌ c "" ∷ []
onto_first c (part ∷ parts) = String.◌∷◌ c part ∷ parts

-- `s.split(sep)` at a separator of one character.
unfoldable pub split : ℕ → String → List String
unfolding onto_first
split sep String.[] = "" ∷ []
split sep (String.◌∷◌ c s) =
    let rest = split sep s in if nat_eq (code c) sep then "" ∷ rest else onto_first c rest

-- `sep in s` for a character.
unfoldable pub has_char : ℕ → String → Bool
has_char sep String.[] = false
has_char sep (String.◌∷◌ c s) = nat_eq (code c) sep || has_char sep s

-- The outer two parts of `s.partition(sep)`.
unfoldable pub partition : ℕ → String → String × String
partition sep String.[] = ("", "")
partition sep (String.◌∷◌ c s) =
    let (before, after) = partition sep s in
    if nat_eq (code c) sep then ("", s) else (String.◌∷◌ c before, after)

-- `sep.join(parts)`
unfoldable pub join : String → List String → String
join sep [] = ""
join sep (s ∷ []) = s
join sep (s ∷ t ∷ rest) = s ++ sep ++ join sep (t ∷ rest)

-- `s.rstrip(c)` for one character `c`.
unfoldable pub rstrip_char : ℕ → String → String
rstrip_char n String.[] = ""
rstrip_char n (String.◌∷◌ c s) =
    let rest = rstrip_char n s in if rest == "" && nat_eq (code c) n then "" else String.◌∷◌ c rest

-- `bool(s)`
abbrev pub truthy : String → Bool
truthy s = not (s == "")

-- The characters at which `splitlines` breaks a text.
unfoldable pub is_line_break : ℕ → Bool
unfolding between
is_line_break n =
    between 10 13 n || between 28 30 n || nat_eq n 0x85 || nat_eq n 0x2028 || nat_eq n 0x2029

-- The first of `s.splitlines()`, for a text that is not empty.
unfoldable pub first_line : String → String
unfolding is_line_break
first_line String.[] = ""
first_line (String.◌∷◌ c s) =
    let rest = first_line s in if is_line_break (code c) then "" else String.◌∷◌ c rest

-- `s[:n]`
unfoldable pub prefix : ℕ → String → String
prefix zero s = ""
prefix (suc n) String.[] = ""
prefix (suc n) (String.◌∷◌ c s) = String.◌∷◌ c (prefix n s)

nth_char : String → ℕ → String
nth_char String.[] n = ""
nth_char (String.◌∷◌ c s) zero = String.◌∷◌ c ""
nth_char (String.◌∷◌ c s) (suc n) = nth_char s n

-- The decimal digits of a number, with one unit of fuel for each digit.
decimal_digits : ℕ → ℕ → String
decimal_digits zero n = ""
decimal_digits (suc fuel) n =
    let front = decimal_digits fuel (n / 10) in
    (if ltb n 10 then "" else front) ++ nth_char "0123456789" (n % 10)

-- `str(n)`. A number has at most as many digits as its successor counts.
unfoldable pub decimal : ℕ → String
unfolding decimal_digits nth_char
decimal n = decimal_digits (suc n) n

-- `s.isascii()`
unfoldable pub is_ascii : String → Bool
is_ascii String.[] = true
is_ascii (String.◌∷◌ c s) = leb (code c) 127 && is_ascii s

unfoldable pub all_chars : (ℕ → Bool) → String → Bool
all_chars p String.[] = true
all_chars p (String.◌∷◌ c s) = p (code c) && all_chars p s

-- The value of decimal digits behind `n`.
digits_value : ℕ → String → ℕ
digits_value n String.[] = n
digits_value n (String.◌∷◌ c s) = digits_value (n * 10 + (code c - 48)) s

-- `int(s)` of a text of decimal digits.
unfoldable pub parse_decimal : String → ℕ
unfolding digits_value
parse_decimal s = digits_value 0 s

-- A decimal digit, and the superscript digits of Latin-1, which `isdigit` accepts too.
unfoldable pub is_decimal : ℕ → Bool
unfolding between
is_decimal n = between 48 57 n

unfoldable pub is_latin_digit : ℕ → Bool
unfolding is_decimal
is_latin_digit n = is_decimal n || nat_eq n 0xb2 || nat_eq n 0xb3 || nat_eq n 0xb9
