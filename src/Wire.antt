-- ===== src/Wire.antt =====
-- The text formats that the code reads and writes with `format!`, `str::lines`, `str::split` and
-- `str::parse`, over bytes.
pub mod Numbers
pub mod Lines
use hyperdir.Base.{
  ℕ, zero, suc, ◌+◌, ◌-◌, ◌*◌, ◌/◌, ◌%◌, ◌^◌, Bool, false, ◌&&◌, Option, none, some, List, [], ◌∷◌,
  ltb, leb, ◌==◌, if◌then◌else◌, Text,
}
use hyperdir.Base.Int.{ℤ, pos, negsuc}

abbrev pub newline : ℕ
newline = 10

abbrev pub tab : ℕ
tab = 9

-- The decimal digits of `n`, before `rest`; `fuel` bounds their number.
unfoldable pub digits : ℕ → ℕ → Text → Text
digits zero n rest = rest
digits (suc fuel) n rest =
    let more = digits fuel (n / 10) ((48 + n % 10) ∷ rest) in
    if ltb n 10 then (48 + n) ∷ rest else more

-- `format!("{}", n)`: a 64-bit integer has at most twenty digits.
unfoldable pub decimal : ℕ → Text
unfolding digits
decimal n = digits 20 n []

unfoldable pub decimal_i64 : ℤ → Text
unfolding decimal
decimal_i64 (pos n) = decimal n
decimal_i64 (negsuc n) = 45 ∷ decimal (n + 1)

-- The value of a row of digits, above `acc`.
unfoldable pub digits_value : ℕ → Text → Option ℕ
digits_value acc [] = some acc
digits_value acc (c ∷ cs) =
    let rest = digits_value (acc * 10 + (c - 48)) cs in if leb 48 c && leb c 57 then rest else none

-- A value that is at most `max_value`.
abbrev pub fitting : ℕ → Option ℕ → Option ℕ
fitting max_value none = none
fitting max_value (some n) = if leb n max_value then some n else none

-- A non-empty row of digits whose value is at most `max_value`.
unfoldable pub parse_digits : ℕ → Text → Option ℕ
unfolding digits_value
parse_digits max_value [] = none
parse_digits max_value (c ∷ cs) = fitting max_value (digits_value 0 (c ∷ cs))

-- `str::parse::<u64>` and `str::parse::<u32>`: a plus sign may stand in front.
unfoldable pub parse_uint : ℕ → Text → Option ℕ
unfolding parse_digits
parse_uint max_value [] = none
parse_uint max_value (c ∷ cs) =
    if c == 43 then parse_digits max_value cs else parse_digits max_value (c ∷ cs)

abbrev pub negated : ℕ → ℤ
negated zero = pos 0
negated (suc n) = negsuc n

abbrev pub integer : (ℕ → ℤ) → Option ℕ → Option ℤ
integer sign none = none
integer sign (some n) = some (sign n)

-- `str::parse::<i64>`
unfoldable pub parse_i64 : Text → Option ℤ
unfolding parse_digits parse_uint
parse_i64 [] = none
parse_i64 (c ∷ cs) =
    if c == 45
    then integer negated (parse_digits (2 ^ 63) cs)
    else integer pos (parse_uint (2 ^ 63 - 1) (c ∷ cs))

-- The first line with one more byte in front.
unfoldable pub onto_first : ℕ → List Text → List Text
onto_first c [] = (c ∷ []) ∷ []
onto_first c (l ∷ ls) = (c ∷ l) ∷ ls

-- Does the text begin with this byte?
unfoldable pub begins : ℕ → Text → Bool
begins c [] = false
begins c (b ∷ bs) = b == c

-- `str::lines`: a line ends in a newline, with a carriage return before it or not.
unfoldable pub lines : Text → List Text
unfolding onto_first begins
lines [] = []
lines (c ∷ cs) =
    let rest = lines cs in
    if c == newline
    then [] ∷ rest
    else if (c == 13) && begins newline cs
    then rest
    else onto_first c rest

-- `str::split` at one byte.
unfoldable pub split : ℕ → Text → List Text
unfolding onto_first
split sep [] = [] ∷ []
split sep (c ∷ cs) = let rest = split sep cs in if c == sep then [] ∷ rest else onto_first c rest

-- `str::strip_prefix`
unfoldable pub strip_prefix : Text → Text → Option Text
strip_prefix [] s = some s
strip_prefix (a ∷ p) [] = none
strip_prefix (a ∷ p) (b ∷ s) = let rest = strip_prefix p s in if a == b then rest else none
