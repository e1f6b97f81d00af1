-- ===== src/Common/Text.antt =====
-- The string methods of JavaScript that the source calls, over the code points of a text.
use Prim.Native.Char.{code}
use Prim.Native.String
use employee_compliance_saas.Common.{
  ◌≡◌, refl, ◌<◌, ◌/◌, ◌%◌, ltb, arith, Bool-cases, inl, inr, ℕ, zero, suc, ◌+◌, ◌-◌, ◌*◌, String,
  Bool, true, false, ◌&&◌, ◌||◌, Option, none, some, List, [], ◌∷◌, map, ◌==◌, leb, if◌then◌else◌,
}

abbrev pub codes : String → List ℕ
codes String.[] = []
codes (String.◌∷◌ c s) = code c ∷ codes s

-- What `trim` removes: white space and line terminators.
abbrev is_space : ℕ → Bool
is_space c =
    (leb 9 c && leb c 13)
    || c == 32
    || c == 160
    || c == 0x1680
    || (leb 0x2000 c && leb c 0x200a)
    || c == 0x2028
    || c == 0x2029
    || c == 0x202f
    || c == 0x205f
    || c == 0x3000
    || c == 0xfeff

abbrev trim_start : String → String
trim_start String.[] = String.[]
trim_start (String.◌∷◌ c s) =
    let rest = trim_start s in if is_space (code c) then rest else String.◌∷◌ c s

abbrev is_blank : String → Bool
is_blank String.[] = true
is_blank (String.◌∷◌ c s) = is_space (code c) && is_blank s

-- Once only white space is left, the text ends.
abbrev trim_end : String → String
trim_end String.[] = String.[]
trim_end (String.◌∷◌ c s) =
    if is_space (code c) && is_blank s then String.[] else String.◌∷◌ c (trim_end s)

unfoldable pub trim : String → String
trim s = trim_end (trim_start s)

abbrev pub is_empty : String → Bool
is_empty String.[] = true
is_empty (String.◌∷◌ _ _) = false

abbrev pub to_lower : ℕ → ℕ
to_lower c = if leb b'A' c && leb c b'Z' then c + 32 else c

abbrev starts_with : List ℕ → List ℕ → Bool
starts_with [] text = true
starts_with (c ∷ cs) [] = false
starts_with (c ∷ cs) (d ∷ ds) = c == d && starts_with cs ds

abbrev contains : List ℕ → List ℕ → Bool
contains needle [] = starts_with needle []
contains needle (c ∷ cs) = starts_with needle (c ∷ cs) || contains needle cs

-- `/…/i.test(text)` for a needle of lower-case letters.
unfoldable pub contains_ignoring_case : String → String → Bool
contains_ignoring_case needle text = contains (codes needle) (map to_lower (codes text))

abbrev same_codes : List ℕ → List ℕ → Bool
same_codes [] [] = true
same_codes (c ∷ cs) (d ∷ ds) = c == d && same_codes cs ds
same_codes _ _ = false

abbrev codes_end_with : List ℕ → List ℕ → Bool
codes_end_with suffix [] = same_codes suffix []
codes_end_with suffix (c ∷ cs) = same_codes suffix (c ∷ cs) || codes_end_with suffix cs

-- `text.toLowerCase().endsWith(suffix)` for a suffix of ASCII letters and marks that no other letter is
-- lowered to.
unfoldable pub lower_ends_with : String → String → Bool
lower_ends_with suffix text = codes_end_with (codes suffix) (map to_lower (codes text))

abbrev digits_from : ℕ → List ℕ → Option ℕ
digits_from n [] = some n
digits_from n (c ∷ cs) =
    let rest = digits_from (n * 10 + (c - 48)) cs in if leb 48 c && leb c 57 then rest else none

-- `Number(text)` of decimal digits; `none` is NaN. The other numerals that JavaScript reads (signs,
-- exponents, blanks) do not occur in a `YYYY-MM-DD` text.
unfoldable pub number : List ℕ → Option ℕ
number text = digits_from 0 text

-- `text.slice(0, n)`.
abbrev pub take_text : ℕ → String → String
take_text zero s = String.[]
take_text (suc n) String.[] = String.[]
take_text (suc n) (String.◌∷◌ c s) = String.◌∷◌ c (take_text n s)

-- `text.slice(prefix.length)`, where the text starts with the prefix.
abbrev pub after_prefix : String → String → Option String
after_prefix String.[] text = some text
after_prefix (String.◌∷◌ c p) String.[] = none
after_prefix (String.◌∷◌ c p) (String.◌∷◌ d s) =
    let rest = after_prefix p s in if code c == code d then rest else none

abbrev digit : ℕ → String
digit n =
    if n == 0
    then "0"
    else if n == 1
    then "1"
    else if n == 2
    then "2"
    else if n == 3
    then "3"
    else if n == 4
    then "4"
    else if n == 5
    then "5"
    else if n == 6
    then "6"
    else if n == 7
    then "7"
    else if n == 8
    then "8"
    else "9"

decimal_from : ℕ → ℕ → String → String
decimal_from zero n digits = digits
decimal_from (suc fuel) n digits =
    let rest = decimal_from fuel (n / 10) (String.◌++◌ (digit (n % 10)) digits) in
    if ltb n 10 then String.◌++◌ (digit (n % 10)) digits else rest

-- A number printed in decimal. The fuel is more than enough.
unfoldable pub decimal : ℕ → String
unfolding decimal_from
decimal n = decimal_from (suc n) n ""

-- With more fuel than the number the digits do not depend on the fuel.
decimal_from_enough :
    (fuel more n : ℕ) (digits : String)
    → n < fuel
    → n < more
    → decimal_from fuel n digits ≡ decimal_from more n digits
unfolding decimal_from
decimal_from_enough zero more n digits h k = absurd (omega (arith, h))
decimal_from_enough (suc fuel) zero n digits h k = absurd (omega (arith, k))
decimal_from_enough (suc fuel) (suc more) n digits h k = elim (Bool-cases (ltb n 10)) [
  | inl e ↦ rw e
  | inr e ↦ rw e (
      decimal_from_enough fuel more (n / 10) (String.◌++◌ (digit (n % 10)) digits) (less fuel n h e)
        (less more n k e))
]
  where
    less : (bound n : ℕ) → n < suc bound → ltb n 10 ≡ false → n / 10 < bound
    less bound n h e = ground (arith, h, e)

-- `parts.join(', ')`
abbrev pub comma_joined : List String → String
comma_joined [] = ""
comma_joined (part ∷ []) = part
comma_joined (part ∷ next ∷ rest) = String.◌++◌ part (String.◌++◌ ", " (comma_joined (next ∷ rest)))

print_5012 : decimal 5012 ≡ "5012"
unfolding decimal
print_5012 = refl
