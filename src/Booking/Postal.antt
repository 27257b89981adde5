-- ===== src/Booking/Postal.antt =====
-- apps/api/app/domains/booking/postal.py: ZIP codes, on any texts, and states, on texts whose capitals
-- are those of ASCII.
pub mod Codes
use breero_com.Prelude.{
  Bool, List, Option, String, [], if◌then◌else◌, is_present, leb, nat_eq, none, not, one_of,
  option_eq, or_else, some, string_eq, suc, upper, zero, ℕ, ◌&&◌, ◌==◌, ◌||◌, ◌∷◌, any, ◌+◌,
}
use breero_com.Errors.{invalid_zip_code, unsupported_state}
use breero_com.Session.{Outcome, err, ok}
use Prim.Native.Char.{Char, code}

-- Code points from the first to the second.
abbrev pub is_within : ℕ → ℕ × ℕ → Bool
is_within n range = leb range.0 n && leb n range.1

-- The characters on which `str.isspace` holds, by their code points.
abbrev pub spaces : List (ℕ × ℕ)
spaces =
    (9, 13)
    ∷ (28, 32)
    ∷ (133, 133)
    ∷ (160, 160)
    ∷ (5760, 5760)
    ∷ (8192, 8202)
    ∷ (8232, 8233)
    ∷ (8239, 8239)
    ∷ (8287, 8287)
    ∷ (12288, 12288)
    ∷ []

-- The zeros of the scripts (category Nd of Unicode 15.0, that of Python 3.12): the ten digits of a
-- script follow one another.
abbrev pub zeros : List ℕ
zeros =
    48 ∷ 1632 ∷ 1776 ∷ 1984 ∷ 2406 ∷ 2534 ∷ 2662 ∷ 2790 ∷ 2918 ∷ 3046 ∷ 3174 ∷ 3302 ∷ 3430 ∷ 3558
    ∷ 3664 ∷ 3792 ∷ 3872 ∷ 4160 ∷ 4240 ∷ 6112 ∷ 6160 ∷ 6470 ∷ 6608 ∷ 6784 ∷ 6800 ∷ 6992 ∷ 7088
    ∷ 7232 ∷ 7248 ∷ 42528 ∷ 43216 ∷ 43264 ∷ 43472 ∷ 43504 ∷ 43600 ∷ 44016 ∷ 65296 ∷ 66720 ∷ 68912
    ∷ 69734 ∷ 69872 ∷ 69942 ∷ 70096 ∷ 70384 ∷ 70736 ∷ 70864 ∷ 71248 ∷ 71360 ∷ 71472 ∷ 71904 ∷ 72016
    ∷ 72784 ∷ 73040 ∷ 73120 ∷ 73552 ∷ 92768 ∷ 92864 ∷ 93008 ∷ 120782 ∷ 120792 ∷ 120802 ∷ 120812
    ∷ 120822 ∷ 123200 ∷ 123632 ∷ 124144 ∷ 125264 ∷ 130032 ∷ []

abbrev pub is_in : ℕ → List (ℕ × ℕ) → Bool
is_in n ranges = any (is_within n) ranges

abbrev pub digits_from : ℕ → ℕ × ℕ
digits_from zero_point = (zero_point, zero_point + 9)

unfoldable pub is_space : Char → Bool
is_space c = is_in (code c) spaces

-- `\d` in a pattern that is a `str`.
unfoldable pub is_digit : Char → Bool
is_digit c = any (λ z. is_within (code c) (digits_from z)) zeros

-- `text.lstrip()`, `text.rstrip()` and `text.strip()`.
abbrev lstrip : String → String
lstrip String.[] = String.[]
lstrip (String.◌∷◌ c s) = if is_space c then lstrip s else String.◌∷◌ c s

abbrev strip_end : Char → String → String
strip_end c String.[] = if is_space c then String.[] else String.◌∷◌ c String.[]
strip_end c (String.◌∷◌ d s) = String.◌∷◌ c (String.◌∷◌ d s)

abbrev pub rstrip : String → String
rstrip String.[] = String.[]
rstrip (String.◌∷◌ c s) = strip_end c (rstrip s)

abbrev pub strip : String → String
strip s = rstrip (lstrip s)

-- The texts of an f-string, one after the other.
abbrev pub followed_by : String → String → String
followed_by String.[] t = t
followed_by (String.◌∷◌ c s) t = String.◌∷◌ c (followed_by s t)

pub record UsPostalCode : Type 0 where
  pub postal_code : String
  pub plus4 : Option String

-- `USPostalCode.formatted`.
abbrev pub formatted : UsPostalCode → String
formatted p =
    if is_present p.plus4
    then followed_by p.postal_code (followed_by "-" (or_else p.plus4 ""))
    else p.postal_code

-- `\d{n}`: the digits, and the text behind them.
abbrev pub take_digits : ℕ → String → Option (String × String)
take_digits zero s = some (String.[], s)
take_digits (suc n) String.[] = none
take_digits (suc n) (String.◌∷◌ c s) =
    let rest = take_digits n s in
    if is_digit c then elim rest [ none ↦ none | some (d, r) ↦ some (String.◌∷◌ c d, r) ] else none

-- `(?:-(?P<plus4>\d{4}))?` up to the end of the text.
abbrev pub match_plus4 : String → String → Option UsPostalCode
match_plus4 zip String.[] = some (record { postal_code = zip; plus4 = none })
match_plus4 zip (String.◌∷◌ c s) =
    if code c == 45
    then elim (take_digits 4 s) [
      | none ↦ none
      | some (d, String.[]) ↦ some (record { postal_code = zip; plus4 = some d })
      | some (d, String.◌∷◌ x r) ↦ none
    ]
    else none

-- `ZIP_PATTERN.fullmatch`.
abbrev pub match_zip : String → Option UsPostalCode
match_zip s = elim (take_digits 5 s) [ none ↦ none | some (zip, rest) ↦ match_plus4 zip rest ]

abbrev pub normalize_us_postal_code : String → Outcome UsPostalCode
normalize_us_postal_code value = elim (match_zip (strip value)) [
  | none ↦ err invalid_zip_code
  | some p ↦ ok p
]

-- `US_STATES_AND_DC`.
us_states_and_dc : List String
us_states_and_dc =
    "AL" ∷ "AK" ∷ "AZ" ∷ "AR" ∷ "CA" ∷ "CO" ∷ "CT" ∷ "DE" ∷ "DC" ∷ "FL" ∷ "GA" ∷ "HI" ∷ "ID" ∷ "IL"
    ∷ "IN" ∷ "IA" ∷ "KS" ∷ "KY" ∷ "LA" ∷ "ME" ∷ "MD" ∷ "MA" ∷ "MI" ∷ "MN" ∷ "MS" ∷ "MO" ∷ "MT"
    ∷ "NE" ∷ "NV" ∷ "NH" ∷ "NJ" ∷ "NM" ∷ "NY" ∷ "NC" ∷ "ND" ∷ "OH" ∷ "OK" ∷ "OR" ∷ "PA" ∷ "RI"
    ∷ "SC" ∷ "SD" ∷ "TN" ∷ "TX" ∷ "UT" ∷ "VT" ∷ "VA" ∷ "WA" ∷ "WV" ∷ "WI" ∷ "WY" ∷ []

unfoldable pub normalize_state : String → Outcome String
unfolding us_states_and_dc
normalize_state value =
    let state = upper (strip value) in
    if not (one_of state us_states_and_dc) then err unsupported_state else ok state
