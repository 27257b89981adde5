-- ===== src/Booking/Postal/Codes.antt =====
-- apps/api/app/domains/booking/postal.py: which texts are read as ZIP codes, and as which.
use breero_com.Prelude.{
  Bool, Option, String, ap, arith, false, if◌then◌else◌, nat_eq, none, not, option_eq, refl, some,
  string_eq, suc, sym, true, zero, ℕ, ◌&&◌, ◌==◌, ◌↔◌, ◌∙◌, ◌≡◌, List, [], ◌∷◌, any, ltb, ◌||◌,
}
use breero_com.Errors.{invalid_zip_code}
use breero_com.Session.{Outcome, err, ok}
use breero_com.Booking.Postal.{
  UsPostalCode, followed_by, formatted, is_digit, is_space, match_plus4, match_zip,
  normalize_us_postal_code, rstrip, strip, take_digits, digits_from, is_in, is_within, spaces,
  zeros,
}
use Prim.Native.Char.{Char, char, code}
use mathlib.Core.Path.{subst}
use text.Mathlib.TextEquality.{Char-path}

-- No digit is a space: what lies in none of the ranges, where a range lies beside each of them.
abbrev is_beside : ℕ × ℕ → ℕ × ℕ → Bool
is_beside a b = ltb a.1 b.0 || ltb b.1 a.0

abbrev every {ℓ} : {A : Type ℓ} → (A → Bool) → List A → Bool
every p [] = true
every p (a ∷ rest) = p a && every p rest

out_of_ranges :
    (n : ℕ) (range : ℕ × ℕ) (ranges : List (ℕ × ℕ))
    → is_within n range ≡ true
    → every (is_beside range) ranges ≡ true
    → is_in n ranges ≡ false
out_of_ranges n range [] h beside = refl
out_of_ranges n range (r ∷ ranges) h beside = ground (arith, out_of_ranges n range ranges h)

no_digit_in :
    (n : ℕ) (ranges : List (ℕ × ℕ)) (points : List ℕ)
    → any (λ z. is_within n (digits_from z)) points ≡ true
    → every (λ z. every (is_beside (digits_from z)) ranges) points ≡ true
    → is_in n ranges ≡ false
no_digit_in n ranges [] h beside = absurd (cc)
no_digit_in n ranges (z ∷ points) h beside =
    ground (arith, out_of_ranges n (digits_from z) ranges, no_digit_in n ranges points)

digit_no_space : (c : Char) → is_digit c ≡ true → is_space c ≡ false
unfolding is_digit is_space
digit_no_space c h = no_digit_in (code c) spaces zeros h refl

-- A text of `n` digits.
abbrev is_code : ℕ → String → Bool
is_code zero String.[] = true
is_code zero (String.◌∷◌ c s) = false
is_code (suc n) String.[] = false
is_code (suc n) (String.◌∷◌ c s) = is_digit c && is_code n s

abbrev is_plus4 : Option String → Bool
is_plus4 none = true
is_plus4 (some d) = is_code 4 d

pub record IsPostalCode (p : UsPostalCode) : Type 0 where
  pub zip : is_code 5 p.postal_code ≡ true
  pub plus4 : is_plus4 p.plus4 ≡ true

take_digits_complete :
    (n : ℕ) (d r : String) → is_code n d ≡ true → take_digits n (followed_by d r) ≡ some (d, r)
take_digits_complete zero String.[] r h = refl
take_digits_complete zero (String.◌∷◌ c d) r h = absurd (cc)
take_digits_complete (suc n) String.[] r h = absurd (cc)
take_digits_complete (suc n) (String.◌∷◌ c d) r h =
    let digit : is_digit c ≡ true = ground arith in
    rw (take_digits_complete n d r (ground arith), digit) refl

-- What is read is a prefix of digits.
abbrev Splits : ℕ → String → Option (String × String) → Type 0
Splits n s none = Unit
Splits n s (some (d, r)) = (is_code n d ≡ true) × (s ≡ followed_by d r)

take_digits-Splits : (n : ℕ) (s : String) → Splits n s (take_digits n s)
take_digits-Splits zero s = (refl, refl)
take_digits-Splits (suc n) String.[] = tt
take_digits-Splits (suc n) (String.◌∷◌ c s) =
    by_rest (take_digits n s) (is_digit c) refl (take_digits-Splits n s)
  where
    by_rest :
        (o : Option (String × String)) (b : Bool)
        → is_digit c ≡ b
        → Splits n s o
        → Splits
            (suc n)
            (String.◌∷◌ c s)
            (if b then elim o [ none ↦ none | some (d, r) ↦ some (String.◌∷◌ c d, r) ] else none)
    by_rest none true e h = tt
    by_rest (some (d, r)) true e h = (rw (e, h.0) refl, ap (String.◌∷◌ c) h.1)
    by_rest o false e h = tt

-- A text with no space in it is left by `strip` as it is.
abbrev no_space : String → Bool
no_space String.[] = true
no_space (String.◌∷◌ c s) = not (is_space c) && no_space s

rstrip-same : (s : String) → no_space s ≡ true → rstrip s ≡ s
rstrip-same String.[] h = refl
rstrip-same (String.◌∷◌ c String.[]) h = ground arith
rstrip-same (String.◌∷◌ c (String.◌∷◌ d s)) h =
    rw (rstrip-same (String.◌∷◌ d s) (ground arith)) refl

strip-same : (s : String) → no_space s ≡ true → strip s ≡ s
strip-same String.[] h = refl
strip-same (String.◌∷◌ c s) h =
    let visible : is_space c ≡ false = ground arith in rw visible (rstrip-same (String.◌∷◌ c s) h)

no_space-code :
    (n : ℕ) (d r : String)
    → is_code n d ≡ true
    → no_space r ≡ true
    → no_space (followed_by d r) ≡ true
no_space-code zero String.[] r h k = k
no_space-code zero (String.◌∷◌ c d) r h k = absurd (cc)
no_space-code (suc n) String.[] r h k = absurd (cc)
no_space-code (suc n) (String.◌∷◌ c d) r h k =
    let digit : is_space c ≡ false = digit_no_space c (ground arith) in
    rw (digit, no_space-code n d r (ground arith) k) refl

empty_end : (s : String) → followed_by s "" ≡ s
empty_end String.[] = refl
empty_end (String.◌∷◌ c s) = ap (String.◌∷◌ c) (empty_end s)

take_whole : (n : ℕ) (d : String) → is_code n d ≡ true → take_digits n d ≡ some (d, "")
take_whole n d h = ap (take_digits n) (sym (empty_end d)) ∙ take_digits_complete n d "" h

formatted_plus4 :
    (zip d : String)
    → is_code 4 d ≡ true
    → formatted (record { postal_code = zip; plus4 = some d }) ≡ followed_by zip (followed_by "-" d)
formatted_plus4 zip String.[] h = absurd (cc)
formatted_plus4 zip (String.◌∷◌ c d) h = refl

abbrev match_rest : Option (String × String) → Option UsPostalCode
match_rest none = none
match_rest (some (zip, rest)) = match_plus4 zip rest

match_zip-formatted : (p : UsPostalCode) → IsPostalCode p → match_zip (formatted p) ≡ some p
match_zip-formatted p h = by_parts p.postal_code p.plus4 h.zip h.plus4
  where
    by_parts :
        (zip : String) (plus4 : Option String)
        → is_code 5 zip ≡ true
        → is_plus4 plus4 ≡ true
        → match_zip (formatted (record { postal_code = zip; plus4 = plus4 }))
          ≡ some (record { postal_code = zip; plus4 = plus4 })
    by_parts zip none h k = rw (take_whole 5 zip h) refl
    by_parts zip (some d) h k = rw (formatted_plus4 zip d k) (
        ap match_rest (take_digits_complete 5 zip (followed_by "-" d) h)
        ∙ rw (take_whole 4 d k) refl)

no_space-formatted : (p : UsPostalCode) → IsPostalCode p → no_space (formatted p) ≡ true
unfolding is_space
no_space-formatted p h = by_parts p.postal_code p.plus4 h.zip h.plus4
  where
    by_parts :
        (zip : String) (plus4 : Option String)
        → is_code 5 zip ≡ true
        → is_plus4 plus4 ≡ true
        → no_space (formatted (record { postal_code = zip; plus4 = plus4 })) ≡ true
    by_parts zip none h k = ap no_space (sym (empty_end zip)) ∙ no_space-code 5 zip "" h refl
    by_parts zip (some d) h k = rw (formatted_plus4 zip d k) (
        no_space-code 5 zip (followed_by "-" d) h
          (ap no_space (sym (empty_end d)) ∙ no_space-code 4 d "" k refl))

-- What a match says of the text.
abbrev Reads : String → Option UsPostalCode → Type 0
Reads s none = Unit
Reads s (some p) = IsPostalCode p × (s ≡ formatted p)

code_dash : (c : Char) → (code c == 45) ≡ true → c ≡ char 45 tt
code_dash c h = Char-path c (char 45 tt) ((nat_eq.equal_iff (code c) 45).0 h)

dash_read :
    (zip d s : String) (c : Char)
    → is_code 4 d ≡ true
    → (code c == 45) ≡ true
    → s ≡ followed_by d ""
    → followed_by zip (String.◌∷◌ c s) ≡ formatted (record { postal_code = zip; plus4 = some d })
dash_read zip d s c h e k =
    ap (λ t. followed_by zip (String.◌∷◌ c t)) (k ∙ empty_end d)
    ∙ ap (λ x. followed_by zip (String.◌∷◌ x d)) (code_dash c e)
    ∙ sym (formatted_plus4 zip d h)

match_plus4-Reads :
    (zip rest : String) → is_code 5 zip ≡ true → Reads (followed_by zip rest) (match_plus4 zip rest)
match_plus4-Reads zip String.[] h = (record { zip = h; plus4 = refl }, empty_end zip)
match_plus4-Reads zip (String.◌∷◌ c s) h =
    by_digits (code c == 45) refl (take_digits 4 s) (take_digits-Splits 4 s)
  where
    by_digits :
        (b : Bool)
        → (code c == 45) ≡ b
        → (o : Option (String × String)) → Splits 4 s o
        → Reads (followed_by zip (String.◌∷◌ c s)) (
            if b
            then elim o [
              | none ↦ none
              | some (d, String.[]) ↦ some (record { postal_code = zip; plus4 = some d })
              | some (d, String.◌∷◌ x r) ↦ none
            ]
            else none)
    by_digits false e o k = tt
    by_digits true e none k = tt
    by_digits true e (some (d, String.[])) k =
        (record { zip = h; plus4 = k.0 }, dash_read zip d s c k.0 e k.1)
    by_digits true e (some (d, String.◌∷◌ x r)) k = tt

match_zip-Reads : (s : String) → Reads s (match_zip s)
match_zip-Reads s = by_digits (take_digits 5 s) (take_digits-Splits 5 s)
  where
    by_digits :
        (o : Option (String × String))
        → Splits 5 s o
        → Reads s (elim o [ none ↦ none | some (zip, rest) ↦ match_plus4 zip rest ])
    by_digits none k = tt
    by_digits (some (zip, rest)) k = rw k.1 (match_plus4-Reads zip rest k.0)

matched :
    (o : Option UsPostalCode) (p : UsPostalCode)
    → elim o as (λ x. Outcome UsPostalCode) [ none ↦ err invalid_zip_code | some q ↦ ok q ] ≡ ok p
    → o ≡ some p
matched none p h = absurd (ground arith)
matched (some q) p h = ground arith

abbrev read_as : Option UsPostalCode → Outcome UsPostalCode
read_as o = elim o [ none ↦ err invalid_zip_code | some p ↦ ok p ]

read_back :
    (value : String) (p : UsPostalCode)
    → IsPostalCode p
    → strip value ≡ formatted p
    → normalize_us_postal_code value ≡ ok p
read_back value p h e = ap (λ s. read_as (match_zip s)) e ∙ ap read_as (match_zip-formatted p h)

-- A text is read as a ZIP code exactly when, without the spaces around it, it is the code written
-- out: five digits, or five digits, a dash and four digits, where a digit is a decimal digit of any
-- script of Unicode; what is read is written out as that text. And each code is read back from its
-- written form.
pub normalize-formatted :
    (value : String) (p : UsPostalCode)
    → ((normalize_us_postal_code value ≡ ok p) ↔ (IsPostalCode p × (strip value ≡ formatted p)))
      × (IsPostalCode p → normalize_us_postal_code (formatted p) ≡ ok p)
normalize-formatted value p = (
  (
    (λ h.
        let e : match_zip (strip value) ≡ some p = matched (match_zip (strip value)) p h in
        subst (Reads (strip value)) e (match_zip-Reads (strip value))),
    (λ h. read_back value p h.0 h.1),
  ),
  (λ h. read_back (formatted p) p h (strip-same (formatted p) (no_space-formatted p h))),
)
