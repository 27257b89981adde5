-- ===== src/Prelude/Text.antt =====
-- What the services use of Python's `str` and `dict`, on texts in ASCII.
use Prim.Native.Nat.{ℕ, ◌-◌}
use Prim.Native.Char.{Char, code}
use Prim.Native.String.{String}
use mathlib.Core.Bool.{Bool, true, false, ◌&&◌}
use mathlib.Core.Option.{Option, none, some}
use mathlib.Core.List.{List, [], ◌∷◌}
use breero_com.Prelude.Tests.{eqb, leb, if◌then◌else◌}
use breero_com.Prelude.Equality.{◌==◌, string_eq}

-- `text.startswith(prefix)`.
abbrev pub starts_with : String → String → Bool
starts_with text String.[] = true
starts_with String.[] (String.◌∷◌ c rest) = false
starts_with (String.◌∷◌ d text) (String.◌∷◌ c rest) = eqb (code d) (code c) && starts_with text rest

abbrev char_or : Char → ℕ → String → Char
char_or default i String.[] = default
char_or default i (String.◌∷◌ c s) = if eqb i 0 then c else char_or default (i - 1) s

abbrev upper_char : Char → Char
upper_char c =
    if leb 97 (code c) && leb (code c) 122
    then char_or c (code c - 97) "ABCDEFGHIJKLMNOPQRSTUVWXYZ"
    else c

-- `text.upper()`.
abbrev pub upper : String → String
upper String.[] = String.[]
upper (String.◌∷◌ c s) = String.◌∷◌ (upper_char c) (upper s)

abbrev lower_char : Char → Char
lower_char c =
    if leb 65 (code c) && leb (code c) 90
    then char_or c (code c - 65) "abcdefghijklmnopqrstuvwxyz"
    else c

-- `text.lower()`.
abbrev pub lower : String → String
lower String.[] = String.[]
lower (String.◌∷◌ c s) = String.◌∷◌ (lower_char c) (lower s)

-- `dict.get(key)`.
abbrev pub lookup {ℓ} : {A : Type ℓ} → String → List (String × A) → Option A
lookup key [] = none
lookup key ((k, a) ∷ rest) = if k == key then some a else lookup key rest
