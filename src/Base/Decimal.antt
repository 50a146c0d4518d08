-- ===== src/Base/Decimal.antt =====
-- Decimal print and parse, as in Go's package strconv.
use Prim.Native.Char.{Char, char, code, IsScalar}
use Prim.Native.Nat.{ℕ, zero, suc, ◌+◌, ◌-◌, ◌*◌, ◌/◌, ◌%◌, ◌<◌}
use Prim.Native.String.{String}
use mathlib.Core.Path.{◌≡◌, refl, ap, ◌∙◌}
use mathlib.Core.Bool.{Bool, true, false, ◌&&◌}
use mathlib.Core.Logic.{inl, inr}
use mathlib.Core.Option.{Option, none, some}
use native.Mathlib.Omega.{arith}
use resilient_settlement_orc.Base.Int.{ℤ, pos, ◌-ℤ◌}
use resilient_settlement_orc.Base.Tests.{ltb, leb, ◌==◌, if◌then◌else◌, Bool-cases}
use resilient_settlement_orc.Base.Text.{contains}

digit_IsScalar : (d : ℕ) → IsScalar (48 + d % 10)
digit_IsScalar d = ground arith

-- The character of the last decimal digit of a number.
digit_char : ℕ → Char
unfolding digit_IsScalar
digit_char d = char (48 + d % 10) (digit_IsScalar d)

-- The digits of a number before a text; `fuel` exceeds the number.
digits : ℕ → ℕ → String → String
unfolding digit_char
digits zero n out = out
digits (suc fuel) n out =
    let rest = digits fuel (n / 10) (String.◌∷◌ (digit_char n) out) in if n == 0 then out else rest

-- `strconv.Itoa` of a number that is not negative
unfoldable pub itoa : ℕ → String
unfolding digits
itoa n = if n == 0 then "0" else digits (suc n) n ""

unfoldable pub is_digit : Char → Bool
is_digit c = leb 48 (code c) && leb (code c) 57

-- The number that a text of digits spells behind `n`; `none` for any other character.
scan : String → ℕ → Option ℕ
unfolding is_digit
scan String.[] n = some n
scan (String.◌∷◌ c s) n =
    let rest = scan s (n * 10 + (code c - 48)) in if is_digit c then rest else none

-- A number that fits in an `int`.
abbrev fitting : Bool → Option ℕ → Option ℤ
fitting minus none = none
fitting minus (some n) =
    if minus
    then (if leb n 9223372036854775808 then some (pos 0 -ℤ pos n) else none)
    else (if ltb n 9223372036854775808 then some (pos n) else none)

abbrev digits_only : String → Option ℕ
digits_only String.[] = none
digits_only (String.◌∷◌ c s) = scan (String.◌∷◌ c s) 0

-- `strconv.Atoi`: an optional sign, then digits.
unfoldable pub atoi : String → Option ℤ
unfolding scan
atoi String.[] = none
atoi (String.◌∷◌ c s) =
    if code c == 43
    then fitting false (digits_only s)
    else if code c == 45
    then fitting true (digits_only s)
    else fitting false (scan (String.◌∷◌ c s) 0)

-- The number that `strconv.Atoi` returns, with or without an error: the nearest `int` for a number
-- out of range, and 0 for what is no number (also where the digits before the first other character
-- are out of range already, for which Go returns the nearest `int`).
abbrev clamped : Bool → Option ℕ → ℤ
clamped minus none = pos 0
clamped minus (some n) =
    if minus
    then (if leb n 9223372036854775808 then pos 0 -ℤ pos n else pos 0 -ℤ pos 9223372036854775808)
    else (if ltb n 9223372036854775808 then pos n else pos 9223372036854775807)

unfoldable pub atoi_value : String → ℤ
unfolding scan
atoi_value String.[] = pos 0
atoi_value (String.◌∷◌ c s) =
    if code c == 43
    then clamped false (digits_only s)
    else if code c == 45
    then clamped true (digits_only s)
    else clamped false (scan (String.◌∷◌ c s) 0)

itoa_200 : (itoa 200 ≡ "200") × (itoa 0 ≡ "0") × (atoi "-17" ≡ some (pos 0 -ℤ pos 17))
unfolding itoa digits digit_char atoi scan is_digit
itoa_200 = (refl, refl, refl)

scan-digits : (fuel n : ℕ) (out : String) → n < fuel → scan (digits fuel n out) 0 ≡ scan out n
unfolding digits scan is_digit digit_char
scan-digits zero n out h = absurd (omega (arith, h))
scan-digits (suc fuel) n out h =
    ground (arith, scan-digits fuel (n / 10) (String.◌∷◌ (digit_char n) out))

abbrev pub Leading : String → Type 0
Leading s = (c : Char) × (t : String) × (s ≡ String.◌∷◌ c t) × (is_digit c ≡ true)

digits-zero : (fuel : ℕ) (out : String) → digits fuel 0 out ≡ out
unfolding digits
digits-zero zero out = refl
digits-zero (suc fuel) out = refl

digit_char-is_digit : (n : ℕ) → is_digit (digit_char n) ≡ true
unfolding is_digit digit_char
digit_char-is_digit n = ground arith

digits-Leading : (fuel n : ℕ) (out : String) → n < fuel → 0 < n → Leading (digits fuel n out)
unfolding digits
digits-Leading zero n out h p = absurd (omega (arith, h))
digits-Leading (suc fuel) n out h p = elim (Bool-cases ((n / 10) == 0)) [
  | inl last ↦ (
    digit_char n,
    out,
    ground (arith, digits-zero fuel (String.◌∷◌ (digit_char n) out)),
    digit_char-is_digit n,
  )
  | inr more ↦
      let ih =
        digits-Leading fuel (n / 10) (String.◌∷◌ (digit_char n) out) (ground arith)
          (ground arith) in
      (ih.0, ih.1, ground (arith, ih.2), ih.3)
]

atoi-Leading :
    (c : Char) (s : String)
    → is_digit c ≡ true
    → atoi (String.◌∷◌ c s) ≡ fitting false (scan (String.◌∷◌ c s) 0)
unfolding atoi is_digit
atoi-Leading c s h = ground arith

itoa-digits : (n : ℕ) → 0 < n → itoa n ≡ digits (suc n) n ""
unfolding itoa
itoa-digits n h = ground arith

itoa_zero : itoa 0 ≡ "0"
unfolding itoa
itoa_zero = refl

zero-Leading : Leading "0"
unfolding is_digit
zero-Leading = (_, _, refl, refl)

-- The print of a number starts with a digit.
pub itoa-Leading : (n : ℕ) → Leading (itoa n)
itoa-Leading zero = rw itoa_zero zero-Leading
itoa-Leading (suc n) =
    rw (itoa-digits (suc n) (omega arith))
      (digits-Leading (suc (suc n)) (suc n) "" (omega arith) (omega arith))

atoi-eq-scan :
    (s : String) (n : ℕ)
    → Leading s
    → scan s 0 ≡ some n
    → n < 9223372036854775808
    → atoi s ≡ some (pos n)
atoi-eq-scan s n (c, t, e, d) h k =
    rw e (atoi-Leading c t d ∙ ground (arith, h, k, ap (λ x. scan x 0) e))

scan-itoa : (n : ℕ) → scan (itoa n) 0 ≡ some n
unfolding scan is_digit
scan-itoa zero = rw itoa_zero refl
scan-itoa (suc n) =
    rw (itoa-digits (suc n) (omega arith)) (scan-digits (suc (suc n)) (suc n) "" (omega arith))

-- A number that fits in an `int` is read back from its print.
pub atoi-itoa : (n : ℕ) → n < 9223372036854775808 → atoi (itoa n) ≡ some (pos n)
atoi-itoa n h = atoi-eq-scan (itoa n) n (itoa-Leading n) (scan-itoa n) h

contains-digits :
    (sep fuel n : ℕ) (out : String)
    → 57 < sep
    → contains sep out ≡ false
    → contains sep (digits fuel n out) ≡ false
unfolding digits contains digit_char
contains-digits sep zero n out h k = k
contains-digits sep (suc fuel) n out h k =
    ground (arith, contains-digits sep fuel (n / 10) (String.◌∷◌ (digit_char n) out) h)

-- The print of a number has no character beyond the digits.
pub contains-itoa : (sep n : ℕ) → 57 < sep → contains sep (itoa n) ≡ false
unfolding contains
contains-itoa sep zero h = rw itoa_zero (ground arith)
contains-itoa sep (suc n) h =
    rw (itoa-digits (suc n) (omega arith)) (contains-digits sep (suc (suc n)) (suc n) "" h refl)
