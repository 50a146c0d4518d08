-- ===== src/Base/Hex.antt =====
-- Go's `hex.EncodeToString`: bytes as two lower-case digits each.
use Prim.Native.Char.{Char, char, code, IsScalar}
use Prim.Native.String.{String}
use Prim.Native.Nat.{ℕ, ◌+◌, ◌/◌, ◌%◌, ◌<◌}
use mathlib.Core.Path.{◌≡◌, refl, ap}
use mathlib.Core.List.{List, [], ◌∷◌}
use native.Mathlib.Omega.{arith}
use resilient_settlement_orc.Base.Tests.{ltb, if◌then◌else◌}
use resilient_settlement_orc.Base.Lists.{All}

digit_code : ℕ → ℕ
digit_code d = if ltb (d % 16) 10 then 48 + d % 16 else 87 + d % 16

digit_code-IsScalar : (d : ℕ) → IsScalar (digit_code d)
unfolding digit_code
digit_code-IsScalar d = ground arith

digit : ℕ → Char
unfolding digit_code-IsScalar
digit d = char (digit_code d) (digit_code-IsScalar d)

unfoldable pub encode_to_string : List ℕ → String
unfolding digit
encode_to_string [] = ""
encode_to_string (b ∷ bs) = String.◌∷◌ (digit (b / 16)) (String.◌∷◌ (digit b) (encode_to_string bs))

abbrev pub IsByte : ℕ → Type 0
IsByte b = b < 256

small : encode_to_string (0 ∷ 175 ∷ 255 ∷ []) ≡ "00afff"
unfolding encode_to_string digit digit_code
small = refl

first_char : String → ℕ
first_char String.[] = 0
first_char (String.◌∷◌ c s) = code c

rest_of : String → String
rest_of String.[] = ""
rest_of (String.◌∷◌ c s) = s

digit_code-inj : (c d : ℕ) → digit_code c ≡ digit_code d → c % 16 ≡ d % 16
unfolding digit_code
digit_code-inj c d h = ground arith

digit-inj : (c d : ℕ) → code (digit c) ≡ code (digit d) → c % 16 ≡ d % 16
unfolding digit
digit-inj c d h = digit_code-inj c d h

-- Bytes that print alike are the same.
pub encode_to_string-inj :
    (bs cs : List ℕ)
    → All IsByte bs
    → All IsByte cs
    → encode_to_string bs ≡ encode_to_string cs
    → bs ≡ cs
unfolding encode_to_string first_char rest_of
encode_to_string-inj [] [] p q h = refl
encode_to_string-inj [] (c ∷ cs) p q h = cc
encode_to_string-inj (b ∷ bs) [] p q h = cc
encode_to_string-inj (b ∷ bs) (c ∷ cs) p q h =
    let upper = digit-inj (b / 16) (c / 16) (ap first_char h) in
    let lower = digit-inj b c (ap (λ s. first_char (rest_of s)) h) in
    let same : b ≡ c = omega (arith, p.0, q.0, upper, lower) in
    let ih = encode_to_string-inj bs cs p.1 q.1 (ap (λ s. rest_of (rest_of s)) h) in
    rw (same, ih) refl
