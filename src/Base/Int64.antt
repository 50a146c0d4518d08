-- ===== src/Base/Int64.antt =====
-- Go's `int` and `int64`: integers with wrap-around at 64 bits, and their residues, which the
-- arithmetic keeps also where it wraps.
use resilient_settlement_orc.Base.Tests.{ltb, if◌then◌else◌}
use resilient_settlement_orc.Base.Int.{ℤ, pos, negsuc, ◌+ℤ◌, ◌-ℤ◌, pos_part, neg_part}
use Prim.Native.Nat.{ℕ, ◌+◌, ◌-◌, ◌%◌, ◌≤◌, ◌<◌}
use mathlib.Core.Path.{◌≡◌, ◌∙◌}
use native.Mathlib.Omega.{arith}

abbrev pub modulus : ℕ
modulus = 18446744073709551616

abbrev pub half_modulus : ℕ
half_modulus = 9223372036854775808

-- The residue of an integer modulo 2^64.
abbrev pub residue : ℤ → ℕ
residue (pos n) = n % 18446744073709551616
residue (negsuc n) = 18446744073709551615 - n % 18446744073709551616

-- The int64 with a given bit pattern.
abbrev pub of_residue : ℕ → ℤ
of_residue r = if ltb r 9223372036854775808 then pos r else negsuc (18446744073709551615 - r)

-- What an int64 operation stores when the exact result is `a`.
unfoldable pub wrap64 : ℤ → ℤ
wrap64 a = of_residue (residue a)

unfoldable pub add64 : ℤ → ℤ → ℤ
unfolding wrap64
add64 a b = wrap64 (a +ℤ b)

unfoldable pub sub64 : ℤ → ℤ → ℤ
unfolding wrap64
sub64 a b = wrap64 (a -ℤ b)

abbrev pub InRange : ℤ → Type 0
InRange a = (pos_part a < 9223372036854775808) × (neg_part a ≤ 9223372036854775808)

pub wrap64_exact : (a : ℤ) → InRange a → wrap64 a ≡ a
unfolding wrap64
wrap64_exact a h = ground arith

wrap64-InRange : (a : ℤ) → InRange (wrap64 a)
unfolding wrap64
wrap64-InRange a = ground arith

residue-wrap64 : (a : ℤ) → residue (wrap64 a) ≡ residue a
unfolding wrap64
residue-wrap64 a = ground arith

pub residue-lt : (a : ℤ) → residue a < 18446744073709551616
residue-lt (pos n) = omega arith
residue-lt (negsuc n) = omega arith

-- Addition and subtraction are those of the residues.
residue-+ℤ : (a b : ℤ) → residue (a +ℤ b) ≡ (residue a + residue b) % 18446744073709551616
unfolding ◌+ℤ◌
residue-+ℤ a b = ground arith

residue--ℤ :
    (a b : ℤ)
    → residue (a -ℤ b) ≡ (residue a + 18446744073709551616 - residue b) % 18446744073709551616
unfolding ◌-ℤ◌
residue--ℤ a b = ground arith

pub residue-add64 : (a b : ℤ) → residue (add64 a b) ≡ (residue a + residue b) % 18446744073709551616
unfolding add64
residue-add64 a b = residue-wrap64 (a +ℤ b) ∙ residue-+ℤ a b

pub residue-sub64 :
    (a b : ℤ)
    → residue (sub64 a b) ≡ (residue a + 18446744073709551616 - residue b) % 18446744073709551616
unfolding sub64
residue-sub64 a b = residue-wrap64 (a -ℤ b) ∙ residue--ℤ a b
