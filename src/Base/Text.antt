-- ===== src/Base/Text.antt =====
-- What the code takes from Go's packages strings and strconv, over the characters of a text.
use Prim.Native.Char.{Char, code}
use Prim.Native.Nat.{ℕ, zero, suc}
use Prim.Native.String.{String, ◌++◌}
use mathlib.Core.Path.{◌≡◌, refl}
use mathlib.Core.Logic.{◌≢◌}
use mathlib.Core.Bool.{Bool, true, false, ◌&&◌, ◌||◌}
use mathlib.Core.Option.{Option, none, some}
use native.Mathlib.Omega.{arith}
use text.Mathlib.TextLemmas.{nil-append, cons-append}
use resilient_settlement_orc.Base.Tests.{leb, ◌==◌, if◌then◌else◌}

-- `strings.Index(s, sep)` for one character, with `s[:idx]` and `s[idx+1:]`.
abbrev after_first : Char → Option (String × String) → Option (String × String)
after_first c none = none
after_first c (some (s, t)) = some (String.◌∷◌ c s, t)

unfoldable pub cut : ℕ → String → Option (String × String)
cut sep String.[] = none
cut sep (String.◌∷◌ c s) =
    let rest = cut sep s in if code c == sep then some (String.[], s) else after_first c rest

-- Whether a text has at most so many characters.
unfoldable pub is_within : ℕ → String → Bool
is_within n String.[] = true
is_within zero (String.◌∷◌ c s) = false
is_within (suc n) (String.◌∷◌ c s) = is_within n s

-- Whether a character stands in a text.
unfoldable pub contains : ℕ → String → Bool
contains sep String.[] = false
contains sep (String.◌∷◌ c s) = code c == sep || contains sep s

cut-append :
    (sep : ℕ) (s : String) (c : Char) (t : String)
    → code c ≡ sep
    → contains sep s ≡ false
    → cut sep (s ++ String.◌∷◌ c t) ≡ some (s, t)
unfolding cut contains
cut-append sep String.[] c t h k = rw (nil-append (String.◌∷◌ c t)) (ground arith)
cut-append sep (String.◌∷◌ d s) c t h k =
    rw (cons-append d s (String.◌∷◌ c t)) (ground (arith, cut-append sep s c t))

cut-none : (sep : ℕ) (s : String) → contains sep s ≡ false → cut sep s ≡ none
unfolding cut contains
cut-none sep String.[] k = refl
cut-none sep (String.◌∷◌ d s) k = ground (arith, cut-none sep s)

-- The same, where the separator is a text of one character.
pub cut-append_text :
    (sep : ℕ) (s : String) (c : Char) (t : String)
    → code c ≡ sep
    → contains sep s ≡ false
    → cut sep (s ++ (String.◌∷◌ c String.[] ++ t)) ≡ some (s, t)
cut-append_text sep s c t h k =
    rw (cons-append c String.[] t, nil-append t) (cut-append sep s c t h k)

pub cut-nonempty : (sep : ℕ) (s front back : String) → cut sep s ≡ some (front, back) → s ≢ ""
unfolding cut
cut-nonempty sep s front back h e = cc (rw e at h)

-- The characters that `unicode.IsSpace` accepts.
abbrev pub is_space : Char → Bool
is_space c =
    leb 9 (code c) && leb (code c) 13
    || code c == 32
    || code c == 133
    || code c == 160
    || code c == 5760
    || leb 8192 (code c) && leb (code c) 8202
    || code c == 8232
    || code c == 8233
    || code c == 8239
    || code c == 8287
    || code c == 12288

unfoldable pub trim_left : String → String
trim_left String.[] = String.[]
trim_left (String.◌∷◌ c s) = let rest = trim_left s in if is_space c then rest else String.◌∷◌ c s

abbrev drop_space : Char → String → String
drop_space c String.[] = if is_space c then String.[] else String.◌∷◌ c String.[]
drop_space c (String.◌∷◌ d s) = String.◌∷◌ c (String.◌∷◌ d s)

unfoldable pub trim_right : String → String
trim_right String.[] = String.[]
trim_right (String.◌∷◌ c s) = drop_space c (trim_right s)

-- `strings.TrimSpace`
unfoldable pub trim_space : String → String
trim_space s = trim_right (trim_left s)
