-- ===== src/Config/Slices.antt =====
-- Lists in the environment (internal/config/config.go).
use Prim.Native.Char.{Char, code}
use Prim.Native.String.{◌++◌}
use text.Mathlib.TextLemmas.{nil-append, cons-append}
use resilient_settlement_orc.Base.{
  String, false, ◌≡◌, ◌≢◌, refl, sym, ap, ◌∙◌, some, Option, List, [], ◌∷◌, All, arith, eq_iff,
}
use resilient_settlement_orc.Base.Text.{contains, trim_space}
use resilient_settlement_orc.Config.{split, trimmed_parts, get_env_slice}

-- The entries with a comma after each but the last.
abbrev pub joined : List String → String
joined [] = ""
joined (k ∷ []) = k
joined (k ∷ l ∷ ks) = k ++ ("," ++ joined (l ∷ ks))

-- An entry that is not empty, has no comma, and no space around it.
abbrev pub IsEntry : String → Type 0
IsEntry k = (k ≢ "") × (contains 44 k ≡ false) × (trim_space k ≡ k)

split-last : (s : String) → contains 44 s ≡ false → split 44 s ≡ s ∷ []
unfolding split contains
split-last String.[] h = refl
split-last (String.◌∷◌ c s) h = ground (arith, split-last s)

split-separator :
    (c : Char) (t : String) → code c ≡ 44 → split 44 (String.◌∷◌ c String.[] ++ t) ≡ "" ∷ split 44 t
unfolding split
split-separator c t h = rw (cons-append c String.[] t, nil-append t) (ground (arith, h))

split-first : (s t : String) → contains 44 s ≡ false → split 44 (s ++ ("," ++ t)) ≡ s ∷ split 44 t
unfolding split contains
split-first String.[] t h = rw (nil-append ("," ++ t)) (split-separator _ t refl)
split-first (String.◌∷◌ c s) t h = rw (cons-append c s ("," ++ t)) (ground (arith, split-first s t))

split-joined :
    (k : String) (ks : List String) → All IsEntry (k ∷ ks) → split 44 (joined (k ∷ ks)) ≡ k ∷ ks
split-joined k [] h = split-last k h.0.1
split-joined k (l ∷ ks) h =
    split-first k (joined (l ∷ ks)) h.0.1 ∙ ap (λ ls. k ∷ ls) (split-joined l ks h.1)

trimmed_parts-same : (ks : List String) → All IsEntry ks → trimmed_parts ks ≡ ks
unfolding trimmed_parts
trimmed_parts-same [] h = refl
trimmed_parts-same (k ∷ ks) ((full, plain, trimmed), rest) =
    rw trimmed (ground (arith, eq_iff k "", full, trimmed_parts-same ks rest))

joined-nonempty : (k : String) (ks : List String) → All IsEntry (k ∷ ks) → joined (k ∷ ks) ≢ ""
unfolding split
joined-nonempty k ks h e =
    let none_left : k ∷ ks ≡ "" ∷ [] = sym (split-joined k ks h) ∙ ap (split 44) e in h.0.0 (cc)

-- A variable that holds the entries of a list, with a comma after each but the last, is read as
-- that list, if no entry is empty, has a comma, or has space around it.
pub get_env_slice-joined :
    (env : String → Option String) (key : String) (ks : List String)
    → All IsEntry ks
    → env key ≡ some (joined ks)
    → get_env_slice env key ≡ ks
unfolding get_env_slice
get_env_slice-joined env key [] h e = rw e refl
get_env_slice-joined env key (k ∷ ks) h e = rw e (
    ground (
      arith,
      eq_iff (joined (k ∷ ks)) "",
      joined-nonempty k ks h,
      ap trimmed_parts (split-joined k ks h) ∙ trimmed_parts-same (k ∷ ks) h,
    ))
