-- ===== src/Base/Dict.antt =====
-- A Go map with string keys, as an association list.
use resilient_settlement_orc.Base.Tests.{if◌then◌else◌}
use Prim.Native.String.{String}
use mathlib.Core.Bool.{Bool}
use mathlib.Core.Path.{◌≡◌, refl}
use mathlib.Core.Option.{Option, none, some}
use mathlib.Core.List.{List, [], ◌∷◌}
use native.Mathlib.Omega.{arith}
use text.Mathlib.Text.{◌==◌ as str_eq}
use text.Mathlib.TextEquality.{eq_iff}

abbrev pub Dict {ℓ} : Type ℓ → Type ℓ
Dict V = List (String × V)

module _ {ℓ} {V : Type ℓ} where
  -- `m[k]`
  abbrev pub lookup : String → Dict V → Option V
  lookup k [] = none
  lookup k ((j, v) ∷ m) = if str_eq j k then some v else lookup k m

  -- `m[k] = v`
  abbrev pub insert : String → V → Dict V → Dict V
  insert k v [] = (k, v) ∷ []
  insert k v ((j, w) ∷ m) = if str_eq j k then (k, v) ∷ m else (j, w) ∷ insert k v m

  -- `delete(m, k)`
  abbrev pub erase : String → Dict V → Dict V
  erase k [] = []
  erase k ((j, w) ∷ m) = if str_eq j k then erase k m else (j, w) ∷ erase k m

  pub lookup-insert :
      (k j : String) (v : V) (m : Dict V)
      → lookup j (insert k v m) ≡ (if str_eq k j then some v else lookup j m)
  lookup-insert k j v [] = refl
  lookup-insert k j v ((i, w) ∷ m) =
      ground (arith, eq_iff k j, eq_iff i k, eq_iff i j, lookup-insert k j v m)

  pub lookup-erase :
      (k j : String) (m : Dict V) → lookup j (erase k m) ≡ (if str_eq k j then none else lookup j m)
  lookup-erase k j [] = ground (arith, eq_iff k j)
  lookup-erase k j ((i, w) ∷ m) =
      ground (arith, eq_iff k j, eq_iff i k, eq_iff i j, lookup-erase k j m)

  -- Delete the entries whose value passes a test, in a loop over the map.
  abbrev pub remove_if : (V → Bool) → Dict V → Dict V
  remove_if test [] = []
  remove_if test ((k, v) ∷ m) =
      let rest = remove_if test m in if test v then rest else (k, v) ∷ rest

  abbrev pub keep_unless : (V → Bool) → Option V → Option V
  keep_unless test none = none
  keep_unless test (some v) = if test v then none else some v

module _ {V : Type 0} where
  -- Every key stands once.
  abbrev pub Unique : Dict V → Type 0
  Unique [] = Unit {0}
  Unique ((k, v) ∷ m) = (lookup k m ≡ none) × Unique m

  pub lookup-remove_if :
      (test : V → Bool) (k : String) (m : Dict V)
      → Unique m
      → lookup k (remove_if test m) ≡ keep_unless test (lookup k m)
  lookup-remove_if test k [] u = refl
  lookup-remove_if test k ((j, v) ∷ m) u =
      ground (arith, lookup-remove_if test k m u.1, u.0, eq_iff j k)

  pub Unique-remove_if : (test : V → Bool) (m : Dict V) → Unique m → Unique (remove_if test m)
  Unique-remove_if test [] u = tt
  Unique-remove_if test ((j, v) ∷ m) u =
      ground (arith, Unique-remove_if test m u.1, lookup-remove_if test j m u.1, u.0)

  pub Unique-insert : (k : String) (v : V) (m : Dict V) → Unique m → Unique (insert k v m)
  Unique-insert k v [] u = (refl, tt)
  Unique-insert k v ((j, w) ∷ m) u =
      ground (arith, Unique-insert k v m u.1, lookup-insert k j v m, u.0, eq_iff j k, eq_iff k j)

  pub Unique-erase : (k : String) (m : Dict V) → Unique m → Unique (erase k m)
  Unique-erase k [] u = tt
  Unique-erase k ((j, w) ∷ m) u =
      ground (arith, Unique-erase k m u.1, lookup-erase k j m, u.0, eq_iff j k, eq_iff k j)
