-- ===== src/Base/Groups.antt =====
-- `GROUP BY` with a sum for each group, and the Go maps that the rows are put into.
use Prim.Native.String.{String}
use mathlib.Core.Path.{◌≡◌, refl, sym, ap, ◌∙◌}
use mathlib.Core.Bool.{false}
use mathlib.Core.Logic.{◌⊎◌, inl, inr}
use mathlib.Core.Option.{none}
use mathlib.Core.List.{List, [], ◌∷◌}
use native.Mathlib.Omega.{arith}
use text.Mathlib.Text.{◌==◌ as str_eq}
use text.Mathlib.TextEquality.{eq_iff}
use text.Mathlib.TextPositions.{eq_refl}
use resilient_settlement_orc.Base.Tests.{if◌then◌else◌, Bool-cases}
use resilient_settlement_orc.Base.Dict.{Dict, lookup, insert, Unique, lookup-insert}
use resilient_settlement_orc.Base.Int.{ℤ, pos, ◌+ℤ◌, +ℤ_parts, eq_of_parts}

pub add_swap : (a b c : ℤ) → a +ℤ (b +ℤ c) ≡ b +ℤ (a +ℤ c)
add_swap a b c =
    eq_of_parts (a +ℤ (b +ℤ c)) (b +ℤ (a +ℤ c))
      (omega (arith, +ℤ_parts a (b +ℤ c), +ℤ_parts b c, +ℤ_parts b (a +ℤ c), +ℤ_parts a c))

pub add_assoc : (a b c : ℤ) → a +ℤ b +ℤ c ≡ a +ℤ (b +ℤ c)
add_assoc a b c =
    eq_of_parts (a +ℤ b +ℤ c) (a +ℤ (b +ℤ c))
      (omega (arith, +ℤ_parts (a +ℤ b) c, +ℤ_parts a b, +ℤ_parts a (b +ℤ c), +ℤ_parts b c))

add_zero : (a : ℤ) → (pos 0 +ℤ a ≡ a) × (a +ℤ pos 0 ≡ a)
add_zero a = (
  eq_of_parts (pos 0 +ℤ a) a (omega (arith, +ℤ_parts (pos 0) a)),
  eq_of_parts (a +ℤ pos 0) a (omega (arith, +ℤ_parts a (pos 0))),
)

-- The sum of the values of a map.
abbrev pub total : Dict ℤ → ℤ
total [] = pos 0
total ((k, v) ∷ m) = v +ℤ total m

-- `SUM(...)`
abbrev pub sum_of : {A : Type 0} → (A → ℤ) → List A → ℤ
sum_of value [] = pos 0
sum_of value (x ∷ xs) = value x +ℤ sum_of value xs

abbrev add_to : String → ℤ → Dict ℤ → Dict ℤ
add_to k v [] = (k, v) ∷ []
add_to k v ((j, w) ∷ m) =
    let rest = add_to k v m in if str_eq j k then (j, v +ℤ w) ∷ m else (j, w) ∷ rest

-- `SELECT key, SUM(value) ... GROUP BY key`
abbrev pub group_by : {A : Type 0} → (A → String) → (A → ℤ) → List A → Dict ℤ
group_by key value [] = []
group_by key value (x ∷ xs) = add_to (key x) (value x) (group_by key value xs)

-- The loop that puts the rows into a map: `m[key] = value`.
abbrev pub collected : Dict ℤ → Dict ℤ → Dict ℤ
collected [] m = m
collected ((k, v) ∷ rows) m = collected rows (insert k v m)

add_to-total : (k : String) (v : ℤ) (m : Dict ℤ) → total (add_to k v m) ≡ v +ℤ total m
add_to-total k v [] = refl
add_to-total k v ((j, w) ∷ m) =
    ground (arith, add_to-total k v m, add_swap v w (total m), add_assoc v w (total m))

group_by-total :
    {A : Type 0} (key : A → String) (value : A → ℤ) (xs : List A)
    → total (group_by key value xs) ≡ sum_of value xs
group_by-total key value [] = refl
group_by-total key value (x ∷ xs) =
    add_to-total (key x) (value x) (group_by key value xs)
    ∙ ap (λ s. value x +ℤ s) (group_by-total key value xs)

add_to-lookup :
    (k j : String) (v : ℤ) (m : Dict ℤ)
    → lookup j m ≡ none
    → str_eq k j ≡ false
    → lookup j (add_to k v m) ≡ none
add_to-lookup k j v [] n h = ground (arith, h)
add_to-lookup k j v ((i, w) ∷ m) n h = ground (arith, add_to-lookup k j v m, n, h)

add_to-Unique : (k : String) (v : ℤ) (m : Dict ℤ) → Unique m → Unique (add_to k v m)
add_to-Unique k v [] u = (refl, tt)
add_to-Unique k v ((j, w) ∷ m) u = elim (Bool-cases (str_eq j k)) [
  | inl same ↦ rw same (u.0, u.1)
  | inr other ↦ rw other (
    add_to-lookup k j v m u.0 (ground (arith, other, eq_iff k j, eq_iff j k)),
    add_to-Unique k v m u.1,
  )
]

group_by-Unique :
    {A : Type 0} (key : A → String) (value : A → ℤ) (xs : List A) → Unique (group_by key value xs)
group_by-Unique key value [] = tt
group_by-Unique key value (x ∷ xs) =
    add_to-Unique (key x) (value x) (group_by key value xs) (group_by-Unique key value xs)

insert-total :
    (k : String) (v : ℤ) (m : Dict ℤ) → lookup k m ≡ none → total (insert k v m) ≡ v +ℤ total m
insert-total k v [] n = refl
insert-total k v ((j, w) ∷ m) n = ground (arith, insert-total k v m, add_swap v w (total m), n)

-- No key of the rows is in the map.
abbrev Apart : Dict ℤ → Dict ℤ → Type 0
Apart rows m = (k : String) → (lookup k rows ≡ none) ⊎ (lookup k m ≡ none)

Apart-next :
    (k : String) (v : ℤ) (rows m : Dict ℤ)
    → lookup k rows ≡ none
    → Apart ((k, v) ∷ rows) m
    → Apart rows (insert k v m)
Apart-next k v rows m fresh h j = elim (Bool-cases (str_eq k j)) [
  | inl same ↦ inl (ground (arith, eq_iff k j, same, fresh))
  | inr other ↦ elim (h j) [
    | inl absent ↦ inl (rw other at absent)
    | inr absent ↦ inr (rw (lookup-insert k j v m, other) absent)
  ]
]

collected-total :
    (rows m : Dict ℤ)
    → Unique rows
    → Apart rows m
    → total (collected rows m) ≡ total rows +ℤ total m
collected-total [] m u h = sym (add_zero (total m)).0
collected-total ((k, v) ∷ rows) m u h =
    let absent : lookup k m ≡ none = ground (arith, h k, eq_refl k) in
    collected-total rows (insert k v m) u.1 (Apart-next k v rows m u.0 h)
    ∙ rw (insert-total k v m absent)
        (add_swap (total rows) v (total m) ∙ sym (add_assoc v (total rows) (total m)))

-- The map of the groups has the sum of all.
pub collected-group_by :
    {A : Type 0} (key : A → String) (value : A → ℤ) (xs : List A)
    → total (collected (group_by key value xs) []) ≡ sum_of value xs
collected-group_by key value xs =
    let rows = group_by key value xs in
    collected-total rows [] (group_by-Unique key value xs) (λ k. inr refl)
    ∙ (add_zero (total rows)).1
    ∙ group_by-total key value xs
