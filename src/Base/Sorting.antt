-- ===== src/Base/Sorting.antt =====
-- `ORDER BY ... DESC`: lists with the largest key first, rows with equal keys in their first order.

use mathlib.Core.List.{List, [], ◌∷◌}
use resilient_settlement_orc.Base.Tests.{if◌then◌else◌}
use resilient_settlement_orc.Base.Int.{ℤ, ltb_ℤ}

module _ {A : Type 0} (key : A → ℤ) where
  abbrev pub insert_newest : A → List A → List A
  insert_newest a [] = a ∷ []
  insert_newest a (x ∷ xs) =
      let rest = insert_newest a xs in if ltb_ℤ (key a) (key x) then x ∷ rest else a ∷ x ∷ xs

  abbrev pub newest_first : List A → List A
  newest_first [] = []
  newest_first (a ∷ xs) = insert_newest a (newest_first xs)
