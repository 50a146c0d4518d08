-- ===== src/Reconciliation/Loop.antt =====
-- The loop over the payments of a day in internal/service/reconciliation.go.
use resilient_settlement_orc.Base.{
  ℕ, suc, Bool, true, if◌then◌else◌, ◌+◌, ◌%◌, ◌≤◌, String, false, ◌≡◌, refl, ap, ◌∙◌, ◌⊎◌, inl,
  inr, Option, none, some, List, [], ◌∷◌, length, arith, All, Bool-cases, eq_iff,
}
use resilient_settlement_orc.Base.Int.{pos, ◌≤ℤ◌, ltb_ℤ, eq_of_parts}
use resilient_settlement_orc.Base.Int64.{residue, residue-add64}
use resilient_settlement_orc.Payment.Status.{status_string}
use resilient_settlement_orc.Store.Action.{
  Reply, answer, failure, PspStatusResponse, PspAdapter, World, Env,
}
use resilient_settlement_orc.Reconciliation.{
  InternalRecord, Found, Totals, normalize_psp_status, compare_record, insert_discrepancy, tally,
  reply, compare_all,
}

-- The provider has answered with the status of the payment, and with its amount or with none.
abbrev pub Agrees : PspAdapter → String → InternalRecord → Type 0
Agrees a psp r =
    (n : ℕ) × (s : PspStatusResponse) × (a.get_payment_status n r.psp_payment_id ≡ answer s)
    × ((s.amount ≤ℤ pos 0) ⊎ (s.amount ≡ r.amount))
    × (normalize_psp_status psp s.status ≡ status_string r.status)

module _ (psp : String) (r : InternalRecord) where
  answer-agrees :
      (s : PspStatusResponse)
      → compare_record psp r (answer s) ≡ none
      → ((s.amount ≤ℤ pos 0) ⊎ (s.amount ≡ r.amount))
        × (normalize_psp_status psp s.status ≡ status_string r.status)
  unfolding compare_record
  answer-agrees s h = (
    elim (Bool-cases (ltb_ℤ (pos 0) s.amount)) [
      | inl paid ↦ inr (eq_of_parts s.amount r.amount (ground arith))
      | inr unpaid ↦ inl (ground arith)
    ],
    ground (arith, eq_iff (normalize_psp_status psp s.status) (status_string r.status)),
  )

  compare-Agrees :
      (a : PspAdapter) (n : ℕ) (x : Reply PspStatusResponse)
      → a.get_payment_status n r.psp_payment_id ≡ x
      → compare_record psp r x ≡ none
      → Agrees a psp r
  unfolding compare_record
  compare-Agrees a n (failure e) same h = cc
  compare-Agrees a n (answer s) same h =
      let both = answer-agrees s h in (n, s, same, both.0, both.1)

-- The residues of the amounts.
abbrev pub total_residue : List InternalRecord → ℕ
total_residue [] = 0
total_residue (r ∷ rs) = residue r.amount + total_residue rs

-- How many of the records pass a test.
abbrev pub count_of : (InternalRecord → Bool) → List InternalRecord → ℕ
count_of c [] = 0
count_of c (r ∷ rs) = let rest = count_of c rs in if c r then suc rest else rest

abbrev is_none : Option Found → Bool
is_none none = true
is_none (some f) = false

-- Whether a record is matched is a test of the record, whatever the number of the call.
abbrev pub Decides : PspAdapter → String → (InternalRecord → Bool) → Type 0
Decides a psp c =
    (n : ℕ) (q : InternalRecord)
    → is_none (compare_record psp q (a.get_payment_status n q.psp_payment_id)) ≡ c q

abbrev pub UpWorld : World → Type 0
UpWorld w = (n : ℕ) → w.env.db_fails n ≡ false

-- What the loop has done from `x` to `y`.
pub record Compared (a : PspAdapter) (psp : String) (rs : List InternalRecord)
    (x y : Totals × World) : Type 0 where
  pub counted : y.0.matched + y.0.discrepancies ≡ x.0.matched + x.0.discrepancies + length rs
  pub summed :
      residue y.0.amount % 18446744073709551616
      ≡ (residue x.0.amount + total_residue rs) % 18446744073709551616
  pub tested :
      (c : InternalRecord → Bool) → Decides a psp c → y.0.matched ≡ x.0.matched + count_of c rs
  pub grows : x.0.discrepancies ≤ y.0.discrepancies
  pub agreed : y.0.discrepancies ≡ x.0.discrepancies → All (Agrees a psp) rs
  pub rows :
      UpWorld x.1
      → length y.1.tables.discrepancies + x.0.discrepancies
        ≡ length x.1.tables.discrepancies + y.0.discrepancies
  pub same_env : y.1.env ≡ x.1.env
  pub same_payments : y.1.tables.payments ≡ x.1.tables.payments

one-Compared :
    (a : PspAdapter) (psp recon : String) (r : InternalRecord) (t : Totals) (w : World)
    (f : Option Found)
    → compare_record psp r (reply a w r) ≡ f
    → Compared a psp (r ∷ []) (t, w) (tally recon r f (t, record w { tick = w.tick + 1 }))
unfolding insert_discrepancy
one-Compared a psp recon r t w none e = record {
  counted = omega arith;
  summed = omega (arith, residue-add64 t.amount r.amount);
  tested = λ c s. ground (arith, e, s w.tick r);
  grows = omega arith;
  agreed = λ h. (compare-Agrees psp r a w.tick (reply a w r) refl e, tt);
  rows = λ up. omega arith;
  same_env = refl;
  same_payments = refl;
}
one-Compared a psp recon r t w (some f) e = record {
  counted = omega arith;
  summed = omega (arith, residue-add64 t.amount r.amount);
  tested = λ c s. ground (arith, e, s w.tick r);
  grows = omega arith;
  agreed = λ h. absurd (omega (arith, h));
  rows = λ up. rw (up (w.tick + 1 + 1)) (omega arith);
  same_env = ground arith;
  same_payments = ground arith;
}

Compared-trans :
    (a : PspAdapter) (psp : String) (r : InternalRecord) (rs : List InternalRecord)
    (x y z : Totals × World)
    → Compared a psp (r ∷ []) x y
    → Compared a psp rs y z
    → Compared a psp (r ∷ rs) x z
Compared-trans a psp r rs x y z f g = record {
  counted = omega (arith, f.counted, g.counted);
  summed = omega (arith, f.summed, g.summed);
  tested = λ c s. ground (arith, f.tested c s, g.tested c s);
  grows = omega (arith, f.grows, g.grows);
  agreed = λ h. (
    (f.agreed (omega (arith, h, f.grows, g.grows))).0,
    g.agreed (omega (arith, h, f.grows, g.grows)),
  );
  rows = λ up.
      let up' : UpWorld y.1 = (λ n. ap (λ (e : Env). e.db_fails n) f.same_env ∙ up n) in
      omega (arith, f.rows up, g.rows up');
  same_env = g.same_env ∙ f.same_env;
  same_payments = g.same_payments ∙ f.same_payments;
}

pub compare_all-Compared :
    (a : PspAdapter) (psp recon : String) (rs : List InternalRecord) (x : Totals × World)
    → Compared a psp rs x (compare_all a psp recon rs x)
unfolding compare_all
compare_all-Compared a psp recon [] x = record {
  counted = omega arith;
  summed = omega arith;
  tested = λ c s. omega arith;
  grows = omega arith;
  agreed = λ h. tt;
  rows = λ up. omega arith;
  same_env = refl;
  same_payments = refl;
}
compare_all-Compared a psp recon (r ∷ rs) (t, w) =
    Compared-trans a psp r rs (t, w) _ _ (one-Compared a psp recon r t w _ refl)
      (compare_all-Compared a psp recon rs _)
