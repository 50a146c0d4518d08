-- ===== src/Adapters/Rehearsal.antt =====
-- The batch of internal/service/reconciliation.go over the provider of internal/adapter/mock.go.
use resilient_settlement_orc.Base.{
  length, refl, str_eq, ◌+◌, Bool, String, ◌≡◌, sym, ◌∙◌, subst, some, arith,
}
use resilient_settlement_orc.Base.Int.{ℤ}
use resilient_settlement_orc.Payment.Status.{
  PaymentStatus, created, pending, authorized, failed, cancelled, refunded, partially_refunded,
  captured, status_eq, status_string,
}
use resilient_settlement_orc.Router
use resilient_settlement_orc.Store.Rows.{ReconciliationRecord}
use resilient_settlement_orc.Store.Action.{PspAdapter, ok, World}
use resilient_settlement_orc.Reconciliation.{
  InternalRecord, compare_record, normalize_psp_status, internal_records, run_batch_reconciliation,
}
use resilient_settlement_orc.Reconciliation.Loop.{Decides, count_of}
use resilient_settlement_orc.Reconciliation.Counts.{run_batch_reconciliation-Reconciled}
use resilient_settlement_orc.Adapters.{Mac}
use resilient_settlement_orc.Adapters.Mock.{MockPsp, adapter}

abbrev pub is_captured : InternalRecord → Bool
is_captured r = status_eq r.status captured

normalize_captured : (psp : String) → normalize_psp_status psp "captured" ≡ "captured"
unfolding normalize_psp_status
normalize_captured psp = ground arith

status_string-captured :
    (s : PaymentStatus) → str_eq "captured" (status_string s) ≡ status_eq s captured
status_string-captured created = refl
status_string-captured pending = refl
status_string-captured authorized = refl
status_string-captured captured = refl
status_string-captured failed = refl
status_string-captured cancelled = refl
status_string-captured refunded = refl
status_string-captured partially_refunded = refl

mock-Decides : (mac : Mac) (m : MockPsp) (psp : String) → Decides (adapter mac m) psp is_captured
unfolding compare_record
mock-Decides mac m psp n q = ground (arith, normalize_captured psp, status_string-captured q.status)

registered-Decides :
    (mac : Mac) (m : MockPsp) (psp : String) (a : PspAdapter)
    → some (adapter mac m) ≡ some a
    → Decides a psp is_captured
registered-Decides mac m psp a e =
    let same : adapter mac m ≡ a = cc in
    subst (λ b. Decides b psp is_captured) same (mock-Decides mac m psp)

-- A provider is the mock. A batch that ends without an error has matched those of the day's payments
-- whose status is captured, and has a discrepancy for every other one.
run_batch_reconciliation-rehearsed :
    (mac : Mac) (m : MockPsp) (psp : String) (start : ℤ) (w : World) (r : ReconciliationRecord)
    → Router.get_adapter psp w.router ≡ some (adapter mac m)
    → (run_batch_reconciliation psp start w).0 ≡ ok r
    → let rs = internal_records psp start w.tables in
      (r.matched_count ≡ count_of is_captured rs)
      × (r.matched_count + r.discrepancy_count ≡ length rs)
run_batch_reconciliation-rehearsed mac m psp start w r known h =
    let c = run_batch_reconciliation-Reconciled psp start w r h in
    (c.tested is_captured (λ a e. registered-Decides mac m psp a (sym known ∙ e)), c.counted)
