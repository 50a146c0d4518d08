-- ===== src/Reconciliation/Kept.antt =====
-- What the batch of internal/service/reconciliation.go keeps: it writes to its own two tables.
use resilient_settlement_orc.Base.{
  length, ◌+◌, String, ◌≡◌, inl, inr, none, some, List, [], ◌∷◌, arith, Option-cases, Option,
}
use resilient_settlement_orc.Base.Int.{ℤ, pos}
use resilient_settlement_orc.Router
use resilient_settlement_orc.Store.Rows.{ReconciliationRecord}
use resilient_settlement_orc.Store.Tables.{Tables}
use resilient_settlement_orc.Store.Action.{PspAdapter, Result, ok, err, World, exec, query}
use resilient_settlement_orc.Ledger.Sound.{
  Sound, Sound-refl, Sound-eq, Sound-trans, Sound-same, always-Sound,
}
use resilient_settlement_orc.Reconciliation.{
  InternalRecord, Totals, Found, compare_all, compare_record, insert_discrepancy, insert_record,
  mark_failed, finalize, get_reconciliation_record, compare_and_finish, run_with,
  run_batch_reconciliation, select_records, comparing, tally, reply, internal_records,
  or_mark_failed, started_record,
}
use resilient_settlement_orc.Reconciliation.Reads.{
  reconcile_single_payment, reconcile_single_payment-tables,
}

insert_discrepancy-Sound :
    (recon : String) (r : InternalRecord) (f : Found) (w : World)
    → Sound w.tables (insert_discrepancy recon r f w).tables
unfolding insert_discrepancy
insert_discrepancy-Sound recon r f w =
    Sound-same w.tables (insert_discrepancy recon r f w).tables (ground arith) (ground arith)
      (ground arith) (λ key h. ground arith)

tally-Sound :
    (recon : String) (r : InternalRecord) (f : Option Found) (t : Totals) (w : World)
    → Sound w.tables (tally recon r f (t, w)).1.tables
tally-Sound recon r none t w = Sound-refl w.tables
tally-Sound recon r (some f) t w = insert_discrepancy-Sound recon r f w

compare_all-Sound :
    (a : PspAdapter) (psp recon : String) (rs : List InternalRecord) (t : Totals) (w : World)
    → Sound w.tables (compare_all a psp recon rs (t, w)).1.tables
unfolding compare_all
compare_all-Sound a psp recon [] t w = Sound-refl w.tables
compare_all-Sound a psp recon (r ∷ rs) t w =
    let x =
      tally recon r (compare_record psp r (reply a w r)) (t, record w { tick = w.tick + 1 }) in
    Sound-trans
      (tally-Sound recon r (compare_record psp r (reply a w r)) t (record w { tick = w.tick + 1 }))
      (compare_all-Sound a psp recon rs x.0 x.1)

insert_record-Sound :
    (r : ReconciliationRecord) (w : World) → Sound w.tables (exec (insert_record r) w).1.tables
unfolding insert_record
insert_record-Sound r w =
    Sound-same w.tables (exec (insert_record r) w).1.tables (ground arith) (ground arith)
      (ground arith) (λ key h. ground arith)

mark_failed-Sound : (id : String) (w : World) → Sound w.tables (mark_failed id w).tables
unfolding mark_failed
mark_failed-Sound id w =
    Sound-same w.tables (mark_failed id w).tables (ground arith) (ground arith) (ground arith)
      (λ key h. ground arith)

finalize-Sound :
    (id : String) (n : _) (t : Totals) (time : ℤ) (w : World)
    → Sound w.tables (exec (finalize id n t time) w).1.tables
unfolding finalize
finalize-Sound id n t time w =
    Sound-same w.tables (exec (finalize id n t time) w).1.tables (ground arith) (ground arith)
      (ground arith) (λ key h. ground arith)

or_mark_failed-Sound :
    {A : Type 0} (id : String) (s : Tables) (x : Result A × World)
    → Sound s x.1.tables
    → Sound s (or_mark_failed id x).1.tables
or_mark_failed-Sound id s (ok a, w) k = k
or_mark_failed-Sound id s (err e, w) k = Sound-trans k (mark_failed-Sound id w)

select_records-Sound :
    (id psp : String) (start : ℤ) (w : World)
    → Sound w.tables (select_records id psp start w).1.tables
select_records-Sound id psp start w =
    or_mark_failed-Sound id w.tables (query (internal_records psp start) w) (Sound-refl w.tables)

get_record-tables : (id : String) (w : World) → (get_reconciliation_record id w).1.tables ≡ w.tables
unfolding get_reconciliation_record
get_record-tables id w = ground arith

abbrev no_totals : Totals
no_totals = record { amount = pos 0; matched = 0; discrepancies = 0 }

abbrev comparing_totals : PspAdapter → String → String → List InternalRecord → World → Totals
comparing_totals a psp id rs v = (compare_all a psp id rs (no_totals, v)).0

compare_and_finish-Sound :
    (a : PspAdapter) (psp : String) (start : ℤ) (id : String) (time : ℤ) (w : World)
    → Sound w.tables (compare_and_finish a psp start id time w).1.tables
unfolding compare_and_finish
compare_and_finish-Sound a psp start id time w =
    always-Sound w.tables (select_records id psp start w) _ (select_records-Sound id psp start w)
      λ rs v. Sound-trans (compare_all-Sound a psp id rs no_totals v) (
        always-Sound (comparing a psp id rs v).1.tables
          (exec (finalize id (length rs) (comparing_totals a psp id rs v) time)
            (comparing a psp id rs v).1)
          (λ _. get_reconciliation_record id)
          (finalize-Sound id (length rs) (comparing_totals a psp id rs v) time
            (comparing a psp id rs v).1)
          λ _ z. Sound-eq (get_record-tables id z))

run_with-Sound :
    (a : PspAdapter) (psp : String) (start : ℤ) (w : World)
    → Sound w.tables (run_with a psp start w).1.tables
unfolding run_with
run_with-Sound a psp start w =
    let id = w.env.uuid w.tick in
    let time = w.env.clock (w.tick + 1) in
    let u = record w { tick = w.tick + 1 } in
    always-Sound w.tables (exec (insert_record (started_record id psp start time)) u) _
      (insert_record-Sound (started_record id psp start time) u)
      λ _ v. compare_and_finish-Sound a psp start id time v

pub run_batch_reconciliation-Sound :
    (psp : String) (start : ℤ) (w : World)
    → Sound w.tables (run_batch_reconciliation psp start w).1.tables
unfolding run_batch_reconciliation
run_batch_reconciliation-Sound psp start w = elim (Option-cases (Router.get_adapter psp w.router)) [
  | inl n ↦ rw n (Sound-refl w.tables)
  | inr (a, e) ↦ rw e (run_with-Sound a psp start w)
]

pub reconcile_single_payment-Sound :
    (id : String) (w : World) → Sound w.tables (reconcile_single_payment id w).1.tables
reconcile_single_payment-Sound id w = Sound-eq (reconcile_single_payment-tables id w)
