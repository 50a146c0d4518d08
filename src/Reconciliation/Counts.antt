-- ===== src/Reconciliation/Counts.antt =====
-- What the batch of internal/service/reconciliation.go counts, and what its counts mean.
use resilient_settlement_orc.Base.{
  Bool, ℕ, ◌+◌, ◌%◌, String, ◌≡◌, refl, sym, ap, ◌∙◌, subst, inl, inr, Option, none, some, List,
  length, arith, All, Option-cases, eq_refl,
}
use resilient_settlement_orc.Base.Int.{ℤ, pos}
use resilient_settlement_orc.Base.Int64.{residue}
use resilient_settlement_orc.Router
use resilient_settlement_orc.Store.Rows
use resilient_settlement_orc.Store.Rows.{Payment, ReconciliationRecord, Discrepancy}
use resilient_settlement_orc.Store.Tables.{
  Tables, find_by, update_by, find_by-update_by, map_option,
}
use resilient_settlement_orc.Store.Action.{
  PspAdapter, Result, ok, err, World, Action, continue, exec,
}
use resilient_settlement_orc.Reconciliation.{
  InternalRecord, Totals, internal_records, compare_all, recon_id, insert_record, finished,
  finalize, get_reconciliation_record, run_batch_reconciliation, select_records, compare_and_finish,
  started_record, run_with,
}
use resilient_settlement_orc.Reconciliation.Loop.{
  Agrees, Decides, count_of, total_residue, UpWorld, Compared, compare_all-Compared,
}

-- An action that has succeeded has passed through its first part.
continue-ok :
    {A B : Type 0} (x : Result A × World) (f : A → Action B) (b : B)
    → (continue x f).0 ≡ ok b
    → (a : A) × (v : World) × (x ≡ (ok a, v)) × ((f a v).0 ≡ ok b)
continue-ok (ok a, v) f b h = (a, v, refl, h)
continue-ok (err e, v) f b h = cc

-- What a batch that has ended with `r` says of the payments it has compared.
pub record Reconciled (psp : String) (rs : List InternalRecord) (w : World)
    (r : ReconciliationRecord) : Type 0 where
  pub completed : r.status ≡ Rows.completed
  pub total : r.total_payments ≡ length rs
  pub counted : r.matched_count + r.discrepancy_count ≡ length rs
  pub summed :
      residue r.total_amount % 18446744073709551616 ≡ total_residue rs % 18446744073709551616
  pub tested :
      (c : InternalRecord → Bool)
      → ((a : PspAdapter) → Router.get_adapter psp w.router ≡ some a → Decides a psp c)
      → r.matched_count ≡ count_of c rs
  pub agreed :
      r.discrepancy_count ≡ 0
      → (a : PspAdapter) × (Router.get_adapter psp w.router ≡ some a) × All (Agrees a psp) rs

insert_record-payments :
    (row : ReconciliationRecord) (w v : World)
    → exec (insert_record row) w ≡ (ok tt, v)
    → (v.tables.payments ≡ w.tables.payments) × (v.env ≡ w.env)
unfolding insert_record
insert_record-payments row w v h = (ground arith, ground arith)

select_records-ok :
    (id psp : String) (start : ℤ) (w v : World) (rs : List InternalRecord)
    → select_records id psp start w ≡ (ok rs, v)
    → rs ≡ internal_records psp start w.tables
select_records-ok id psp start w v rs h = ground arith

internal_records-same :
    (psp : String) (start : ℤ) (s t : Tables)
    → t.payments ≡ s.payments
    → internal_records psp start t ≡ internal_records psp start s
unfolding internal_records
internal_records-same psp start s t e = rw e refl

finalize-records :
    (id : String) (n : ℕ) (t : Totals) (time : ℤ) (w v : World)
    → exec (finalize id n t time) w ≡ (ok tt, v)
    → v.tables.reconciliation_records
      ≡ update_by recon_id id (finished n t time) w.tables.reconciliation_records
unfolding finalize
finalize-records id n t time w v h = ground arith

get_record-found :
    (id : String) (v : World) (r : ReconciliationRecord)
    → (get_reconciliation_record id v).0 ≡ ok r
    → find_by recon_id id v.tables.reconciliation_records ≡ some r
unfolding get_reconciliation_record
get_record-found id v r h = ground arith

finished_of :
    (n : ℕ) (t : Totals) (time : ℤ) (o : Option ReconciliationRecord) (r : ReconciliationRecord)
    → map_option (finished n t time) o ≡ some r
    → (r.status ≡ Rows.completed)
      × (r.total_payments ≡ n)
      × (r.total_amount ≡ t.amount)
      × (r.matched_count ≡ t.matched)
      × (r.discrepancy_count ≡ t.discrepancies)
finished_of n t time none r h = cc
finished_of n t time (some q) r h = (cc, cc, cc, cc, cc)

-- The last two statements of the method.
finalized :
    (id : String) (n : ℕ) (t : Totals) (time : ℤ) (w v : World) (r : ReconciliationRecord)
    → exec (finalize id n t time) w ≡ (ok tt, v)
    → (get_reconciliation_record id v).0 ≡ ok r
    → (r.status ≡ Rows.completed)
      × (r.total_payments ≡ n)
      × (r.total_amount ≡ t.amount)
      × (r.matched_count ≡ t.matched)
      × (r.discrepancy_count ≡ t.discrepancies)
finalized id n t time w v r h g =
    let old = w.tables.reconciliation_records in
    let found : find_by recon_id id (update_by recon_id id (finished n t time) old) ≡ some r =
      ap (find_by recon_id id) (sym (finalize-records id n t time w v h))
      ∙ get_record-found id v r g in
    let moved : find_by recon_id id (update_by recon_id id (finished n t time) old)
        ≡ map_option (finished n t time) (find_by recon_id id old) =
      rw (find_by-update_by recon_id id id (finished n t time) old (λ q. refl), eq_refl id) refl in
    finished_of n t time (find_by recon_id id old) r (sym moved ∙ found)

abbrev pub no_totals : Totals
no_totals = record { amount = pos 0; matched = 0; discrepancies = 0 }

Reconciled-of :
    (psp : String) (a : PspAdapter) (rs : List InternalRecord) (w u v z : World) (t : Totals)
    (id : String) (time : ℤ) (r : ReconciliationRecord)
    → Router.get_adapter psp w.router ≡ some a
    → Compared a psp rs (no_totals, u) (t, z)
    → exec (finalize id (length rs) t time) z ≡ (ok tt, v)
    → (get_reconciliation_record id v).0 ≡ ok r
    → Reconciled psp rs w r
Reconciled-of psp a rs w u v z t id time r registered c h g =
    let (done, n, sum, m, d) = finalized id (length rs) t time z v r h g in
    record {
      completed = done;
      total = n;
      counted = omega (arith, c.counted, m, d);
      summed = ap (λ y. residue y % 18446744073709551616) sum ∙ omega (arith, c.summed);
      tested = λ test s. omega (arith, c.tested test (s a registered), m);
      agreed = λ none_found. (a, registered, c.agreed (sym d ∙ none_found));
    }

compare_and_finish-Reconciled :
    (a : PspAdapter) (psp : String) (start : ℤ) (id : String) (time : ℤ) (w u : World)
    (r : ReconciliationRecord)
    → Router.get_adapter psp w.router ≡ some a
    → u.tables.payments ≡ w.tables.payments
    → (compare_and_finish a psp start id time u).0 ≡ ok r
    → Reconciled psp (internal_records psp start w.tables) w r
unfolding compare_and_finish
compare_and_finish-Reconciled a psp start id time w u r e same h =
    let (rs, v, selected, h1) = continue-ok (select_records id psp start u) _ r h in
    let x = compare_all a psp id rs (no_totals, v) in
    let (done, z, ended, h2) = continue-ok (exec (finalize id (length rs) x.0 time) x.1) _ r h1 in
    let these : rs ≡ internal_records psp start w.tables =
      select_records-ok id psp start u v rs selected
      ∙ internal_records-same psp start w.tables u.tables same in
    subst (λ l. Reconciled psp l w r) these
      (Reconciled-of psp a rs w v z x.1 x.0 id time r e
        (compare_all-Compared a psp id rs (no_totals, v)) ended h2)

run_with-Reconciled :
    (a : PspAdapter) (psp : String) (start : ℤ) (w : World) (r : ReconciliationRecord)
    → Router.get_adapter psp w.router ≡ some a
    → (run_with a psp start w).0 ≡ ok r
    → Reconciled psp (internal_records psp start w.tables) w r
unfolding run_with
run_with-Reconciled a psp start w r e h =
    let id = w.env.uuid w.tick in
    let time = w.env.clock (w.tick + 1) in
    let row = started_record id psp start time in
    let (done, u, inserted, rest) =
      continue-ok (exec (insert_record row) (record w { tick = w.tick + 1 })) _ r h in
    compare_and_finish-Reconciled a psp start id time w u r e
      (insert_record-payments row (record w { tick = w.tick + 1 }) u inserted).0 rest

-- The whole method.
pub run_batch_reconciliation-Reconciled :
    (psp : String) (start : ℤ) (w : World) (r : ReconciliationRecord)
    → (run_batch_reconciliation psp start w).0 ≡ ok r
    → Reconciled psp (internal_records psp start w.tables) w r
unfolding run_batch_reconciliation
run_batch_reconciliation-Reconciled psp start w r h =
    elim (Option-cases (Router.get_adapter psp w.router)) [
      | inl n ↦ cc (rw n at h)
      | inr (a, e) ↦ run_with-Reconciled a psp start w r e (rw e at h)
    ]

-- A batch that ends without an error ends as completed. It has counted each of the day's payments
-- of the provider once, as matched or as a discrepancy, and has summed their amounts modulo 2^64.
pub run_batch_reconciliation-counts :
    (psp : String) (start : ℤ) (w : World) (r : ReconciliationRecord)
    → (run_batch_reconciliation psp start w).0 ≡ ok r
    → let rs = internal_records psp start w.tables in
      (r.status ≡ Rows.completed)
      × (r.total_payments ≡ length rs)
      × (r.matched_count + r.discrepancy_count ≡ length rs)
      × (residue r.total_amount % 18446744073709551616 ≡ total_residue rs % 18446744073709551616)
run_batch_reconciliation-counts psp start w r h =
    let c = run_batch_reconciliation-Reconciled psp start w r h in
    (c.completed, c.total, c.counted, c.summed)

-- If a batch ends without an error and reports no discrepancy, the adapter of the provider has
-- answered for each of the day's payments with the payment's status, and with the payment's amount
-- or an amount that is not positive.
pub run_batch_reconciliation-agreed :
    (psp : String) (start : ℤ) (w : World) (r : ReconciliationRecord)
    → (run_batch_reconciliation psp start w).0 ≡ ok r
    → r.discrepancy_count ≡ 0
    → (a : PspAdapter) × (Router.get_adapter psp w.router ≡ some a)
      × All (Agrees a psp) (internal_records psp start w.tables)
run_batch_reconciliation-agreed psp start w r h none_found =
    (run_batch_reconciliation-Reconciled psp start w r h).agreed none_found

-- While the database answers, the loop of a batch adds one row for each discrepancy that it counts,
-- and leaves the payments alone.
compare_all-rows :
    (a : PspAdapter) (psp recon : String) (rs : List InternalRecord) (w : World)
    → UpWorld w
    → (length (compare_all a psp recon rs (no_totals, w)).1.tables.discrepancies
        ≡ length w.tables.discrepancies
          + (compare_all a psp recon rs (no_totals, w)).0.discrepancies)
      × ((compare_all a psp recon rs (no_totals, w)).1.tables.payments ≡ w.tables.payments)
compare_all-rows a psp recon rs w up =
    let c = compare_all-Compared a psp recon rs (no_totals, w) in
    (omega (arith, c.rows up), c.same_payments)
