-- ===== src/Reconciliation.antt =====
-- internal/service/reconciliation.go: the batch that compares a day's payments with the provider.
-- The start of the day is `time.Date` of the caller's date; log lines are left out.
pub mod Loop
pub mod Counts
pub mod Reads
pub mod Kept
use resilient_settlement_orc.Base.{
  ℕ, ◌+◌, String, Bool, true, false, not, ◌&&◌, Option, none, some, List, [], ◌∷◌, length,
  if◌then◌else◌, str_eq, is_some,
}
use resilient_settlement_orc.Base.Int.{ℤ, pos, ltb_ℤ, leb_ℤ, eqb_ℤ, ◌+ℤ◌}
use resilient_settlement_orc.Base.Int64.{add64}
use resilient_settlement_orc.Payment.Status.{PaymentStatus, status_string}
use resilient_settlement_orc.Router
use resilient_settlement_orc.Store.Rows
use resilient_settlement_orc.Store.Rows.{
  Payment, ReconciliationRecord, ReconciliationStatus, Discrepancy, DiscrepancyType, missing_in_psp,
  amount_mismatch, status_mismatch,
}
use resilient_settlement_orc.Store.Tables.{Tables, find_by, update_by}
use resilient_settlement_orc.Store.Action.{
  Error, database, unknown_psp, reconciliation_not_found, Reply, answer, failure, PspStatusResponse,
  PspAdapter, Result, ok, err, World, Action, pure, raise, gets, or_raise, ◌>>=◌, ◌>>◌, continue,
  now, new_id, query, exec,
}

-- `normalizePSPStatus`
unfoldable pub normalize_psp_status : String → String → String
normalize_psp_status psp raw =
    if str_eq psp "stripe"
    then (if str_eq raw "requires_capture"
        then "authorized"
        else if str_eq raw "succeeded"
        then "captured"
        else if str_eq raw "canceled"
        then "cancelled"
        else raw)
    else if str_eq psp "razorpay"
    then (if str_eq raw "authorized"
        then "authorized"
        else if str_eq raw "captured"
        then "captured"
        else if str_eq raw "refunded"
        then "refunded"
        else if str_eq raw "failed"
        then "failed"
        else raw)
    else raw

-- `internalRecord`
pub record InternalRecord : Type 0 where
  pub id : String
  pub psp_payment_id : String
  pub amount : ℤ
  pub status : PaymentStatus

-- A day in nanoseconds.
abbrev day : ℤ
day = pos 86_400_000_000_000

abbrev in_day : String → ℤ → Payment → Bool
in_day psp start p =
    str_eq p.psp psp && (leb_ℤ start p.created_at && ltb_ℤ p.created_at (start +ℤ day))

abbrev insert_created : Payment → List Payment → List Payment
insert_created p [] = p ∷ []
insert_created p (q ∷ qs) =
    let rest = insert_created p qs in
    if leb_ℤ q.created_at p.created_at then q ∷ rest else p ∷ q ∷ qs

abbrev by_created : List Payment → List Payment
by_created [] = []
by_created (p ∷ ps) = insert_created p (by_created ps)

-- `AND psp_payment_id IS NOT NULL`
abbrev with_id : Option String → Payment → List InternalRecord → List InternalRecord
with_id none p rest = rest
with_id (some pid) p rest =
    record { id = p.id; psp_payment_id = pid; amount = p.amount; status = p.status } ∷ rest

abbrev records_of : String → ℤ → List Payment → List InternalRecord
records_of psp start [] = []
records_of psp start (p ∷ ps) =
    let rest = records_of psp start ps in
    if in_day psp start p then with_id p.psp_payment_id p rest else rest

-- The payments of a provider and a day that the provider knows, oldest first.
unfoldable pub internal_records : String → ℤ → Tables → List InternalRecord
internal_records psp start t = records_of psp start (by_created t.payments)

-- What a comparison has found: a kind of discrepancy, with the provider's amount and status.
pub record Found : Type 0 where
  pub type : DiscrepancyType
  pub psp_amount : Option ℤ
  pub psp_status : Option String

abbrev nil_if_blank : String → Option String
nil_if_blank s = if str_eq s "" then none else some s

-- The three checks of the loop, in this order.
unfoldable pub compare_record : String → InternalRecord → Reply PspStatusResponse → Option Found
compare_record psp r (failure e) =
    some (record { type = missing_in_psp; psp_amount = none; psp_status = none })
compare_record psp r (answer s) =
    if ltb_ℤ (pos 0) s.amount && not (eqb_ℤ s.amount r.amount)
    then some (record {
      type = amount_mismatch;
      psp_amount = some s.amount;
      psp_status = nil_if_blank s.status;
    })
    else if not (str_eq (normalize_psp_status psp s.status) (status_string r.status))
    then some (record {
      type = status_mismatch;
      psp_amount = some s.amount;
      psp_status = nil_if_blank s.status;
    })
    else none

abbrev add_discrepancy : Discrepancy → Tables → Option Tables
add_discrepancy d t = some (record t { discrepancies = d ∷ t.discrepancies })

-- `insertDiscrepancy`: an error is only logged.
unfoldable pub insert_discrepancy : String → InternalRecord → Found → World → World
insert_discrepancy recon r f w =
    (exec
      (add_discrepancy (record {
        id = w.env.uuid w.tick;
        reconciliation_record_id = recon;
        payment_id = r.id;
        discrepancy_type = f.type;
        internal_amount = r.amount;
        psp_amount = f.psp_amount;
        internal_status = status_string r.status;
        psp_status = f.psp_status;
        resolution_status = Rows.open_case;
        created_at = w.env.clock w.tick;
      }))
      (record w { tick = w.tick + 1 })).1

pub record Totals : Type 0 where
  pub amount : ℤ
  pub matched : ℕ
  pub discrepancies : ℕ

-- What one round of the loop does once the comparison is known.
abbrev pub tally : String → InternalRecord → Option Found → Totals × World → Totals × World
tally recon r none (t, w) =
    (record t { amount = add64 t.amount r.amount; matched = t.matched + 1 }, w)
tally recon r (some f) (t, w) = (
  record t { amount = add64 t.amount r.amount; discrepancies = t.discrepancies + 1 },
  insert_discrepancy recon r f w,
)

-- The reply of the provider to the n-th call.
abbrev pub reply : PspAdapter → World → InternalRecord → Reply PspStatusResponse
reply a w r = a.get_payment_status w.tick r.psp_payment_id

unfoldable pub compare_all :
    PspAdapter → String → String → List InternalRecord → Totals × World → Totals × World
compare_all a psp recon [] x = x
compare_all a psp recon (r ∷ rs) (t, w) =
    compare_all a psp recon rs
      (tally recon r (compare_record psp r (reply a w r)) (t, record w { tick = w.tick + 1 }))

abbrev pub recon_id : ReconciliationRecord → String
recon_id r = r.id

unfoldable pub insert_record : ReconciliationRecord → Tables → Option Tables
insert_record r t =
    if is_some (find_by recon_id r.id t.reconciliation_records)
    then none
    else some (record t { reconciliation_records = r ∷ t.reconciliation_records })

abbrev update_record :
    String → (ReconciliationRecord → ReconciliationRecord) → Tables → Option Tables
update_record id f t =
    some (record t { reconciliation_records = update_by recon_id id f t.reconciliation_records })

-- `markFailed`: an error is only logged.
unfoldable pub mark_failed : String → World → World
mark_failed id w =
    (exec
      (update_record id (λ r. record r {
        status = Rows.ReconciliationStatus.failed;
        completed_at = some (w.env.clock w.tick);
      }))
      w).1

-- `GetReconciliationRecord`
unfoldable pub get_reconciliation_record : String → Action ReconciliationRecord
get_reconciliation_record id = do
  found ← query (λ t. find_by recon_id id t.reconciliation_records)
  or_raise found reconciliation_not_found

abbrev pub finished : ℕ → Totals → ℤ → ReconciliationRecord → ReconciliationRecord
finished n t time r = record r {
  total_payments = n;
  total_amount = t.amount;
  internal_record_count = n;
  matched_count = t.matched;
  discrepancy_count = t.discrepancies;
  status = Rows.completed;
  completed_at = some time;
}

-- `UPDATE reconciliation_records ... WHERE id = $8`
unfoldable pub finalize : String → ℕ → Totals → ℤ → Tables → Option Tables
finalize id n t time = update_record id (finished n t time)

-- The loop as a step of the method.
abbrev pub comparing : PspAdapter → String → String → List InternalRecord → Action Totals
comparing a psp recon rs w =
    let x =
      compare_all a psp recon rs (record { amount = pos 0; matched = 0; discrepancies = 0 }, w) in
    (ok x.0, x.1)

-- An error of the query marks the record as failed.
abbrev pub or_mark_failed : {A : Type 0} → String → Result A × World → Result A × World
or_mark_failed id (ok a, w) = (ok a, w)
or_mark_failed id (err e, w) = (err e, mark_failed id w)

abbrev pub select_records : String → String → ℤ → Action (List InternalRecord)
select_records id psp start w = or_mark_failed id (query (internal_records psp start) w)

-- What follows the insertion of the record.
unfoldable pub compare_and_finish :
    PspAdapter → String → ℤ → String → ℤ → Action ReconciliationRecord
compare_and_finish a psp start id time = do
  rs ← select_records id psp start
  totals ← comparing a psp id rs
  exec (finalize id (length rs) totals time)
  get_reconciliation_record id

-- The record as it is inserted.
abbrev pub started_record : String → String → ℤ → ℤ → ReconciliationRecord
started_record id psp start time = record {
  id = id;
  reconciliation_date = start;
  psp = psp;
  total_payments = 0;
  total_amount = pos 0;
  internal_record_count = 0;
  matched_count = 0;
  discrepancy_count = 0;
  status = Rows.in_progress;
  created_at = time;
  completed_at = none;
}

unfoldable pub run_with : PspAdapter → String → ℤ → Action ReconciliationRecord
run_with a psp start = do
  id ← new_id
  time ← now
  exec (insert_record (started_record id psp start time))
  compare_and_finish a psp start id time

-- `RunBatchReconciliation`, for the day that starts at `start`.
unfoldable pub run_batch_reconciliation : String → ℤ → Action ReconciliationRecord
run_batch_reconciliation psp start = do
  a ← or_raise (← gets (λ w. Router.get_adapter psp w.router)) unknown_psp
  run_with a psp start
