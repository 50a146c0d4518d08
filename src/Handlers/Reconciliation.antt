-- ===== src/Handlers/Reconciliation.antt =====
-- internal/handler/reconciliation.go. The parser of dates is a parameter; an instant is the start of
-- its day.
use resilient_settlement_orc.Base.{String, Option, none, some, List, if◌then◌else◌, str_eq}
use resilient_settlement_orc.Base.Int.{ℤ}
use resilient_settlement_orc.Store.Rows.{ReconciliationRecord, Discrepancy}
use resilient_settlement_orc.Store.Action.{World, Result, ok, err}
use resilient_settlement_orc.Reconciliation as Service
use resilient_settlement_orc.Reconciliation.Reads as Reads
use resilient_settlement_orc.Handlers.{HttpResponse, error, json}

abbrev answer : {A : Type 0} → String → Result A × World → HttpResponse A × World
answer code (ok a, w) = (json 200 a, w)
answer code (err e, w) = (error 500 code, w)

abbrev run_for : String → Option ℤ → World → HttpResponse ReconciliationRecord × World
run_for psp none w = (error 400 "INVALID_REQUEST", w)
run_for psp (some start) w =
    answer "RECONCILIATION_FAILED" (Service.run_batch_reconciliation psp start w)

-- `TriggerReconciliation`; `day_of` is the start of the day of an instant, and `date` the query.
unfoldable pub trigger_reconciliation :
    (String → Option ℤ)
    → (ℤ → ℤ)
    → String
    → String
    → World
    → HttpResponse ReconciliationRecord × World
trigger_reconciliation parse_date day_of psp date w =
    if str_eq psp ""
    then (error 400 "INVALID_REQUEST", w)
    else run_for psp
        (if str_eq date "" then some (day_of (w.env.clock w.tick)) else parse_date date) w

-- `GetDiscrepancies`
unfoldable pub get_discrepancies : String → World → HttpResponse (List Discrepancy) × World
get_discrepancies id w =
    if str_eq id ""
    then (error 400 "INVALID_REQUEST", w)
    else answer "INTERNAL_ERROR" (Reads.get_discrepancies id w)
