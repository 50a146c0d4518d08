-- ===== src/Reconciliation/Reads.antt =====
-- The methods of internal/service/reconciliation.go that write nothing.
use resilient_settlement_orc.Base.{
  ◌+◌, String, ◌≡◌, ◌≢◌, refl, Option, none, some, List, [], ◌∷◌, if◌then◌else◌, str_eq, arith,
}
use resilient_settlement_orc.Base.Int.{leb_ℤ}
use resilient_settlement_orc.Router
use resilient_settlement_orc.Store.Rows.{Payment, Discrepancy}
use resilient_settlement_orc.Store.Tables.{find_payment}
use resilient_settlement_orc.Store.Action.{
  database, unknown_psp, PspAdapter, ok, err, World, Action, pure, gets, or_raise, ◌>>=◌, query,
}

-- The call of the provider; what it answers is only logged.
abbrev ask_status : PspAdapter → String → Action (Unit {0})
ask_status a pid w = (ok tt, record w { tick = w.tick + 1 })

abbrev reconcile_known : Payment → String → Action (Unit {0})
reconcile_known p pid = if str_eq pid "" then pure tt else do
  a ← or_raise (← gets (λ w. Router.get_adapter p.psp w.router)) unknown_psp
  ask_status a pid

-- `ReconcileSinglePayment`; an identifier that is NULL cannot be scanned.
unfoldable pub reconcile_single_payment : String → Action (Unit {0})
reconcile_single_payment id = do
  p ← or_raise (← query (find_payment id)) database
  pid ← or_raise p.psp_payment_id database
  reconcile_known p pid

-- `resolution_notes`, which no statement of the service sets
abbrev resolution_notes : Discrepancy → Option String
resolution_notes d = none

abbrev with_notes :
    Option String → Discrepancy → Option (List Discrepancy) → Option (List Discrepancy)
with_notes (some notes) d (some ds) = some (d ∷ ds)
with_notes _ d _ = none

-- The loop over the rows; a NULL cannot be scanned into a string.
abbrev pub scan_rows : List Discrepancy → Option (List Discrepancy)
scan_rows [] = some []
scan_rows (d ∷ ds) = with_notes (resolution_notes d) d (scan_rows ds)

abbrev insert_earlier : Discrepancy → List Discrepancy → List Discrepancy
insert_earlier d [] = d ∷ []
insert_earlier d (e ∷ es) =
    let rest = insert_earlier d es in
    if leb_ℤ e.created_at d.created_at then e ∷ rest else d ∷ e ∷ es

-- The rows of a batch, oldest first.
abbrev pub discrepancies_of : String → List Discrepancy → List Discrepancy
discrepancies_of id [] = []
discrepancies_of id (d ∷ ds) =
    let rest = discrepancies_of id ds in
    if str_eq d.reconciliation_record_id id then insert_earlier d rest else rest

-- `GetDiscrepancies`
unfoldable pub get_discrepancies : String → Action (List Discrepancy)
get_discrepancies id = do
  rows ← query (λ t. discrepancies_of id t.discrepancies)
  or_raise (scan_rows rows) database

pub reconcile_single_payment-tables :
    (id : String) (w : World) → (reconcile_single_payment id w).1.tables ≡ w.tables
unfolding reconcile_single_payment
reconcile_single_payment-tables id w = ground arith

scan_rows-none : (ds : List Discrepancy) → ds ≢ [] → scan_rows ds ≡ none
scan_rows-none [] some_rows = absurd (some_rows refl)
scan_rows-none (d ∷ ds) some_rows = refl

-- A batch that has a discrepancy cannot be read: the read fails.
get_discrepancies-fails :
    (id : String) (w : World)
    → discrepancies_of id w.tables.discrepancies ≢ []
    → (get_discrepancies id w).0 ≡ err database
unfolding get_discrepancies
get_discrepancies-fails id w some_rows =
    let n = scan_rows-none (discrepancies_of id w.tables.discrepancies) some_rows in
    ground (arith, n)
