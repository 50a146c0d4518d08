-- ===== src/Handlers/Balances.antt =====
-- internal/handler/ledger.go: the balance of an account. The page of recent entries is left out, and
-- so is the query behind it.
use resilient_settlement_orc.Base.{String, if◌then◌else◌, str_eq}
use resilient_settlement_orc.Store.Rows.{LedgerAccount}
use resilient_settlement_orc.Store.Action.{Error, account_not_found, World, Result, ok, err}
use resilient_settlement_orc.Ledger as Service
use resilient_settlement_orc.Handlers.{HttpResponse, error, json}

abbrev error_answer : Error → HttpResponse LedgerAccount
error_answer (account_not_found code) = error 404 "NOT_FOUND"
error_answer _ = error 500 "INTERNAL_ERROR"

abbrev answer : Result LedgerAccount × World → HttpResponse LedgerAccount × World
answer (ok a, w) = (json 200 a, w)
answer (err e, w) = (error_answer e, w)

-- `GetAccountBalance`
unfoldable pub get_account_balance : String → World → HttpResponse LedgerAccount × World
get_account_balance code w =
    if str_eq code ""
    then (error 400 "INVALID_REQUEST", w)
    else answer (Service.get_account_balance code w)
