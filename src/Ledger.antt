-- ===== src/Ledger.antt =====
-- internal/service/ledger.go with internal/models/ledger.go: posting a double-entry transaction,
-- and the balance of an account. Tracing is left out.
pub mod Balance
pub mod Moves
pub mod Books
pub mod Sound
use resilient_settlement_orc.Base.{
  ℕ, ◌+◌, String, Bool, true, false, not, ◌&&◌, ◌||◌, Option, none, some, List, [], ◌∷◌, length,
  if◌then◌else◌, str_eq, ltb,
}
use resilient_settlement_orc.Base.Int.{ℤ, pos, ltb_ℤ, eqb_ℤ}
use resilient_settlement_orc.Base.Int64.{add64, sub64}
use resilient_settlement_orc.Store.Rows.{
  AccountType, asset, liability, revenue, expense, posted, LedgerAccount, LedgerTransaction,
  LedgerEntry,
}
use resilient_settlement_orc.Store.Tables.{Tables, find_by, update_by}
use resilient_settlement_orc.Store.Action.{
  Error, few_entries, negative_entry, both_sides, unbalanced, account_not_found, database, Result,
  ok, err, Action, pure, or_raise, ◌>>=◌, ◌>>◌, raise_if, now, new_id, query, exec, End, commit,
  transaction,
}

pub record EntryLine : Type 0 where
  pub account_code : String
  pub debit : ℤ
  pub credit : ℤ
  pub description : String
  pub reference_id : String

pub record PostTransactionRequest : Type 0 where
  pub payment_id : String
  pub transaction_type : String
  pub entries : List EntryLine

abbrev pub code_of : LedgerAccount → String
code_of a = a.account_code

abbrev pub id_of : LedgerAccount → String
id_of a = a.id

abbrev pub find_account : String → Tables → Option LedgerAccount
find_account code t = find_by code_of code t.accounts

-- `UPDATE ledger_accounts SET current_balance = $1 WHERE id = $2`
unfoldable pub set_balance : String → ℤ → Tables → Option Tables
set_balance id balance t = some (record t {
  accounts = update_by id_of id (λ a. record a { current_balance = balance }) t.accounts;
})

-- The constraint `chk_debit_credit` of migrations/000002.
abbrev pub one_sided : ℤ → ℤ → Bool
one_sided debit credit =
    ltb_ℤ (pos 0) debit && eqb_ℤ credit (pos 0) || ltb_ℤ (pos 0) credit && eqb_ℤ debit (pos 0)

-- The row has a new UUID for its primary key, which is taken not to be there yet.
unfoldable pub insert_entry : LedgerEntry → Tables → Option Tables
insert_entry e t =
    if one_sided e.debit e.credit
    then some (record t { ledger_entries = e ∷ t.ledger_entries })
    else none

-- The row has a new UUID for its primary key, which is taken not to be there yet.
unfoldable pub insert_ledger_transaction : LedgerTransaction → Tables → Option Tables
insert_ledger_transaction x t = some (record t { ledger_transactions = x ∷ t.ledger_transactions })

-- Assets and expenses have a normal debit balance, liabilities and revenue a normal credit one.
unfoldable pub new_balance : AccountType → ℤ → ℤ → ℤ → ℤ
new_balance asset current debit credit = add64 current (sub64 debit credit)
new_balance expense current debit credit = add64 current (sub64 debit credit)
new_balance liability current debit credit = add64 current (sub64 credit debit)
new_balance revenue current debit credit = add64 current (sub64 credit debit)

-- Lock the account, update its balance, insert the entry; `missing` is the error if there is no
-- such account.
unfoldable pub post_entry : Error → String → EntryLine → ℤ → Action (Unit {0})
post_entry missing tx_id line time = do
  account ← or_raise (← query (find_account line.account_code)) missing
  let balance = new_balance account.account_type account.current_balance line.debit line.credit
  exec (set_balance account.id balance)
  row ← new_id
  exec (
      insert_entry (record {
        id = row;
        transaction_id = tx_id;
        account_id = account.id;
        debit = line.debit;
        credit = line.credit;
        running_balance = balance;
        description = line.description;
        reference_id = line.reference_id;
        created_at = time;
      }))

-- The validation loop: the first bad entry, or the sums, which are int64.
unfoldable pub sum_entries : ℤ → ℤ → List EntryLine → Result (ℤ × ℤ)
sum_entries debit credit [] = ok (debit, credit)
sum_entries debit credit (e ∷ es) =
    let rest = sum_entries (add64 debit e.debit) (add64 credit e.credit) es in
    if ltb_ℤ e.debit (pos 0) || ltb_ℤ e.credit (pos 0)
    then err negative_entry
    else if ltb_ℤ (pos 0) e.debit && ltb_ℤ (pos 0) e.credit
    then err both_sides
    else rest

-- The processing loop.
unfoldable pub post_entries : String → ℤ → List EntryLine → Action (Unit {0})
post_entries tx_id time [] = pure tt
post_entries tx_id time (e ∷ es) =
    post_entry (account_not_found e.account_code) tx_id e time >> post_entries tx_id time es

abbrev pub nil_if_empty : String → Option String
nil_if_empty s = if str_eq s "" then none else some s

unfoldable pub ledger_body : PostTransactionRequest → Action (End (Unit {0}))
ledger_body req = do
  time ← now
  tx_id ← new_id
  exec (
      insert_ledger_transaction (record {
        id = tx_id;
        payment_id = nil_if_empty req.payment_id;
        transaction_type = req.transaction_type;
        status = posted;
        created_at = time;
        posted_at = time;
      }))
  post_entries tx_id time req.entries
  pure (commit tt)

abbrev lift : {A : Type 0} → Result A → Action A
lift r w = (r, w)

-- `PostLedgerTransaction`
unfoldable pub post_ledger_transaction : PostTransactionRequest → Action (Unit {0})
post_ledger_transaction req = do
  raise_if (ltb (length req.entries) 2) few_entries
  totals ← lift (sum_entries (pos 0) (pos 0) req.entries)
  raise_if (not (eqb_ℤ totals.0 totals.1)) unbalanced
  transaction (ledger_body req)

-- `GetAccountBalance`
unfoldable pub get_account_balance : String → Action LedgerAccount
get_account_balance code = do or_raise (← query (find_account code)) (account_not_found code)
