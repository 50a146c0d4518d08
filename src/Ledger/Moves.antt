-- ===== src/Ledger/Moves.antt =====
-- What the parts of a posting (internal/service/ledger.go) do to the balance sheet.
use resilient_settlement_orc.Base.{
  ℕ, ◌+◌, ◌%◌, String, ◌≡◌, ◌≢◌, refl, sym, ◌∙◌, subst, none, some, List, [], ◌∷◌, arith, inl, inr,
  Option-cases,
}
use resilient_settlement_orc.Base.Int.{ℤ}
use resilient_settlement_orc.Store.Rows.{LedgerAccount, LedgerEntry}
use resilient_settlement_orc.Store.Tables.{Tables, update_by}
use resilient_settlement_orc.Store.Action.{Error, Result, ok, err, World, Action, continue}
use resilient_settlement_orc.Ledger.{
  EntryLine, find_account, id_of, set_balance, insert_entry, new_balance, post_entry,
}
use resilient_settlement_orc.Ledger.Balance.{
  net, moved, DistinctIds, DistinctIds-update, net-post, net-lt, with_balance,
}

abbrev pub entry_row : String → String → EntryLine → LedgerAccount → ℤ → LedgerEntry
entry_row row tx_id line a time = record {
  id = row;
  transaction_id = tx_id;
  account_id = a.id;
  debit = line.debit;
  credit = line.credit;
  running_balance = new_balance a.account_type a.current_balance line.debit line.credit;
  description = line.description;
  reference_id = line.reference_id;
  created_at = time;
}

module _ (missing : Error) (tx_id : String) (line : EntryLine) (time : ℤ) (w : World)
    (done : (post_entry missing tx_id line time w).0 ≡ ok tt) where
  pub post_entry-found : find_account line.account_code w.tables ≢ none
  unfolding post_entry
  post_entry-found n = ground arith

  pub post_entry-tables :
      (a : LedgerAccount)
      → find_account line.account_code w.tables ≡ some a
      → (post_entry missing tx_id line time w).1.tables ≡ record w.tables {
        accounts =
            update_by id_of a.id
              (with_balance (new_balance a.account_type a.current_balance line.debit line.credit))
              w.tables.accounts;
        ledger_entries =
            entry_row (w.env.uuid (w.tick + 1 + 1)) tx_id line a time ∷ w.tables.ledger_entries;
      }
  unfolding post_entry set_balance insert_entry
  post_entry-tables a e = ground arith

-- What a part of a transaction has done to the sheet, and that it left the payments alone.
pub record Moves (s t : Tables) (by : ℕ) : Type 0 where
  pub sheet : net t.accounts ≡ (net s.accounts + by) % 18446744073709551616
  pub distinct : DistinctIds t.accounts
  pub same_payments : t.payments ≡ s.payments
  pub same_transitions : t.transitions ≡ s.transitions
  pub same_events : t.webhook_events ≡ s.webhook_events

Moves-of_tables :
    (line : EntryLine) (a : LedgerAccount) (e : LedgerEntry) (s t : Tables)
    → DistinctIds s.accounts
    → find_account line.account_code s ≡ some a
    → t ≡ record s {
      accounts =
          update_by id_of a.id
            (with_balance (new_balance a.account_type a.current_balance line.debit line.credit))
            s.accounts;
      ledger_entries = e ∷ s.ledger_entries;
    }
    → Moves s t (moved line.debit line.credit)
Moves-of_tables line a e s t d found same =
    subst (λ x. Moves s x (moved line.debit line.credit)) (sym same)
      (record {
        sheet = net-post line.account_code a line.debit line.credit s.accounts d found;
        distinct = DistinctIds-update a.id _ s.accounts d;
        same_payments = refl;
        same_transitions = refl;
        same_events = refl;
      })

pub post_entry-Moves :
    (missing : Error) (tx_id : String) (line : EntryLine) (time : ℤ) (w : World)
    → DistinctIds w.tables.accounts
    → (post_entry missing tx_id line time w).0 ≡ ok tt
    → Moves w.tables (post_entry missing tx_id line time w).1.tables (moved line.debit line.credit)
post_entry-Moves missing tx_id line time w d done =
    elim (Option-cases (find_account line.account_code w.tables)) [
      | inl n ↦ absurd (post_entry-found missing tx_id line time w done n)
      | inr (a, e) ↦
          Moves-of_tables line a _ w.tables _ d e
            (post_entry-tables missing tx_id line time w done a e)
    ]

pub Moves-trans : {s t u : Tables} {m n : ℕ} → Moves s t m → Moves t u n → Moves s u (m + n)
Moves-trans f g = record {
  sheet = omega (arith, f.sheet, g.sheet);
  distinct = g.distinct;
  same_payments = g.same_payments ∙ f.same_payments;
  same_transitions = g.same_transitions ∙ f.same_transitions;
  same_events = g.same_events ∙ f.same_events;
}

abbrev pub total_moved : List EntryLine → ℕ
total_moved [] = 0
total_moved (e ∷ es) = moved e.debit e.credit + total_moved es

-- A first part that moves the sheet by `m`, and a rest that moves it by `n`.
pub continue-Moves :
    {B : Type 0} (s : Tables) (x : Result (Unit {0}) × World) (f : Unit {0} → Action B) (b : B)
    (m n : ℕ)
    → (x.0 ≡ ok tt → Moves s x.1.tables m)
    → ((v : World)
        → DistinctIds v.tables.accounts
        → (f tt v).0 ≡ ok b
        → Moves v.tables (f tt v).1.tables n)
    → (continue x f).0 ≡ ok b
    → Moves s (continue x f).1.tables (m + n)
continue-Moves s (err e, v) f b m n first rest h = cc
continue-Moves s (ok tt, v) f b m n first rest h =
    let one = first refl in Moves-trans one (rest v one.distinct h)

pub Moves-none :
    (s t : Tables)
    → t.accounts ≡ s.accounts
    → t.payments ≡ s.payments
    → t.transitions ≡ s.transitions
    → t.webhook_events ≡ s.webhook_events
    → DistinctIds s.accounts
    → Moves s t 0
Moves-none s t a p r e d = record {
  sheet = rw a (omega (arith, net-lt s.accounts));
  distinct = rw a d;
  same_payments = p;
  same_transitions = r;
  same_events = e;
}
