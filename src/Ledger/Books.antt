-- ===== src/Ledger/Books.antt =====
-- `PostLedgerTransaction` of internal/service/ledger.go: the balance sheet from before a posting to
-- after it.
use resilient_settlement_orc.Base.{
  ◌+◌, ◌-◌, ◌%◌, ◌≤◌, String, false, ◌≡◌, ◌≢◌, refl, ap, ◌∙◌, List, [], ◌∷◌, arith, inl, inr,
  length, ltb, not, Bool-cases, ◌⊎◌, All,
}
use resilient_settlement_orc.Base.Int.{ℤ, pos, eqb_ℤ, ◌≤ℤ◌, eq_of_parts}
use resilient_settlement_orc.Base.Int64.{residue, add64, residue-add64, residue-lt}
use resilient_settlement_orc.Store.Rows.{posted}
use resilient_settlement_orc.Store.Tables.{Tables}
use resilient_settlement_orc.Store.Action.{
  Result, ok, err, World, Action, commit, rollback, begun, continue, transaction, transaction-ok,
  transaction-atomic, exec, raise_if, unbalanced, ◌>>◌,
}
use resilient_settlement_orc.Ledger.{
  EntryLine, PostTransactionRequest, insert_ledger_transaction, post_entry, sum_entries,
  post_entries, ledger_body, post_ledger_transaction, nil_if_empty,
}
use resilient_settlement_orc.Ledger.Balance.{net, moved, DistinctIds, net-lt}
use resilient_settlement_orc.Ledger.Moves.{
  Moves, post_entry-Moves, total_moved, continue-Moves, Moves-none,
}

post_entries-Moves :
    (tx_id : String) (time : ℤ) (es : List EntryLine) (w : World)
    → DistinctIds w.tables.accounts
    → (post_entries tx_id time es w).0 ≡ ok tt
    → Moves w.tables (post_entries tx_id time es w).1.tables (total_moved es)
unfolding post_entries
post_entries-Moves tx_id time [] w d h = Moves-none w.tables w.tables refl refl refl refl d
post_entries-Moves tx_id time (e ∷ es) w d h =
    continue-Moves w.tables (post_entry _ tx_id e time w) _ tt (moved e.debit e.credit)
      (total_moved es) (λ first. post_entry-Moves _ tx_id e time w d first)
      (λ v dv hv. post_entries-Moves tx_id time es v dv hv) h

sum_rest :
    (d c : ℤ) (e : EntryLine) (es : List EntryLine) (x y : ℤ)
    → sum_entries d c (e ∷ es) ≡ ok (x, y)
    → sum_entries (add64 d e.debit) (add64 c e.credit) es ≡ ok (x, y)
unfolding sum_entries
sum_rest d c e es x y h = ground arith

sums_eq : (d c x y : ℤ) → ◌≡◌ {A = Result (ℤ × ℤ)} (ok (d, c)) (ok (x, y)) → (d ≡ x) × (c ≡ y)
sums_eq d c x y h = (cc, cc)

-- The int64 sums differ by what the entries move, modulo 2^64.
sum_entries-moved :
    (d c : ℤ) (es : List EntryLine) (x y : ℤ)
    → sum_entries d c es ≡ ok (x, y)
    → (residue x + 18446744073709551616 - residue y) % 18446744073709551616
      ≡ (residue d + 18446744073709551616 - residue c + total_moved es) % 18446744073709551616
unfolding sum_entries moved
sum_entries-moved d c [] x y h = rw (← (sums_eq d c x y h).0, ← (sums_eq d c x y h).1) (omega arith)
sum_entries-moved d c (e ∷ es) x y h =
    let ih =
      sum_entries-moved (add64 d e.debit) (add64 c e.credit) es x y (sum_rest d c e es x y h) in
    omega (
      arith,
      ih,
      residue-add64 d e.debit,
      residue-add64 c e.credit,
      residue-lt d,
      residue-lt c,
      residue-lt e.debit,
      residue-lt e.credit,
    )

balanced_total :
    (es : List EntryLine) (x y : ℤ)
    → sum_entries (pos 0) (pos 0) es ≡ ok (x, y)
    → x ≡ y
    → total_moved es % 18446744073709551616 ≡ 0
balanced_total es x y h e =
    let m = sum_entries-moved (pos 0) (pos 0) es x y h in
    let r : residue x ≡ residue y = ap residue e in omega (arith, m, r, residue-lt y)

abbrev insert_header : PostTransactionRequest → Action (Unit {0})
insert_header req w =
    exec
      (insert_ledger_transaction (record {
        id = w.env.uuid w.tick;
        payment_id = nil_if_empty req.payment_id;
        transaction_type = req.transaction_type;
        status = posted;
        created_at = w.env.clock w.tick;
        posted_at = w.env.clock w.tick;
      }))
      (record w { tick = w.tick + 1 })

insert_header-Moves :
    (req : PostTransactionRequest) (w : World)
    → DistinctIds w.tables.accounts
    → (insert_header req w).0 ≡ ok tt
    → Moves w.tables (insert_header req w).1.tables 0
unfolding insert_ledger_transaction
insert_header-Moves req w d h =
    Moves-none w.tables (insert_header req w).1.tables (ground arith) (ground arith) (ground arith)
      (ground arith) d

ledger_body-Moves :
    (req : PostTransactionRequest) (w : World)
    → DistinctIds w.tables.accounts
    → (ledger_body req w).0 ≡ ok (commit tt)
    → Moves w.tables (ledger_body req w).1.tables (0 + (total_moved req.entries + 0))
unfolding ledger_body
ledger_body-Moves req w d h =
    continue-Moves w.tables (insert_header req w) _ (commit tt) 0 (total_moved req.entries + 0)
      (λ first. insert_header-Moves req w d first)
      (λ v dv hv.
        continue-Moves v.tables
          (post_entries (w.env.uuid w.tick) (w.env.clock w.tick) req.entries v) _ (commit tt)
          (total_moved req.entries) 0
          (λ first.
            post_entries-Moves (w.env.uuid w.tick) (w.env.clock w.tick) req.entries v dv first)
          (λ u du hu. Moves-none u.tables u.tables refl refl refl refl du) hv)
      h

ledger_body-no_rollback :
    (req : PostTransactionRequest) (w : World) → (ledger_body req w).0 ≢ ok (rollback tt)
unfolding ledger_body insert_ledger_transaction
ledger_body-no_rollback req w h = ground arith

-- An entry that is not negative and has one side at most.
abbrev pub IsClean : EntryLine → Type 0
IsClean e = (pos 0 ≤ℤ e.debit) × (pos 0 ≤ℤ e.credit) × ((e.debit ≡ pos 0) ⊎ (e.credit ≡ pos 0))

sum_entries-IsClean :
    (d c : ℤ) (es : List EntryLine) (x y : ℤ) → sum_entries d c es ≡ ok (x, y) → All IsClean es
unfolding sum_entries
sum_entries-IsClean d c [] x y h = tt
sum_entries-IsClean d c (e ∷ es) x y h = (
  ground arith,
  sum_entries-IsClean (add64 d e.debit) (add64 c e.credit) es x y (sum_rest d c e es x y h),
)

-- What a posting that ended with `r` has done: nothing, or it has kept the sheet, by two clean
-- entries or more.
abbrev pub Posted : PostTransactionRequest → World → Result (Unit {0}) × World → Type 0
Posted req w (err e, w') = w'.tables ≡ w.tables
Posted req w (ok _, w') =
    (2 ≤ length req.entries)
    × All IsClean req.entries
    × (net w'.tables.accounts ≡ net w.tables.accounts)
    × DistinctIds w'.tables.accounts
    × (w'.tables.payments ≡ w.tables.payments)
    × (w'.tables.transitions ≡ w.tables.transitions)
    × (w'.tables.webhook_events ≡ w.tables.webhook_events)

tables_of : {x y : World} → x ≡ y → x.tables ≡ y.tables
tables_of e = ap (λ (v : World). v.tables) e

Posted-by_tx :
    (req : PostTransactionRequest) (w : World) (x y : ℤ) (r : Result (Unit {0}))
    → DistinctIds w.tables.accounts
    → ltb (length req.entries) 2 ≡ false
    → sum_entries (pos 0) (pos 0) req.entries ≡ ok (x, y)
    → x ≡ y
    → (transaction (ledger_body req) w).0 ≡ r
    → Posted req w (r, (transaction (ledger_body req) w).1)
Posted-by_tx req w x y (err e) d two sums eq h = transaction-atomic (ledger_body req) w e h
Posted-by_tx req w x y (ok tt) d two sums eq h = elim (transaction-ok (ledger_body req) w tt h) [
  | inr (undone, same) ↦ absurd (ledger_body-no_rollback req (begun w) undone)
  | inl (done, same) ↦
      let m = ledger_body-Moves req (begun w) d done in
      let t = tables_of same in
      (
        ground arith,
        sum_entries-IsClean (pos 0) (pos 0) req.entries x y sums,
        ap (λ (v : Tables). net v.accounts) t
            ∙ omega
                (arith, m.sheet, balanced_total req.entries x y sums eq, net-lt w.tables.accounts),
        rw t m.distinct,
        ap (λ (v : Tables). v.payments) t ∙ m.same_payments,
        ap (λ (v : Tables). v.transitions) t ∙ m.same_transitions,
        ap (λ (v : Tables). v.webhook_events) t ∙ m.same_events,
      )
]

-- A posting either fails and leaves the tables as they were, or has at least two entries, none
-- negative or two-sided, and keeps the balance sheet (assets and expenses less liabilities and
-- revenue, modulo 2^64), the payments, their transitions and the webhook events. It needs that no two accounts share
-- an identifier, and keeps that; the sums of the entries may wrap.
pub post_ledger_transaction-Posted :
    (req : PostTransactionRequest) (w : World)
    → DistinctIds w.tables.accounts
    → Posted req w (post_ledger_transaction req w)
unfolding post_ledger_transaction
post_ledger_transaction-Posted req w d = elim (Bool-cases (ltb (length req.entries) 2)) [
  | inl few ↦ rw few refl
  | inr two ↦ rw two (by_sums (sum_entries (pos 0) (pos 0) req.entries) refl two)
]
  where
    by_totals :
        (x y : ℤ)
        → ltb (length req.entries) 2 ≡ false
        → sum_entries (pos 0) (pos 0) req.entries ≡ ok (x, y)
        → Posted req w ((raise_if (not (eqb_ℤ x y)) unbalanced >> transaction (ledger_body req)) w)
    by_totals x y two sums = elim (Bool-cases (eqb_ℤ x y)) [
      | inl same ↦
          rw same (Posted-by_tx req w x y _ d two sums (eq_of_parts x y (ground arith)) refl)
      | inr differ ↦ rw differ refl
    ]

    by_sums :
        (s : Result (ℤ × ℤ))
        → sum_entries (pos 0) (pos 0) req.entries ≡ s
        → ltb (length req.entries) 2 ≡ false
        → Posted req w (
            continue
              (s, w)
              (λ totals.
                raise_if (not (eqb_ℤ totals.0 totals.1)) unbalanced
                >> transaction (ledger_body req)))
    by_sums (err e) sums two = refl
    by_sums (ok (x, y)) sums two = by_totals x y two sums
