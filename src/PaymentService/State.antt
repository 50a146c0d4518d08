-- ===== src/PaymentService/State.antt =====
-- `updatePaymentState` and the first transaction of `CreatePayment`, of internal/service/payment.go.
use resilient_settlement_orc.Base.{
  ◌+◌, String, ◌≡◌, ◌≢◌, refl, ap, ◌∙◌, none, some, ◌∷◌, arith, inl, inr, Option-cases,
  if◌then◌else◌,
}
use resilient_settlement_orc.Base.Int.{ℤ}
use resilient_settlement_orc.Payment.Status.{PaymentStatus, created, status_eq, validate_transition}
use resilient_settlement_orc.Store.Rows.{Payment, StateTransition, Reason, text}
use resilient_settlement_orc.Store.Tables.{
  find_payment, update_payment, insert_payment, insert_transition, apply_change,
}
use resilient_settlement_orc.Store.Action.{
  Result, World, ok, err, commit, rollback, transaction, begun, transaction-atomic, transaction-ok,
  publish, publish-tables, continue, PaymentEvent,
}
use resilient_settlement_orc.PaymentService.{
  state_body, state_in_tx, update_payment_state, coalesce,
}
use resilient_settlement_orc.PaymentService.Creation.{
  insert_body, new_payment, CreatePaymentRequest,
}
use resilient_settlement_orc.PaymentService.Capture.{change_row}

-- The rows that `UPDATE ... WHERE status = from` rewrites.
abbrev pub state_change : PaymentStatus → PaymentStatus → String → ℤ → Payment → Payment
state_change from to pid time p =
    if status_eq p.status from
    then record p { status = to; psp_payment_id = coalesce pid p.psp_payment_id; updated_at = time }
    else p

-- What an update of a status that ended with `r` has done to the tables.
abbrev pub StateChanged :
    String
    → PaymentStatus
    → PaymentStatus
    → String
    → Reason
    → String
    → World
    → Result (Unit {0}) × World
    → Type 0
StateChanged id from to pid reason trigger w (err e, w') = w'.tables ≡ w.tables
StateChanged id from to pid reason trigger w (ok _, w') =
    (p : Payment) × (time : ℤ) × (row : String) × (find_payment id w.tables ≡ some p)
    × (p.status ≡ from)
    × (validate_transition from to ≡ none)
    × (w'.tables
        ≡ apply_change id (state_change from to pid time)
            (change_row row id from to reason trigger time) w.tables)

module _ (id : String) (from to : PaymentStatus) (pid : String) (reason : Reason)
    (trigger : String) where
  state_body-ok :
      (w : World)
      → (state_body id from to pid reason trigger w).0 ≡ ok (commit tt)
      → (state_body id from to pid reason trigger w).1.tables
        ≡ apply_change id
            (state_change from to pid (w.env.clock w.tick))
            (change_row (w.env.uuid (w.tick + 1)) id from to reason trigger (w.env.clock w.tick))
            w.tables
  unfolding state_body update_payment insert_transition
  state_body-ok w h = ground arith

  state_body-missing :
      (w : World)
      → find_payment id w.tables ≡ none
      → (state_body id from to pid reason trigger w).0 ≢ ok (commit tt)
  unfolding state_body update_payment insert_transition
  state_body-missing w n h = ground arith

  state_body-status :
      (w : World) (p : Payment)
      → find_payment id w.tables ≡ some p
      → (state_body id from to pid reason trigger w).0 ≡ ok (commit tt)
      → p.status ≡ from
  unfolding state_body update_payment insert_transition
  state_body-status w p e h = ground arith

  state_body-no_rollback :
      (w : World) → (state_body id from to pid reason trigger w).0 ≢ ok (rollback tt)
  unfolding state_body update_payment insert_transition
  state_body-no_rollback w h = ground arith

  changed_by_result :
      (w : World) (r : Result (Unit {0}))
      → validate_transition from to ≡ none
      → (state_in_tx id from to pid reason trigger w).0 ≡ r
      → StateChanged id from to pid reason trigger w
          (r, (state_in_tx id from to pid reason trigger w).1)
  unfolding state_in_tx
  changed_by_result w (err e) v h =
      transaction-atomic (state_body id from to pid reason trigger) w e h
  changed_by_result w (ok tt) v h =
      elim (transaction-ok (state_body id from to pid reason trigger) w tt h) [
        | inl (done, same) ↦ elim (Option-cases (find_payment id w.tables)) [
          | inl n ↦ absurd (state_body-missing (begun w) n done)
          | inr (p, e) ↦ (
            p,
            _,
            _,
            e,
            state_body-status (begun w) p e done,
            v,
            ap (λ (x : World). x.tables) same ∙ state_body-ok (begun w) done,
          )
        ]
        | inr (undone, same) ↦ absurd (state_body-no_rollback (begun w) undone)
      ]

  changed_by_publish :
      (w : World) (x : Result (Unit {0}) × World) (e : PaymentEvent)
      → StateChanged id from to pid reason trigger w x
      → StateChanged id from to pid reason trigger w (continue x (λ _. publish e))
  changed_by_publish w (err z, v) e c = c
  changed_by_publish w (ok tt, v) e (p, time, row, found, was, legal, same) =
      (p, time, row, found, was, legal, publish-tables e v ∙ same)

  -- `updatePaymentState` succeeds only for a legal change of a payment that still has the old
  -- status; it then sets the status of that payment, keeps its provider's identifier unless a new
  -- one is given, and records one transition. If it fails, the tables are as before.
  pub update_payment_state-StateChanged :
      (w : World)
      → StateChanged id from to pid reason trigger w
          (update_payment_state id from to pid reason trigger w)
  unfolding update_payment_state
  update_payment_state-StateChanged w = elim (Option-cases (validate_transition from to)) [
    | inr (e, bad) ↦ rw bad refl
    | inl legal ↦ rw legal (
        changed_by_publish w (state_in_tx id from to pid reason trigger w) _
          (changed_by_result w (state_in_tx id from to pid reason trigger w).0 legal refl))
  ]

abbrev pub first_row : String → String → ℤ → StateTransition
first_row row id time = record {
  id = row;
  payment_id = id;
  from_status = none;
  to_status = created;
  reason = text "Payment initialized";
  triggered_by = "system";
  created_at = time;
}

-- What the first transaction of `CreatePayment` has done, by how it ended.
abbrev pub Inserted :
    String → CreatePaymentRequest → String → ℤ → World → Result (Unit {0}) × World → Type 0
Inserted id req psp time w (err e, w') = w'.tables ≡ w.tables
Inserted id req psp time w (ok _, w') =
    (row : String) × (find_payment id w.tables ≡ none)
    × (w'.tables ≡ record w.tables {
      payments = new_payment id req psp time ∷ w.tables.payments;
      transitions = first_row row id time ∷ w.tables.transitions;
    })

module _ (id : String) (req : CreatePaymentRequest) (psp : String) (time : ℤ) where
  insert_body-ok :
      (w : World)
      → (insert_body id req psp time w).0 ≡ ok (commit tt)
      → (find_payment id w.tables ≡ none)
        × ((insert_body id req psp time w).1.tables ≡ record w.tables {
          payments = new_payment id req psp time ∷ w.tables.payments;
          transitions = first_row (w.env.uuid (w.tick + 1)) id time ∷ w.tables.transitions;
        })
  unfolding insert_body insert_payment insert_transition
  insert_body-ok w h = ground arith

  insert_body-no_rollback : (w : World) → (insert_body id req psp time w).0 ≢ ok (rollback tt)
  unfolding insert_body insert_payment insert_transition
  insert_body-no_rollback w h = ground arith

  pub Inserted-by_result :
      (w : World) (r : Result (Unit {0}))
      → (transaction (insert_body id req psp time) w).0 ≡ r
      → Inserted id req psp time w (r, (transaction (insert_body id req psp time) w).1)
  Inserted-by_result w (err e) h = transaction-atomic (insert_body id req psp time) w e h
  Inserted-by_result w (ok tt) h = elim (transaction-ok (insert_body id req psp time) w tt h) [
    | inl (done, same) ↦
        let (fresh, tables) = insert_body-ok (begun w) done in
        (_, fresh, ap (λ (x : World). x.tables) same ∙ tables)
    | inr (undone, same) ↦ absurd (insert_body-no_rollback (begun w) undone)
  ]
