-- ===== src/PaymentService/Capture.antt =====
-- The transaction of `CapturePayment` of internal/service/payment.go.
use resilient_settlement_orc.Base.{
  ℕ, true, false, ◌+◌, String, ◌≡◌, ◌≢◌, refl, none, some, ◌∷◌, arith, inl, inr, Option-cases, ap,
  ◌∙◌,
}
use resilient_settlement_orc.Base.Int.{ℤ}
use resilient_settlement_orc.Payment.Status.{PaymentStatus, authorized, captured}
use resilient_settlement_orc.Store.Rows.{Payment, StateTransition, Reason, text}
use resilient_settlement_orc.Router
use resilient_settlement_orc.Store.Tables.{
  caps_hold, update_payment_lem, find_payment, update_payment, insert_transition, apply_change,
}
use resilient_settlement_orc.Store.Action.{
  Env, PspAdapter, continue, pure, Result, ok, err, transaction-atomic, transaction-ok, rollback,
  begun, World, capture_call, commit,
}
use resilient_settlement_orc.PaymentService.{capture_in_tx, capture_body, record_change}

-- The transition row that a status change inserts.
abbrev pub change_row :
    String → String → PaymentStatus → PaymentStatus → Reason → String → ℤ → StateTransition
change_row row id from to reason trigger time = record {
  id = row;
  payment_id = id;
  from_status = some from;
  to_status = to;
  reason = reason;
  triggered_by = trigger;
  created_at = time;
}

-- What a capture that ended with `r` has done to the world.
abbrev pub Captured : String → World → Result (Unit {0}) × World → Type 0
Captured id w (err e, w') = w'.tables ≡ w.tables
Captured id w (ok _, w') =
    (p : Payment) × (pid : String) × (a : PspAdapter) × (time : ℤ) × (row : String) × (find_payment
        id w.tables
      ≡ some p)
    × (p.status ≡ authorized)
    × (p.psp_payment_id ≡ some pid)
    × (Router.get_adapter p.psp w.router ≡ some a)
    × (a.capture_payment (w.tick + 1 + 1) pid p.amount p.currency ≡ none)
    × (w'.psp_calls ≡ capture_call p.psp pid p.amount ∷ w.psp_calls)
    × (w'.tables
        ≡ apply_change id (λ q. record q { status = captured; updated_at = time })
            (change_row row id authorized captured (text "Payment captured via API") "api" time)
            w.tables)

capture_body-ok :
    (id : String) (w : World) (p : Payment)
    → find_payment id w.tables ≡ some p
    → (capture_body id w).0 ≡ ok (commit tt)
    → (p.status ≡ authorized)
      × ((capture_body id w).1.tables
          ≡ apply_change id
              (λ q. record q { status = captured; updated_at = w.env.clock (w.tick + 1 + 1) })
              (change_row
                (w.env.uuid (w.tick + 1 + 1 + 1))
                id
                authorized
                captured
                (text "Payment captured via API")
                "api"
                (w.env.clock (w.tick + 1 + 1)))
              w.tables)
unfolding capture_body record_change update_payment insert_transition
capture_body-ok id w p e h = ground arith

capture_body-calls :
    (id : String) (w : World) (p : Payment) (pid : String)
    → find_payment id w.tables ≡ some p
    → p.psp_payment_id ≡ some pid
    → (capture_body id w).0 ≡ ok (commit tt)
    → (capture_body id w).1.psp_calls ≡ capture_call p.psp pid p.amount ∷ w.psp_calls
unfolding capture_body record_change update_payment insert_transition
capture_body-calls id w p pid e f h = ground arith

capture_body-unknown :
    (id : String) (w : World) (p : Payment)
    → find_payment id w.tables ≡ some p
    → Router.get_adapter p.psp w.router ≡ none
    → (capture_body id w).0 ≢ ok (commit tt)
unfolding capture_body
capture_body-unknown id w p e n h = ground arith

-- The provider's answer to the call is not an error.
capture_body-accepted :
    (id : String) (w : World) (p : Payment) (pid : String) (a : PspAdapter)
    → find_payment id w.tables ≡ some p
    → p.psp_payment_id ≡ some pid
    → Router.get_adapter p.psp w.router ≡ some a
    → (capture_body id w).0 ≡ ok (commit tt)
    → a.capture_payment (w.tick + 1) pid p.amount p.currency ≡ none
unfolding capture_body
capture_body-accepted id w p pid a e f g h = ground arith

capture_body-missing :
    (id : String) (w : World)
    → find_payment id w.tables ≡ none
    → (capture_body id w).0 ≢ ok (commit tt)
unfolding capture_body
capture_body-missing id w n h = ground arith

capture_body-null :
    (id : String) (w : World) (p : Payment)
    → find_payment id w.tables ≡ some p
    → p.psp_payment_id ≡ none
    → (capture_body id w).0 ≢ ok (commit tt)
unfolding capture_body
capture_body-null id w p e n h = ground arith

capture_body-no_rollback : (id : String) (w : World) → (capture_body id w).0 ≢ ok (rollback tt)
unfolding capture_body record_change
capture_body-no_rollback id w h = ground arith

Captured-by_body :
    (id : String) (w after : World)
    → (capture_body id (begun w)).0 ≡ ok (commit tt)
    → (after
        ≡ record (capture_body id (begun w)).1 { tick = (capture_body id (begun w)).1.tick + 1 })
    → Captured id w (ok tt, after)
Captured-by_body id w after h same = elim (Option-cases (find_payment id w.tables)) [
  | inl n ↦ absurd (capture_body-missing id (begun w) n h)
  | inr (p, e) ↦ elim (Option-cases p.psp_payment_id) [
    | inl n ↦ absurd (capture_body-null id (begun w) p e n h)
    | inr (pid, f) ↦ elim (Option-cases (Router.get_adapter p.psp w.router)) [
      | inl n ↦ absurd (capture_body-unknown id (begun w) p e n h)
      | inr (a, g) ↦
          let (auth, tables) = capture_body-ok id (begun w) p e h in
          (
            p,
            pid,
            a,
            _,
            _,
            e,
            auth,
            f,
            g,
            capture_body-accepted id (begun w) p pid a e f g h,
            ap (λ (x : World). x.psp_calls) same ∙ capture_body-calls id (begun w) p pid e f h,
            ap (λ (x : World). x.tables) same ∙ tables,
          )
    ]
  ]
]

Captured-by_result :
    (id : String) (w : World) (r : Result (Unit {0}))
    → (capture_in_tx id w).0 ≡ r
    → Captured id w (r, (capture_in_tx id w).1)
unfolding capture_in_tx
Captured-by_result id w (err e) h = transaction-atomic (capture_body id) w e h
Captured-by_result id w (ok tt) h = elim (transaction-ok (capture_body id) w tt h) [
  | inl (done, same) ↦ Captured-by_body id w _ done same
  | inr (undone, same) ↦ absurd (capture_body-no_rollback id (begun w) undone)
]

-- A capture succeeds only for a payment that is authorized, after one call to its registered
-- provider for its whole amount, which that answers without an error, and then sets its status to captured and records one transition; if it fails,
-- at any step, the tables are as before.
pub capture_in_tx-Captured : (id : String) (w : World) → Captured id w (capture_in_tx id w)
capture_in_tx-Captured id w = Captured-by_result id w (capture_in_tx id w).0 refl

record_change-runs :
    (id : String) (time : ℤ) (w : World)
    → ((n : ℕ) → w.env.db_fails n ≡ false)
    → caps_hold w.tables.payments ≡ true
    → (record_change id authorized captured
        (λ q. q)
        (text "Payment captured via API")
        "api"
        time
        w).0
      ≡ ok tt
unfolding record_change insert_transition
record_change-runs id time w up caps = ground (
  arith,
  up w.tick,
  up (w.tick + 1),
  up (w.tick + 1 + 1),
  update_payment_lem id (λ q. record q { status = captured; updated_at = time }) w.tables
      (λ q. refl) caps,
)

record_change-env :
    (id : String) (time : ℤ) (w : World)
    → (record_change id authorized captured
        (λ q. q)
        (text "Payment captured via API")
        "api"
        time
        w).1.env
      ≡ w.env
unfolding record_change insert_transition update_payment
record_change-env id time w = ground arith

then_commit :
    (x : Result (Unit {0}) × World)
    → x.0 ≡ ok tt
    → continue x (λ _. pure (commit tt)) ≡ (ok (commit tt), x.1)
then_commit (ok a, v) h = refl
then_commit (err e, v) h = cc

-- The world after the writes of a capture, from one where `tick` and the calls are as given.
abbrev recorded : String → Payment → String → World → World
recorded id p pid w =
    (record_change id authorized captured (λ q. q) (text "Payment captured via API") "api"
      (w.env.clock (w.tick + 1 + 1))
      (record w {
        tick = w.tick + 1 + 1;
        psp_calls = capture_call p.psp pid p.amount ∷ w.psp_calls;
      })).1

module _ (id : String) (w : World) (p : Payment) (pid : String) (a : PspAdapter)
    (found : find_payment id w.tables ≡ some p) (auth : p.status ≡ authorized)
    (known : p.psp_payment_id ≡ some pid) (registered : Router.get_adapter p.psp w.router ≡ some a)
    (accepts : (n : ℕ) → a.capture_payment n pid p.amount p.currency ≡ none)
    (up : (n : ℕ) → w.env.db_fails n ≡ false) (caps : caps_hold w.tables.payments ≡ true) where
  capture_body-runs : capture_body id w ≡ (ok (commit tt), recorded id p pid w)
  unfolding capture_body
  capture_body-runs =
      rw (up w.tick, found, known, auth, registered, accepts (w.tick + 1))
        (then_commit _ (record_change-runs id _ _ up caps))

finish-runs :
    (id : String) (w : World) (v : World)
    → w.env.db_fails w.tick ≡ false
    → capture_body id (begun w) ≡ (ok (commit tt), v)
    → v.env.db_fails v.tick ≡ false
    → (capture_in_tx id w).0 ≡ ok tt
unfolding capture_in_tx
finish-runs id w v one body last = rw (one, body, last) refl

-- The database answers, the rows meet the constraint on refunds, the payment is authorized and
-- known to a registered provider, and that accepts the capture: then the capture succeeds.
pub capture_in_tx-succeeds :
    (id : String) (w : World) (p : Payment) (pid : String) (a : PspAdapter)
    → find_payment id w.tables ≡ some p
    → p.status ≡ authorized
    → p.psp_payment_id ≡ some pid
    → Router.get_adapter p.psp w.router ≡ some a
    → ((n : ℕ) → a.capture_payment n pid p.amount p.currency ≡ none)
    → ((n : ℕ) → w.env.db_fails n ≡ false)
    → caps_hold w.tables.payments ≡ true
    → (capture_in_tx id w).0 ≡ ok tt
capture_in_tx-succeeds id w p pid a found auth known registered accepts up caps =
    finish-runs id w (recorded id p pid (begun w)) (up w.tick)
      (capture_body-runs id (begun w) p pid a found auth known registered accepts up caps)
      (ap (λ (e : Env). e.db_fails (recorded id p pid (begun w)).tick) (record_change-env id _ _)
        ∙ up (recorded id p pid (begun w)).tick)
