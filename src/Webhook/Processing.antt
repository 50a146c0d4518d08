-- ===== src/Webhook/Processing.antt =====
-- The three handlers of webhook events (internal/service/webhook.go): the audit trail and the
-- balance sheet from before a handler to after it.
use resilient_settlement_orc.Base.{
  ◌+◌, String, ◌≡◌, none, some, arith, inl, inr, Option-cases, Bool-cases, str_eq, ◌||◌,
}
use resilient_settlement_orc.Base.Int.{ℤ, pos, leb_ℤ}
use resilient_settlement_orc.Payment.Status.{
  PaymentStatus, captured, failed, validate_transition, status_eq, is_terminal,
}
use resilient_settlement_orc.Store.Rows.{Payment}
use resilient_settlement_orc.Store.Tables.{find_payment}
use resilient_settlement_orc.Store.Action.{
  database, ok, World, Action, commit, begun, continue, raise_some, query, or_raise, ◌>>=◌,
}
use resilient_settlement_orc.PaymentService.{record_change, transition_error}
use resilient_settlement_orc.Ledger.Sound.{Sound, Sound-refl, continue-Sound, transaction-Sound}
use resilient_settlement_orc.Webhook.{
  Outside, post_pair, capture_locked, capture_body, process_capture_webhook, failure_locked,
  failure_body, process_failure_webhook, refund_status, refund_locked, refund_body,
  process_refund_webhook, extract_refund_amount,
}
use resilient_settlement_orc.Webhook.Reception.{process_event}
use resilient_settlement_orc.Webhook.Posting.{record_change-Sound, post_pair-Sound}

-- A check that raises nothing, and what follows it.
legal_then-Sound :
    {A : Type 0} (from to : PaymentStatus) (f : Unit {0} → Action A) (b : A) (w : World)
    → (validate_transition from to ≡ none → (f tt w).0 ≡ ok b → Sound w.tables (f tt w).1.tables)
    → (continue (raise_some (transition_error (validate_transition from to)) w) f).0 ≡ ok b
    → Sound w.tables
        (continue (raise_some (transition_error (validate_transition from to)) w) f).1.tables
legal_then-Sound from to f b w k h = elim (Option-cases (validate_transition from to)) [
  | inl legal ↦ rw legal (k legal (ground arith))
  | inr (e, refused) ↦ ground arith
]

module _ (id : String) (p : Payment) (time : ℤ) (w : World) (a : Unit {0})
    (found : find_payment id w.tables ≡ some p) where
  capture_locked-Sound :
      (capture_locked id p time w).0 ≡ ok (commit a)
      → Sound w.tables (capture_locked id p time w).1.tables
  unfolding capture_locked
  capture_locked-Sound = legal_then-Sound p.status captured _ (commit a) w (λ legal.
      continue-Sound w.tables (record_change id p.status captured (λ q. q) _ "webhook" time w) _
        (commit a) (λ c one. record_change-Sound id p captured _ time w c found legal one)
        (λ c v.
          continue-Sound v.tables (post_pair id _ _ _ p.amount _ time v) _ (commit a)
            (λ c' one. post_pair-Sound id _ _ _ p.amount _ time v c' one)
            (λ c' u hu. Sound-refl u.tables)))

  failure_locked-Sound :
      (failure_locked id p time w).0 ≡ ok (commit a)
      → Sound w.tables (failure_locked id p time w).1.tables
  unfolding failure_locked
  failure_locked-Sound = legal_then-Sound p.status failed _ (commit a) w (λ legal.
      continue-Sound w.tables (record_change id p.status failed (λ q. q) _ "webhook" time w) _
        (commit a) (λ c one. record_change-Sound id p failed _ time w c found legal one)
        (λ c u hu. Sound-refl u.tables))

  refund_locked-Sound :
      (amount : ℤ)
      → (refund_locked id p amount time w).0 ≡ ok (commit a)
      → Sound w.tables (refund_locked id p amount time w).1.tables
  unfolding refund_locked
  refund_locked-Sound amount =
      let to = refund_status amount p.amount in
      legal_then-Sound p.status to _ (commit a) w (λ legal.
        continue-Sound w.tables (record_change id p.status to (λ q. q) _ "webhook" time w) _
          (commit a) (λ c one. record_change-Sound id p to _ time w c found legal one)
          (λ c v.
            continue-Sound v.tables (post_pair id _ _ _ amount _ time v) _ (commit a)
              (λ c' one. post_pair-Sound id _ _ _ amount _ time v c' one)
              (λ c' u hu. Sound-refl u.tables)))

-- A payment that is found, and what follows.
found_then-Sound :
    {A : Type 0} (id : String) (g : Payment → Action A) (b : A) (w : World)
    → ((p : Payment) (v : World)
        → find_payment id v.tables ≡ some p
        → (g p v).0 ≡ ok b
        → Sound v.tables (g p v).1.tables)
    → (continue (query (find_payment id) w) (λ o. or_raise o database >>= g)).0 ≡ ok b
    → Sound w.tables
        (continue (query (find_payment id) w) (λ o. or_raise o database >>= g)).1.tables
found_then-Sound id g b w k h = elim (Bool-cases (w.env.db_fails w.tick)) [
  | inl down ↦ ground arith
  | inr up ↦ elim (Option-cases (find_payment id w.tables)) [
    | inl n ↦ ground arith
    | inr (p, e) ↦ rw (up, e) (k p (record w { tick = w.tick + 1 }) e (ground arith))
  ]
]

module _ (id : String) (w : World) (a : Unit {0}) where
  capture_body-Sound :
      (capture_body id w).0 ≡ ok (commit a) → Sound w.tables (capture_body id w).1.tables
  unfolding capture_body
  capture_body-Sound = found_then-Sound id _ (commit a) w (λ p v found.
      elim (Bool-cases (status_eq p.status captured)) [
        | inl done ↦ λ h. absurd (ground arith)
        | inr undone ↦ rw undone (capture_locked-Sound id p (w.env.clock w.tick) v a found)
      ])

  failure_body-Sound :
      (failure_body id w).0 ≡ ok (commit a) → Sound w.tables (failure_body id w).1.tables
  unfolding failure_body
  failure_body-Sound = found_then-Sound id _ (commit a) w (λ p v found.
      elim (Bool-cases (is_terminal p.status)) [
        | inl done ↦ λ h. absurd (ground arith)
        | inr undone ↦ rw undone (failure_locked-Sound id p (w.env.clock w.tick) v a found)
      ])

  refund_body-Sound :
      (amount : ℤ)
      → (refund_body id amount w).0 ≡ ok (commit a)
      → Sound w.tables (refund_body id amount w).1.tables
  unfolding refund_body
  refund_body-Sound amount =
      found_then-Sound id _ (commit a) w
        (λ p v found. refund_locked-Sound id p (w.env.clock w.tick) v a found amount)

-- The webhook of a capture.
process_capture_webhook-Sound :
    (id : String) (w : World) → Sound w.tables (process_capture_webhook id w).1.tables
unfolding process_capture_webhook
process_capture_webhook-Sound id w = elim (Bool-cases (str_eq id "")) [
  | inl none_given ↦ rw none_given (Sound-refl w.tables)
  | inr given ↦ rw given (transaction-Sound (capture_body id) w (capture_body-Sound id (begun w)))
]

process_failure_webhook-Sound :
    (id : String) (w : World) → Sound w.tables (process_failure_webhook id w).1.tables
unfolding process_failure_webhook
process_failure_webhook-Sound id w = elim (Bool-cases (str_eq id "")) [
  | inl none_given ↦ rw none_given (Sound-refl w.tables)
  | inr given ↦ rw given (transaction-Sound (failure_body id) w (failure_body-Sound id (begun w)))
]

process_refund_webhook-Sound :
    (outside : Outside) (id payload : String) (w : World)
    → Sound w.tables (process_refund_webhook outside id payload w).1.tables
unfolding process_refund_webhook
process_refund_webhook-Sound outside id payload w = elim (Bool-cases (str_eq id "")) [
  | inl none_given ↦ rw none_given (Sound-refl w.tables)
  | inr given ↦ elim (Option-cases (outside.parse payload)) [
    | inl n ↦ rw (given, n) (Sound-refl w.tables)
    | inr (parsed, e) ↦ elim (Bool-cases (leb_ℤ (extract_refund_amount parsed) (pos 0))) [
      | inl bad ↦ rw (given, e, bad) (Sound-refl w.tables)
      | inr good ↦
          rw (given, e, good)
            (transaction-Sound (refund_body id (extract_refund_amount parsed)) w
              (λ a h. refund_body-Sound id (begun w) a (extract_refund_amount parsed) h))
    ]
  ]
]

-- The processing of an event of any type.
pub process_event-Sound :
    (outside : Outside) (event_type id payload : String) (w : World)
    → Sound w.tables (process_event outside event_type id payload w).1.tables
unfolding process_event
process_event-Sound outside event_type id payload w =
    elim (Bool-cases
      (str_eq event_type "payment.captured" || str_eq event_type "payment_intent.succeeded")) [
        | inl capture ↦ rw capture (process_capture_webhook-Sound id w)
        | inr a ↦
            elim (Bool-cases (
              str_eq event_type "payment.failed"
              || str_eq event_type "payment_intent.payment_failed")) [
                | inl failure ↦ rw (a, failure) (process_failure_webhook-Sound id w)
                | inr b ↦
                    elim (Bool-cases (
                      str_eq event_type "refund.created" || str_eq event_type "refund.processed")) [
                        | inl refund ↦
                            rw (a, b, refund) (process_refund_webhook-Sound outside id payload w)
                        | inr c ↦ rw (a, b, c) (Sound-refl w.tables)
                      ]
              ]
      ]
