-- ===== src/Handlers/Webhooks/Signatures.antt =====
-- What internal/handler/webhook.go does with a webhook that nobody has signed.
use resilient_settlement_orc.Base.{
  ◌≤◌, String, ◌≡◌, refl, none, some, arith, str_eq, Bool-cases, inl, inr,
}
use resilient_settlement_orc.Retry.{GoError}
use resilient_settlement_orc.Router
use resilient_settlement_orc.Store.Action.{World, err, PspAdapter, psp_error}
use resilient_settlement_orc.Webhook.{Outside}
use resilient_settlement_orc.Webhook.Reception.{ingest_webhook, ingest_webhook_internal}
use resilient_settlement_orc.Handlers.{status}
use resilient_settlement_orc.Handlers.Webhooks.{
  extract_signature_header, extract_event_type, handle_webhook,
}

module _ (outside : Outside) where
  ingest_webhook-unsigned :
      (psp event_type payload signature : String) (w : World) (a : PspAdapter) (e : GoError)
      → Router.get_adapter psp w.router ≡ some a
      → a.verify_webhook_signature payload signature ≡ some e
      → ingest_webhook outside psp event_type payload signature w ≡ (err (psp_error e), w)
  unfolding ingest_webhook ingest_webhook_internal
  ingest_webhook-unsigned psp event_type payload signature w a e known bad = rw (known, bad) refl

  -- No publisher is set up, and the adapter of the PSP refuses the signature in the PSP's header.
  -- Then the webhook is answered with an error, and has no effect at all.
  pub handle_webhook-unsigned :
      (psp body : String) (header : String → String) (w : World) (a : PspAdapter) (e : GoError)
      → Router.get_adapter psp w.router ≡ some a
      → a.verify_webhook_signature body (extract_signature_header psp header) ≡ some e
      → let x = handle_webhook outside none psp header (some body) w in
        (400 ≤ status x.0) × (x.1 ≡ w)
  unfolding handle_webhook
  handle_webhook-unsigned psp body header w a e known bad = elim (Bool-cases (str_eq psp "")) [
    | inl nameless ↦ rw nameless (omega arith, refl)
    | inr named ↦ rw named (elim (Bool-cases (str_eq body "")) [
      | inl empty ↦ rw empty (omega arith, refl)
      | inr full ↦
          rw full (elim (Bool-cases (str_eq (extract_event_type outside psp header body) "")) [
            | inl untyped ↦ rw untyped (omega arith, refl)
            | inr typed ↦
                rw
                  (
                    typed,
                    ingest_webhook-unsigned psp (extract_event_type outside psp header body) body
                        (extract_signature_header psp header) w a e known bad,
                  )
                  (omega arith, refl)
          ])
    ])
  ]
