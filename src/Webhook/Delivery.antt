-- ===== src/Webhook/Delivery.antt =====
-- Receiving a webhook (`ingestWebhookInternal` of internal/service/webhook.go): what a delivery
-- keeps, and what a second delivery does.
use resilient_settlement_orc.Base.{
  ℕ, ◌+◌, String, Bool, true, false, ◌≡◌, refl, sym, ap, subst, Option, none, some, List, [], ◌∷◌,
  eq_refl, arith, inl, inr, Option-cases, Bool-cases, is_some, not, ◌&&◌, if◌then◌else◌,
}
use resilient_settlement_orc.Base.Int.{ℤ}
use resilient_settlement_orc.Router
use resilient_settlement_orc.Store.Rows.{WebhookEvent, WebhookStatus}
use resilient_settlement_orc.Store.Tables.{Tables, find_by, update_by}
use resilient_settlement_orc.Store.Action.{
  Error, stale_webhook, Result, ok, World, exec, raise_if, raise_some,
}
use resilient_settlement_orc.Ledger.Balance.{DistinctIds}
use resilient_settlement_orc.Ledger.Sound.{
  Sound, always-Sound, HasEvent, Sound-refl, Sound-eq, Sound-trans, Sound-same,
}
use resilient_settlement_orc.Webhook.{Outside, extract_psp_payment_id, idempotency_key, is_fresh}
use resilient_settlement_orc.Webhook.Reception.{
  event_id, find_event, insert_event, finish_event, lookup_payment, finish_with, process_event,
  ingest_new, is_storable, is_accepted, ingest_once, ingest_webhook_internal, bad_signature_of,
}
use resilient_settlement_orc.Webhook.Processing.{process_event-Sound}

-- An update by identifier that keeps the keys keeps which keys there are.
update_by-HasKey :
    (id key : String) (f : WebhookEvent → WebhookEvent) (es : List WebhookEvent)
    → ((e : WebhookEvent) → (f e).idempotency_key ≡ e.idempotency_key)
    → is_some (find_by (λ e. e.idempotency_key) key es) ≡ true
    → is_some (find_by (λ e. e.idempotency_key) key (update_by event_id id f es)) ≡ true
update_by-HasKey id key f [] k h = h
update_by-HasKey id key f (e ∷ es) k h = ground (arith, k e, update_by-HasKey id key f es k)

insert_event-Sound :
    (is_jsonb : String → Bool) (e : WebhookEvent) (w : World)
    → Sound w.tables (exec (insert_event is_jsonb e) w).1.tables
unfolding insert_event
insert_event-Sound is_jsonb e w =
    Sound-same w.tables (exec (insert_event is_jsonb e) w).1.tables (ground arith) (ground arith)
      (ground arith) (λ key h. ground arith)

finish_event-Sound :
    (id : String) (status : WebhookStatus) (failed : Bool) (time : ℤ) (w : World)
    → Sound w.tables (exec (finish_event id status failed time) w).1.tables
unfolding finish_event
finish_event-Sound id status failed time w =
    Sound-same w.tables (exec (finish_event id status failed time) w).1.tables (ground arith)
      (ground arith) (ground arith)
      (λ key h.
        let kept =
          update_by-HasKey id key
            (λ e. record e { status = status; has_error = failed; processed_at = some time })
            w.tables.webhook_events (λ e. refl) h in
        elim (Bool-cases (w.env.db_fails w.tick)) [ inl down ↦ rw down h | inr up ↦ rw up kept ])

finish_with-Sound :
    (row : String) (time : ℤ) (s : Tables) (x : Result (Unit {0}) × World)
    → Sound s x.1.tables
    → Sound s (finish_with row time x).1.tables
finish_with-Sound row time s (r, w) k = Sound-trans k (finish_event-Sound row _ _ time w)

lookup_payment-tables :
    (psp pid : String) (w : World) → (lookup_payment psp pid w).1.tables ≡ w.tables
unfolding lookup_payment
lookup_payment-tables psp pid w = refl

raise_some-tables : (e : Option Error) (w : World) → (raise_some e w).1.tables ≡ w.tables
raise_some-tables none w = refl
raise_some-tables (some e) w = refl

module _ (outside : Outside) where
  ingest_new-Sound :
      (psp event_type payload key : String) (w : World)
      → Sound w.tables (ingest_new outside psp event_type payload key w).1.tables
  unfolding ingest_new
  ingest_new-Sound psp event_type payload key w =
      always-Sound w.tables (lookup_payment psp _ w) _ (Sound-eq (lookup_payment-tables psp _ w))
        (λ internal v.
          always-Sound v.tables
            (exec (insert_event outside.is_jsonb _) (record v { tick = v.tick + 1 })) _
            (insert_event-Sound outside.is_jsonb _ (record v { tick = v.tick + 1 }))
            (λ done u.
              finish_with-Sound _ _ u.tables (process_event outside event_type internal payload u)
                (process_event-Sound outside event_type internal payload u)))

  ingest_once-Sound :
      (psp event_type payload : String) (w : World)
      → Sound w.tables (ingest_once outside psp event_type payload w).1.tables
  unfolding ingest_once
  ingest_once-Sound psp event_type payload w =
      let key = idempotency_key outside psp event_type payload in
      elim (Bool-cases (w.env.db_fails w.tick)) [
        | inl down ↦ rw down (Sound-refl w.tables)
        | inr up ↦ elim (Bool-cases (is_some (find_event key w.tables))) [
          | inl seen ↦ rw (up, seen) (Sound-refl w.tables)
          | inr unseen ↦
              rw (up, unseen)
                (ingest_new-Sound psp event_type payload key (record w { tick = w.tick + 1 }))
        ]
      ]

  pub ingest_webhook_internal-Sound :
      (psp event_type payload signature : String) (skip : Bool) (w : World)
      → Sound w.tables
          (ingest_webhook_internal outside psp event_type payload signature skip w).1.tables
  unfolding ingest_webhook_internal
  ingest_webhook_internal-Sound psp event_type payload signature skip w =
      elim (Option-cases (Router.get_adapter psp w.router)) [
        | inl n ↦ rw n (Sound-refl w.tables)
        | inr (a, e) ↦ rw e (
            always-Sound w.tables
              (raise_some
                (if skip
                  then none
                  else bad_signature_of outside (a.verify_webhook_signature payload signature))
                w)
              _ (Sound-eq (raise_some-tables _ w))
              (λ c v.
                always-Sound v.tables
                  (raise_if (not skip && not (is_fresh outside (v.env.clock v.tick) payload))
                    stale_webhook v)
                  _ (Sound-refl v.tables) (λ c' u. ingest_once-Sound psp event_type payload u)))
      ]

  pub ingest_once-seen :
      (psp event_type payload : String) (row : WebhookEvent) (w : World)
      → find_event (idempotency_key outside psp event_type payload) w.tables ≡ some row
      → w.env.db_fails w.tick ≡ false
      → ingest_once outside psp event_type payload w ≡ (ok tt, record w { tick = w.tick + 1 })
  unfolding ingest_once
  ingest_once-seen psp event_type payload row w seen up = ground arith

  -- Where the row of the event is written, a delivery leaves it, however the processing ends.
  ingest_new-HasEvent :
      (psp event_type payload key : String) (w : World)
      → DistinctIds w.tables.accounts
      → ((n : ℕ) → w.env.db_fails n ≡ false)
      → find_event key w.tables ≡ none
      → is_storable outside.is_jsonb psp event_type payload
          (extract_psp_payment_id outside psp payload)
          key
        ≡ true
      → HasEvent key (ingest_new outside psp event_type payload key w).1.tables
  unfolding ingest_new lookup_payment insert_event
  ingest_new-HasEvent psp event_type payload key w d up fresh fits =
      rw (up (w.tick + 1 + 1), fresh, fits)
        ((finish_with-Sound _ _ _ (process_event outside event_type _ payload _)
            (process_event-Sound outside event_type _ payload _)).seen
          d key (rw (eq_refl key) refl))

  ingest_once-HasEvent :
      (psp event_type payload : String) (w : World)
      → DistinctIds w.tables.accounts
      → ((n : ℕ) → w.env.db_fails n ≡ false)
      → is_accepted outside psp event_type payload ≡ true
      → HasEvent
          (idempotency_key outside psp event_type payload)
          (ingest_once outside psp event_type payload w).1.tables
  unfolding ingest_once
  ingest_once-HasEvent psp event_type payload w d up fits =
      let key = idempotency_key outside psp event_type payload in
      elim (Option-cases (find_event key w.tables)) [
        | inl fresh ↦
            rw (up w.tick, fresh)
              (ingest_new-HasEvent psp event_type payload key (record w { tick = w.tick + 1 }) d up
                fresh fits)
        | inr (row, e) ↦ rw (up w.tick, e) (ap is_some e)
      ]

  -- The texts of the event fit their columns. The database answers the first
  -- delivery of an event, and the first statement of a later one,
  -- which meets the tables that the first has left. However the processing of the first ended, the
  -- later delivery succeeds, and only reads: no table changes, and no PSP is called.
  pub ingest_once-again :
      (psp event_type payload : String) (w v : World)
      → DistinctIds w.tables.accounts
      → ((n : ℕ) → w.env.db_fails n ≡ false)
      → is_accepted outside psp event_type payload ≡ true
      → v.tables ≡ (ingest_once outside psp event_type payload w).1.tables
      → v.env.db_fails v.tick ≡ false
      → ingest_once outside psp event_type payload v ≡ (ok tt, record v { tick = v.tick + 1 })
  ingest_once-again psp event_type payload w v d up fits same still =
      let key = idempotency_key outside psp event_type payload in
      elim (Option-cases (find_event key v.tables)) [
        | inl n ↦ absurd (lost n)
        | inr (row, e) ↦ ingest_once-seen psp event_type payload row v e still
      ]
    where
      left :
          HasEvent
            (idempotency_key outside psp event_type payload)
            (ingest_once outside psp event_type payload w).1.tables
      left = ingest_once-HasEvent psp event_type payload w d up fits

      lost : find_event (idempotency_key outside psp event_type payload) v.tables ≡ none → ⊥
      lost n =
          let kept =
            subst (λ t. HasEvent (idempotency_key outside psp event_type payload) t) (sym same)
              left in
          ground (arith, kept, n)
