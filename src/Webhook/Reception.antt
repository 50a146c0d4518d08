-- ===== src/Webhook/Reception.antt =====
-- How internal/service/webhook.go receives a webhook (`ingestWebhookInternal`): the check of its
-- signature and its age, the duplicate check, the row of the event, and the choice of a handler.

use resilient_settlement_orc.Base.{
  ◌+◌, String, Bool, true, false, not, ◌&&◌, ◌||◌, Option, none, some, List, [], ◌∷◌, is_some,
  if◌then◌else◌, str_eq,
}
use resilient_settlement_orc.Base.Int.{ℤ}
use resilient_settlement_orc.Base.Text.{is_within}
use resilient_settlement_orc.Retry.{GoError}
use resilient_settlement_orc.Router
use resilient_settlement_orc.Store.Rows.{Payment, WebhookEvent, WebhookStatus}
use resilient_settlement_orc.Store.Tables.{Tables, find_by, update_by}
use resilient_settlement_orc.Store.Action.{
  Error, unknown_psp, stale_webhook, psp_error, Result, ok, err, World, Action, pure, gets,
  or_raise, ◌>>=◌, ◌>>◌, raise_if, raise_some, now, new_id, query, exec,
}
use resilient_settlement_orc.Ledger.{nil_if_empty}
use resilient_settlement_orc.Webhook.{
  Outside, process_capture_webhook, process_failure_webhook, extract_psp_payment_id,
  process_refund_webhook, is_fresh, idempotency_key,
}

abbrev pub key_of : WebhookEvent → String
key_of e = e.idempotency_key

abbrev pub event_id : WebhookEvent → String
event_id e = e.id

abbrev pub find_event : String → Tables → Option WebhookEvent
find_event key t = find_by key_of key t.webhook_events

-- The types of the columns in migrations/000003 and 000005: VARCHAR of some length, and JSONB.
unfoldable pub is_storable : (String → Bool) → String → String → String → String → String → Bool
is_storable is_jsonb psp event_type payload pid key =
    is_within 50 psp
    && is_within 100 event_type
    && is_jsonb payload
    && is_within 255 pid
    && is_within 500 key

-- `INSERT INTO webhook_events`, with the unique idempotency key
unfoldable pub insert_event : (String → Bool) → WebhookEvent → Tables → Option Tables
insert_event is_jsonb e t =
    if not
        (is_storable is_jsonb e.psp e.event_type e.raw_payload e.psp_payment_id e.idempotency_key)
      || is_some (find_event e.idempotency_key t)
    then none
    else some (record t { webhook_events = e ∷ t.webhook_events })

unfoldable pub finish_event : String → WebhookStatus → Bool → ℤ → Tables → Option Tables
finish_event id status has_error time t = some (record t {
  webhook_events =
      update_by event_id id
        (λ e. record e { status = status; has_error = has_error; processed_at = some time })
        t.webhook_events;
})

-- `SELECT id FROM payments WHERE psp = $1 AND psp_payment_id = $2`
abbrev eq_some : Option String → String → Bool
eq_some none s = false
eq_some (some t) s = str_eq t s

abbrev matches_psp : String → String → Payment → Bool
matches_psp psp pid p = str_eq p.psp psp && eq_some p.psp_payment_id pid

abbrev find_psp_payment : String → String → List Payment → String
find_psp_payment psp pid [] = ""
find_psp_payment psp pid (p ∷ ps) =
    if matches_psp psp pid p then p.id else find_psp_payment psp pid ps

-- The lookup of the internal payment. An error of the database is not looked at here either: it
-- leaves the identifier empty.
unfoldable pub lookup_payment : String → String → Action String
lookup_payment psp pid w = (
  ok (if w.env.db_fails w.tick then "" else find_psp_payment psp pid w.tables.payments),
  record w { tick = w.tick + 1 },
)

abbrev is_err : Result (Unit {0}) → Bool
is_err (ok _) = false
is_err (err _) = true

-- Step 8: the status of the event by the result of its processing, which is the result of all. An
-- error of this statement is only logged.
abbrev pub finish_with : String → ℤ → Result (Unit {0}) × World → Result (Unit {0}) × World
finish_with row time (r, w) = (
  r,
  (exec
      (finish_event row (if is_err r then WebhookStatus.failed else WebhookStatus.processed)
        (is_err r) time)
      w).1,
)

module _ (outside : Outside) where
  -- Step 7 of `ingestWebhookInternal`
  unfoldable pub process_event : String → String → String → Action (Unit {0})
  process_event event_type id payload =
      if str_eq event_type "payment.captured" || str_eq event_type "payment_intent.succeeded"
      then process_capture_webhook id
      else if str_eq event_type "payment.failed"
          || str_eq event_type "payment_intent.payment_failed"
      then process_failure_webhook id
      else if str_eq event_type "refund.created" || str_eq event_type "refund.processed"
      then process_refund_webhook outside id payload
      else pure tt

  abbrev pub process_and_finish : String → ℤ → String → String → String → Action (Unit {0})
  process_and_finish row time event_type id payload w =
      finish_with row time (process_event event_type id payload w)

  -- Steps 4 to 8, for a key that is new.
  unfoldable pub ingest_new : String → String → String → String → Action (Unit {0})
  ingest_new psp event_type payload key = do
    let pid = extract_psp_payment_id outside psp payload
    internal ← lookup_payment psp pid
    row ← new_id
    time ← now
    exec (
        insert_event outside.is_jsonb (record {
          id = row;
          psp = psp;
          event_type = event_type;
          raw_payload = payload;
          signature = "verified";
          psp_payment_id = pid;
          internal_payment_id = nil_if_empty internal;
          status = WebhookStatus.processing;
          idempotency_key = key;
          has_error = false;
          processed_at = none;
          created_at = time;
        }))
    process_and_finish row time event_type internal payload

  abbrev pub bad_signature_of : Option GoError → Option Error
  bad_signature_of none = none
  bad_signature_of (some e) = some (psp_error e)

  -- Whether the row of an event can be stored.
  abbrev pub is_accepted : String → String → String → Bool
  is_accepted psp event_type payload =
      is_storable outside.is_jsonb psp event_type payload
        (extract_psp_payment_id outside psp payload)
        (idempotency_key outside psp event_type payload)

  -- Steps 2 and 3: the key, and whether it is there already.
  unfoldable pub ingest_once : String → String → String → Action (Unit {0})
  ingest_once psp event_type payload = do
    let key = idempotency_key outside psp event_type payload
    existing ← query (find_event key)
    if is_some existing then pure tt else ingest_new psp event_type payload key

  -- `ingestWebhookInternal`
  unfoldable pub ingest_webhook_internal :
      String → String → String → String → Bool → Action (Unit {0})
  ingest_webhook_internal psp event_type payload signature skip = do
    adapter ← or_raise (← gets (λ w. Router.get_adapter psp w.router)) unknown_psp
    raise_some (
        if skip
        then none
        else bad_signature_of (adapter.verify_webhook_signature payload signature))
    time ← now
    raise_if (not skip && not (is_fresh outside time payload)) stale_webhook
    ingest_once psp event_type payload

  unfoldable pub ingest_webhook : String → String → String → String → Action (Unit {0})
  ingest_webhook psp event_type payload signature =
      ingest_webhook_internal psp event_type payload signature false

  -- `IngestWebhookRetry`
  unfoldable pub ingest_webhook_retry : String → String → String → Action (Unit {0})
  ingest_webhook_retry psp event_type payload = do
    adapter ← or_raise (← gets (λ w. Router.get_adapter psp w.router)) unknown_psp
    ingest_webhook_internal psp event_type payload "" true
