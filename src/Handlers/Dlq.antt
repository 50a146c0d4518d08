-- ===== src/Handlers/Dlq.antt =====
-- internal/handler/dlq.go: the requests for the dead letter queue. A number of the query that cannot
-- be parsed is what `strconv.ParseInt` leaves; the parsed numbers are arguments.
use resilient_settlement_orc.Base.{
  String, not, ◌||◌, Option, none, some, List, if◌then◌else◌, str_eq,
}
use resilient_settlement_orc.Base.Int.{ℤ, pos, leb_ℤ, ltb_ℤ}
use resilient_settlement_orc.Webhook.{Outside}
use resilient_settlement_orc.DeadLetters.{
  Redis, DlqEntry, DlqService, Outcome, done, failed, list, retry, purge,
}
use resilient_settlement_orc.Handlers.{HttpResponse, error, json}

abbrev pub page_limit : ℤ → ℤ
page_limit limit = if leb_ℤ limit (pos 0) || ltb_ℤ (pos 100) limit then pos 20 else limit

-- The entries, the total, the offset and the limit.
abbrev pub Page : Type 0
Page = List DlqEntry × ℤ × ℤ × ℤ

abbrev page_of : ℤ → ℤ → DlqService × Option (List DlqEntry × ℤ) → DlqService × HttpResponse Page
page_of offset limit (s, none) = (s, error 500 "DLQ_ERROR")
page_of offset limit (s, some (entries, total)) = (s, json 200 (entries, total, offset, limit))

abbrev report : String → String → DlqService × Outcome → DlqService × HttpResponse String
report code text (s, done) = (s, json 200 text)
report code text (s, failed e) = (s, error 500 code)

module _ (redis : Redis) where
  -- `ListEntries`
  unfoldable pub list_entries : ℤ → ℤ → DlqService → DlqService × HttpResponse Page
  list_entries offset limit s =
      page_of offset (page_limit limit) (list redis offset (page_limit limit) s)

  module _ (outside : Outside) where
    -- `RetryEntry`; the body is its index.
    unfoldable pub retry_entry :
        (DlqService → DlqService) → Option ℤ → DlqService → DlqService × HttpResponse String
    retry_entry others none s = (s, error 400 "INVALID_REQUEST")
    retry_entry others (some index) s =
        report "DLQ_RETRY_FAILED" "retried" (retry redis outside others index s)

  -- `PurgeQueue`; `confirm` is the header `X-Confirm-Purge`.
  unfoldable pub purge_queue : String → DlqService → DlqService × HttpResponse String
  purge_queue confirm s =
      if not (str_eq confirm "yes")
      then (s, error 400 "CONFIRMATION_REQUIRED")
      else report "DLQ_PURGE_FAILED" "purged" (purge redis s)
