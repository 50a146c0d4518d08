-- ===== src/DeadLetters/Retry.antt =====
-- `Retry` of internal/service/dlq.go: which entry it removes, and when.
use resilient_settlement_orc.Base.{
  ℕ, zero, suc, ◌+◌, ◌<◌, String, Bool, true, false, not, ◌≡◌, refl, ap, ◌∙◌, Option, none, some,
  List, [], ◌∷◌, All, length, get_elem?, take-all, set_elem, remove_elem, arith, str_eq,
  if◌then◌else◌,
}
use resilient_settlement_orc.Base.Int.{ℤ, pos}
use resilient_settlement_orc.Router
use resilient_settlement_orc.Store.Rows.{WebhookEvent}
use resilient_settlement_orc.Store.Action.{World, Result, ok, err, PspAdapter}
use resilient_settlement_orc.Webhook.{Outside, idempotency_key}
use resilient_settlement_orc.Webhook.Reception.{
  find_event, ingest_webhook_retry, ingest_webhook_internal,
}
use resilient_settlement_orc.Webhook.Delivery.{ingest_once-seen}
use resilient_settlement_orc.DeadLetters.{
  DlqEntry, Redis, IsDocumented, DlqService, Outcome, done, failed, DlqError, enqueue, retry,
  tombstone, remove_first, retry_text, retry_entry, retried, bury,
}
use resilient_settlement_orc.DeadLetters.Queue.{enqueue-queue}

abbrev pub is_done : Outcome → Bool
is_done done = true
is_done (failed e) = false

-- No entry is the mark that `Retry` writes over an entry.
abbrev pub IsUnmarked : List String → Type 0
IsUnmarked l = All (λ x. str_eq x tombstone ≡ false) l

remove_first-set_elem :
    (i : ℕ) (l : List String)
    → IsUnmarked l
    → remove_first tombstone (set_elem i tombstone l) ≡ remove_elem i l
remove_first-set_elem i [] h = refl
remove_first-set_elem zero (x ∷ xs) h = refl
remove_first-set_elem (suc i) (x ∷ xs) (other, h) = rw (other, remove_first-set_elem i xs h) refl

module _ (redis : Redis) (outside : Outside) (doc : IsDocumented redis)
    (up : (n : ℕ) → redis.down n ≡ false) where
  bury-queue :
      (i : ℕ) (s : DlqService)
      → IsUnmarked s.queue
      → bury redis outside (pos i) s
        ≡ record s { queue = remove_elem i s.queue; commands = s.commands + 1 + 1 }
  bury-queue i s h =
      rw
        (
          up s.commands,
          up (s.commands + 1),
          doc.lset_lem i tombstone s.queue,
          doc.lrem_lem tombstone (set_elem i tombstone s.queue),
          remove_first-set_elem i s.queue h,
        )
        refl

  -- What is left of the queue, by the result and by what the others do.
  abbrev Left : (DlqService → DlqService) → ℕ → DlqService → DlqService × Outcome → Type 0
  Left others i s (t, done) =
      (w : World) × (t.queue
        ≡ remove_elem i (others (record s { commands = s.commands + 1; world = w })).queue)
  Left others i s (t, failed e) = t.queue ≡ s.queue

  retried-Left :
      (others : DlqService → DlqService) (i : ℕ) (s : DlqService)
      → ((t : DlqService)
          → t.queue ≡ s.queue
          → t.connected ≡ s.connected
          → IsUnmarked (others t).queue)
      → (x : Result (Unit {0}) × World)
      → Left others i s
          (retried redis outside others (pos i) (record s { commands = s.commands + 1 }) x)
  retried-Left others i s h (ok _, w) = (
    w,
    ap (λ (t : DlqService). t.queue)
        (bury-queue i (others (record s { commands = s.commands + 1; world = w })) (h _ refl refl)),
  )
  retried-Left others i s h (err e, w) = refl

  retry_text-Left :
      (others : DlqService → DlqService) (i : ℕ) (s : DlqService)
      → ((t : DlqService)
          → t.queue ≡ s.queue
          → t.connected ≡ s.connected
          → IsUnmarked (others t).queue)
      → (o : Option String)
      → Left others i s
          (retry_text redis outside others (pos i) (record s { commands = s.commands + 1 }) o)
  retry_text-Left others i s h none = refl
  retry_text-Left others i s h (some raw) = entry (redis.unmarshal raw)
    where
      entry :
          (o : Option DlqEntry)
          → Left others i s
              (retry_entry redis outside others (pos i) (record s { commands = s.commands + 1 }) o)
      entry none = refl
      entry (some e) = retried-Left others i s h _

  retry-Left :
      (others : DlqService → DlqService) (i : ℕ) (s : DlqService)
      → ((t : DlqService)
          → t.queue ≡ s.queue
          → t.connected ≡ s.connected
          → IsUnmarked (others t).queue)
      → Left others i s (retry redis outside others (pos i) s)
  unfolding retry
  retry-Left others i s h = by_client s.connected _ (
      by_command (redis.down s.commands) _
        (retry_text-Left others i s h (redis.lindex (pos i) s.queue)))
    where
      by_command :
          (b : Bool) (x : DlqService × Outcome)
          → Left others i s x
          → Left others i s (
              if b
              then (record s { commands = s.commands + 1 }, failed DlqError.redis_failed)
              else x)
      by_command true x l = refl
      by_command false x l = l

      by_client :
          (b : Bool) (x : DlqService × Outcome)
          → Left others i s x
          → Left others i s (if not b then (s, failed DlqError.redis_unavailable) else x)
      by_client true x l = l
      by_client false x l = refl

  -- Redis is up, no entry of the queue is the mark "__DELETED__", and the queue is as before when the
  -- webhook has been processed. Then a retry of an entry, for every index that is not negative,
  -- removes that entry alone if it succeeds, and leaves the queue if it fails.
  pub retry-exact :
      (others : DlqService → DlqService) (i : ℕ) (s : DlqService)
      → IsUnmarked s.queue
      → ((t : DlqService) → (others t).queue ≡ t.queue)
      → let x = retry redis outside others (pos i) s in
        x.0.queue ≡ (if is_done x.1 then remove_elem i s.queue else s.queue)
  retry-exact others i s h calm =
      by_result (retry redis outside others (pos i) s)
        (retry-Left others i s (λ t e g. rw (calm t, e) h))
    where
      by_result :
          (x : DlqService × Outcome)
          → Left others i s x
          → x.0.queue ≡ (if is_done x.1 then remove_elem i s.queue else s.queue)
      by_result (t, done) (w, e) = e ∙ ap (remove_elem i) (calm _)
      by_result (t, failed e) l = l

  -- Redis is up, and another webhook is parked while the retried one is processed. Then a retry that
  -- succeeds removes another entry: the one that has moved to the index, which is the new entry at
  -- the index 0, and the entry before the retried one elsewhere.
  pub retry-shifted :
      (text : DlqEntry → String) (e : DlqEntry) (i : ℕ) (s : DlqService)
      → ((f : DlqEntry) → redis.marshal f ≡ some (text f))
      → IsUnmarked (text e ∷ s.queue)
      → s.connected ≡ true
      → length s.queue < 10_000
      → (retry redis outside (λ t. (enqueue redis e t).0) (pos i) s).1 ≡ done
      → (retry redis outside (λ t. (enqueue redis e t).0) (pos i) s).0.queue
        ≡ remove_elem i (text e ∷ s.queue)
  retry-shifted text e i s json h on few success =
      by_result (retry redis outside (λ t. (enqueue redis e t).0) (pos i) s) success
        (retry-Left (λ t. (enqueue redis e t).0) i s (λ t q c. rw (pushed t q (c ∙ on)) h))
    where
      pushed :
          (t : DlqService)
          → t.queue ≡ s.queue
          → t.connected ≡ true
          → (enqueue redis e t).0.queue ≡ text e ∷ s.queue
      pushed t q c =
          ap (λ (x : DlqService × Outcome). x.0.queue) (enqueue-queue redis text doc up json e t c)
          ∙ (rw q (take-all 10_000 (text e ∷ s.queue) (omega (arith, few))))

      by_result :
          (x : DlqService × Outcome)
          → x.1 ≡ done
          → Left (λ t. (enqueue redis e t).0) i s x
          → x.0.queue ≡ remove_elem i (text e ∷ s.queue)
      by_result (t, done) d (w, q) = q ∙ ap (remove_elem i) (pushed _ refl on)
      by_result (t, failed x) d l = cc d

  retry-connected :
      (others : DlqService → DlqService) (index : ℤ) (s : DlqService)
      → s.connected ≡ true
      → retry redis outside others index s
        ≡ retry_text redis outside others index
            (record s { commands = s.commands + 1 })
            (redis.lindex index s.queue)
  unfolding retry
  retry-connected others index s on = ground (arith, up s.commands)

  ingest_webhook_internal-seen :
      (psp event_type payload : String) (row : WebhookEvent) (adapter : PspAdapter) (w : World)
      → Router.get_adapter psp w.router ≡ some adapter
      → find_event (idempotency_key outside psp event_type payload) w.tables ≡ some row
      → w.env.db_fails w.tick ≡ false
      → ingest_webhook_internal outside psp event_type payload "" true w
        ≡ (ok tt, record w { tick = w.tick + 1 })
  unfolding ingest_webhook_internal
  ingest_webhook_internal-seen psp event_type payload row adapter w known seen answers =
      rw known (ingest_once-seen outside psp event_type payload row w seen answers)

  ingest_webhook_retry-seen :
      (psp event_type payload : String) (row : WebhookEvent) (adapter : PspAdapter) (w : World)
      → Router.get_adapter psp w.router ≡ some adapter
      → find_event (idempotency_key outside psp event_type payload) w.tables ≡ some row
      → w.env.db_fails w.tick ≡ false
      → ingest_webhook_retry outside psp event_type payload w
        ≡ (ok tt, record w { tick = w.tick + 1 })
  unfolding ingest_webhook_retry
  ingest_webhook_retry-seen psp event_type payload row adapter w known seen answers =
      rw known
        (ingest_webhook_internal-seen psp event_type payload row adapter w known seen answers)

  -- The row of the event exists, also where its processing has failed, and the database answers.
  -- Then a retry succeeds without processing it: no table changes, no PSP is called, and the entry is
  -- removed.
  pub retry-discards :
      (i : ℕ) (s : DlqService) (raw : String) (e : DlqEntry) (row : WebhookEvent)
      (adapter : PspAdapter)
      → IsUnmarked s.queue
      → s.connected ≡ true
      → get_elem? s.queue i ≡ some raw
      → redis.unmarshal raw ≡ some e
      → Router.get_adapter e.psp s.world.router ≡ some adapter
      → find_event (idempotency_key outside e.psp e.event_type e.payload) s.world.tables ≡ some row
      → s.world.env.db_fails s.world.tick ≡ false
      → retry redis outside (λ t. t) (pos i) s ≡ (
        record s {
          queue = remove_elem i s.queue;
          commands = s.commands + 1 + 1 + 1;
          world = record s.world { tick = s.world.tick + 1 };
        },
        done,
      )
  retry-discards i s raw e row adapter h on at read known seen answers =
      retry-connected (λ t. t) (pos i) s on
      ∙ (rw
          (
            doc.lindex_lem i s.queue,
            at,
            read,
            ingest_webhook_retry-seen e.psp e.event_type e.payload row adapter s.world known seen
                answers,
          )
          (ap (λ (t : DlqService). (t, done))
            (bury-queue i
              (record s {
                commands = s.commands + 1;
                world = record s.world { tick = s.world.tick + 1 };
              })
              h)))
