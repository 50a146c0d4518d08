-- ===== src/DeadLetters.antt =====
-- internal/service/dlq.go and internal/handler/dlq.go: the dead letter queue, a Redis list of JSON
-- texts with the newest first. The commands of Redis and `encoding/json` are parameters (`Redis`);
-- log lines are left out.
pub mod Queue
pub mod Retry
use resilient_settlement_orc.Base.{
  ℕ, suc, ◌+◌, String, Bool, true, false, not, ◌≡◌, ◌||◌, Option, none, some, List, [], ◌∷◌, length,
  get_elem?, take, drop, set_elem, if◌then◌else◌, str_eq,
}
use resilient_settlement_orc.Base.Int.{ℤ, pos, leb_ℤ, ltb_ℤ}
use resilient_settlement_orc.Base.Int64.{add64, sub64}
use resilient_settlement_orc.Store.Action.{Error, World, Result, ok, err}
use resilient_settlement_orc.Webhook.{Outside}
use resilient_settlement_orc.Webhook.Reception.{ingest_webhook_retry}

pub record DlqEntry : Type 0 where
  pub id : String
  pub psp : String
  pub event_type : String
  pub payload : String
  pub error : String
  pub timestamp : ℤ

-- What the service takes from libraries. A command of Redis maps the list to the list; `down n`
-- says that the n-th command fails and changes nothing.
pub record Redis : Type 0 where
  pub marshal : DlqEntry → Option String
  pub unmarshal : String → Option DlqEntry
  pub down : ℕ → Bool
  pub lpush : String → List String → List String
  pub ltrim : ℤ → ℤ → List String → List String
  pub llen : List String → ℤ
  pub lrange : ℤ → ℤ → List String → List String
  pub lindex : ℤ → List String → Option String
  pub lset : ℤ → String → List String → List String
  pub lrem : ℤ → String → List String → List String

abbrev pub remove_first : String → List String → List String
remove_first x [] = []
remove_first x (y ∷ ys) = let rest = remove_first x ys in if str_eq y x then ys else y ∷ rest

-- What the documentation of Redis says of these commands, for places counted from the front.
pub record IsDocumented (r : Redis) : Type 0 where
  pub lpush_lem : (x : String) (l : List String) → r.lpush x l ≡ x ∷ l
  pub ltrim_lem : (n : ℕ) (l : List String) → r.ltrim (pos 0) (pos n) l ≡ take (suc n) l
  pub lrange_lem : (n : ℕ) (l : List String) → r.lrange (pos 0) (pos n) l ≡ take (suc n) l
  pub llen_lem : (l : List String) → r.llen l ≡ pos (length l)
  pub lindex_lem : (i : ℕ) (l : List String) → r.lindex (pos i) l ≡ get_elem? l i
  pub lset_lem : (i : ℕ) (y : String) (l : List String) → r.lset (pos i) y l ≡ set_elem i y l
  pub lrem_lem : (x : String) (l : List String) → r.lrem (pos 1) x l ≡ remove_first x l

-- `connected` is false if the Redis client is nil; `commands` numbers the commands. The world is
-- that of the webhook service.
pub record DlqService : Type 0 where
  pub connected : Bool
  pub queue : List String
  pub commands : ℕ
  pub world : World

pub data DlqError : Type 0 where
  redis_unavailable redis_failed bad_json : DlqError
  retry_failed : Error → DlqError

pub data Outcome : Type 0 where
  done : Outcome
  failed : DlqError → Outcome

abbrev pub max_len : ℤ
max_len = pos 10_000

abbrev pub tombstone : String
tombstone = "__DELETED__"

module _ (redis : Redis) where
  -- A command that writes.
  abbrev pub command : (List String → List String) → DlqService → DlqService
  command f s = record s {
    queue = if redis.down s.commands then s.queue else f s.queue;
    commands = s.commands + 1;
  }

  abbrev trimmed_from : DlqService → DlqService → DlqService × Outcome
  trimmed_from before s = (
    command (redis.ltrim (pos 0) (sub64 max_len (pos 1))) s,
    if redis.down before.commands || redis.down s.commands then failed redis_failed else done,
  )

  abbrev push : Option String → DlqService → DlqService × Outcome
  push none s = (s, failed bad_json)
  push (some text) s = trimmed_from s (command (redis.lpush text) s)

  -- `Enqueue`; without a client the entry is dropped.
  unfoldable pub enqueue : DlqEntry → DlqService → DlqService × Outcome
  enqueue entry s = if not s.connected then (s, done) else push (redis.marshal entry) s

  abbrev add_entry : Option DlqEntry → List DlqEntry → List DlqEntry
  add_entry none es = es
  add_entry (some e) es = e ∷ es

  -- The entries of the texts; a text that is no entry is passed over.
  abbrev pub entries_of : List String → List DlqEntry
  entries_of [] = []
  entries_of (x ∷ xs) = add_entry (redis.unmarshal x) (entries_of xs)

  -- `List`: the entries and the length of the queue.
  unfoldable pub list : ℤ → ℤ → DlqService → DlqService × Option (List DlqEntry × ℤ)
  list offset limit s =
      if not s.connected
      then (s, none)
      else if redis.down s.commands
      then (record s { commands = s.commands + 1 }, none)
      else if redis.down (s.commands + 1)
      then (record s { commands = s.commands + 2 }, none)
      else (
        record s { commands = s.commands + 2 },
        some (
          entries_of (redis.lrange offset (sub64 (add64 offset limit) (pos 1)) s.queue),
          redis.llen s.queue,
        ),
      )

  -- `Purge`
  unfoldable pub purge : DlqService → DlqService × Outcome
  purge s =
      if not s.connected
      then (s, failed redis_unavailable)
      else (command (λ l. []) s, if redis.down s.commands then failed redis_failed else done)

  module _ (outside : Outside) where
    -- The last two commands of `Retry`; their errors are not looked at.
    abbrev bury : ℤ → DlqService → DlqService
    bury index s = command (redis.lrem (pos 1) tombstone) (command (redis.lset index tombstone) s)

    abbrev retried :
        (DlqService → DlqService)
        → ℤ
        → DlqService
        → Result (Unit {0}) × World
        → DlqService × Outcome
    retried others index s (err e, w) = (record s { world = w }, failed (retry_failed e))
    retried others index s (ok _, w) = (bury index (others (record s { world = w })), done)

    abbrev retry_entry :
        (DlqService → DlqService) → ℤ → DlqService → Option DlqEntry → DlqService × Outcome
    retry_entry others index s none = (s, failed bad_json)
    retry_entry others index s (some e) =
        retried others index s (ingest_webhook_retry outside e.psp e.event_type e.payload s.world)

    abbrev retry_text :
        (DlqService → DlqService) → ℤ → DlqService → Option String → DlqService × Outcome
    retry_text others index s none = (s, failed redis_failed)
    retry_text others index s (some raw) = retry_entry others index s (redis.unmarshal raw)

    -- `Retry`; `others` is what other requests do to the queue while the webhook is processed.
    unfoldable pub retry : (DlqService → DlqService) → ℤ → DlqService → DlqService × Outcome
    retry others index s =
        let s' = record s { commands = s.commands + 1 } in
        if not s.connected
        then (s, failed redis_unavailable)
        else if redis.down s.commands
        then (s', failed redis_failed)
        else retry_text others index s' (redis.lindex index s.queue)
