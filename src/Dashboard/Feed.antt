-- ===== src/Dashboard/Feed.antt =====
-- The feed of internal/service/dashboard.go, whose statement PostgreSQL refuses.
use resilient_settlement_orc.Base.{String, ◌+◌, List}
use resilient_settlement_orc.Base.Int.{ℤ}
use resilient_settlement_orc.Store.Action.{err, Action, database}

-- `ActivityEvent`
pub record ActivityEvent : Type 0 where
  pub timestamp : ℤ
  pub event_type : String
  pub payment_id : String
  pub description : String
  pub actor : String

-- `GetActivityFeed`. In `COALESCE(internal_payment_id, \'\')` the column is a UUID, so that PostgreSQL
-- reads the empty text as one, and refuses the statement, whatever the tables hold.
unfoldable pub get_activity_feed : ℤ → Action (List ActivityEvent)
get_activity_feed limit w = (err database, record w { tick = w.tick + 1 })
