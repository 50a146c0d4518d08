-- ===== src/Store/Action.antt =====
-- Service methods: state, errors, and database transactions.
use resilient_settlement_orc.Base.{
  ◌≡◌, ◌⊎◌, refl, arith, inl, inr, Bool-cases, ℕ, ◌+◌, String, Bool, false, Option, none, some,
  List, ◌∷◌, if◌then◌else◌,
}
use resilient_settlement_orc.Base.Dict.{Dict}
use resilient_settlement_orc.Base.Int.{ℤ}
use resilient_settlement_orc.Payment.Status.{PaymentStatus, TransitionError}
use resilient_settlement_orc.Store.Tables.{Tables}
use resilient_settlement_orc.Retry
use resilient_settlement_orc.Router.{PaymentRouter}

-- The errors of internal/service, without their texts. `database` is any error that the database
-- driver returns.
pub data Error : Type 0 where
  payment_not_found not_authorized over_refund optimistic_lock database unavailable unknown_psp :
      Error
  few_entries negative_entry both_sides unbalanced no_internal_id bad_refund bad_payload : Error
  stale_webhook reconciliation_not_found redis_unavailable : Error
  account_not_found : String → Error
  not_refundable : PaymentStatus → Error
  transition : TransitionError → Error
  psp_error : Retry.GoError → Error
  psp_retries : Retry.Result → Error

-- internal/adapter/psp.go: the interface of a payment provider. A provider may answer each call
-- differently, so its methods also take the number of the call. Only what the callers read of the
-- responses is kept.
pub data Reply (A : Type 0) : Type 0 where
  answer : A → Reply A
  failure : Retry.GoError → Reply A

pub record PspPaymentRequest : Type 0 where
  pub amount : ℤ
  pub currency : String
  pub description : String
  pub order_id : String
  pub customer_email : String
  pub metadata : Dict String

pub record PspStatusResponse : Type 0 where
  pub status : String
  pub amount : ℤ

pub record PspAdapter : Type 0 where
  pub create_payment : ℕ → PspPaymentRequest → Reply String
  pub capture_payment : ℕ → String → ℤ → String → Option Retry.GoError
  pub refund_payment : ℕ → String → ℤ → Option Retry.GoError
  pub cancel_payment : ℕ → String → Option Retry.GoError
  pub get_payment_status : ℕ → String → Reply PspStatusResponse
  pub verify_webhook_signature : String → String → Option Retry.GoError

-- What the n-th call to the outside meets: whether the database fails, the identifier that
-- `uuid.NewString` makes, the time, whether the context is done, and the order in which Go walks
-- the map of adapters. `is_uuid` says which texts PostgreSQL reads as a UUID.
pub record Env : Type 0 where
  pub db_fails : ℕ → Bool
  pub uuid : ℕ → String
  pub clock : ℕ → ℤ
  pub ctx_done : ℕ → Option Retry.GoError
  pub visit_order : ℕ → List String
  pub is_uuid : String → Bool

-- A call that has been made of a provider.
pub data PspCall : Type 0 where
  create_call : String → ℤ → PspCall
  capture_call : String → String → ℤ → PspCall
  refund_call : String → String → ℤ → PspCall
  cancel_call : String → String → PspCall

-- `PublishPaymentEvent`: payment, old status, new status, trigger.
pub record PaymentEvent : Type 0 where
  pub payment_id : String
  pub from_status : PaymentStatus
  pub to_status : PaymentStatus
  pub triggered_by : String

-- `tick` numbers the calls to the outside. `pubsub` is false if the Pub/Sub client is nil.
pub record World : Type 0 where
  pub env : Env
  pub tick : ℕ
  pub tables : Tables
  pub router : PaymentRouter PspAdapter
  pub pubsub : Bool
  pub psp_calls : List PspCall
  pub published : List PaymentEvent

pub data Result (A : Type 0) : Type 0 where
  ok : A → Result A
  err : Error → Result A

abbrev pub Action : Type 0 → Type 0
Action A = World → Result A × World

module _ {A : Type 0} where
  abbrev pub pure : A → Action A
  pure a w = (ok a, w)

  abbrev pub raise : Error → Action A
  raise e w = (err e, w)

  abbrev pub gets : (World → A) → Action A
  gets f w = (ok (f w), w)

  abbrev pub or_raise : Option A → Error → Action A
  or_raise none e w = (err e, w)
  or_raise (some a) e w = (ok a, w)

abbrev pub continue : {A B : Type 0} → Result A × World → (A → Action B) → Result B × World
continue (ok a, w) f = f a w
continue (err e, w) f = (err e, w)

infixl 5 ◌>>=◌ ◌>>◌
abbrev pub ◌>>=◌ : {A B : Type 0} → Action A → (A → Action B) → Action B
◌>>=◌ m f w = continue (m w) f

abbrev pub ◌>>◌ : {A B : Type 0} → Action A → Action B → Action B
m >> k = m >>= λ _. k

abbrev pub raise_if : Bool → Error → Action (Unit {0})
raise_if c e w = (if c then err e else ok tt, w)

abbrev pub raise_some : Option Error → Action (Unit {0})
raise_some none w = (ok tt, w)
raise_some (some e) w = (err e, w)

abbrev pub now : Action ℤ
now w = (ok (w.env.clock w.tick), w)

abbrev pub new_id : Action String
new_id w = (ok (w.env.uuid w.tick), record w { tick = w.tick + 1 })

-- A statement that reads.
abbrev pub query : {A : Type 0} → (Tables → A) → Action A
query f w = (
  if w.env.db_fails w.tick then err database else ok (f w.tables),
  record w { tick = w.tick + 1 },
)

-- A statement that writes; it gives `none` where a constraint of the tables refuses it.
abbrev pub exec : (Tables → Option Tables) → Action (Unit {0})
exec f w =
    let w' = record w { tick = w.tick + 1 } in
    if w.env.db_fails w.tick then (err database, w') else elim (f w.tables) [
      | none ↦ (err database, w')
      | some t ↦ (ok tt, record w' { tables = t })
    ]

-- How the body of a transaction leaves it without an error.
pub data End (A : Type 0) : Type 0 where
  commit : A → End A
  rollback : A → End A

abbrev finish : {A : Type 0} → Tables → Result (End A) × World → Result A × World
finish before (err e, w) = (err e, record w { tables = before })
finish before (ok (rollback a), w) = (ok a, record w { tables = before })
finish before (ok (commit a), w) =
    if w.env.db_fails w.tick
    then (err database, record w { tables = before; tick = w.tick + 1 })
    else (ok a, record w { tick = w.tick + 1 })

-- `Begin`, the body, then `Commit`; on every other way out the deferred `Rollback`.
abbrev pub transaction : {A : Type 0} → Action (End A) → Action A
transaction body w =
    if w.env.db_fails w.tick
    then (err database, record w { tick = w.tick + 1 })
    else finish w.tables (body (record w { tick = w.tick + 1 }))

abbrev pub publish : PaymentEvent → Action (Unit {0})
publish e w = (ok tt, if w.pubsub then record w { published = e ∷ w.published } else w)

-- Report any error of an action as `e`.
abbrev as_error : {A : Type 0} → Error → Result A × World → Result A × World
as_error e (ok a, w) = (ok a, w)
as_error e (err _, w) = (err e, w)

abbrev pub fail_as : {A : Type 0} → Error → Action A → Action A
fail_as e m w = as_error e (m w)

abbrev psp_result : Option Retry.GoError → Result (Unit {0})
psp_result none = ok tt
psp_result (some e) = err (psp_error e)

-- A call of a provider's method that returns nothing that is read but its error.
abbrev pub call_psp : PspCall → (ℕ → Option Retry.GoError) → Action (Unit {0})
call_psp c f w =
    (psp_result (f w.tick), record w { tick = w.tick + 1; psp_calls = c ∷ w.psp_calls })

finish-atomic :
    {A : Type 0} (before : Tables) (r : Result (End A) × World) (e : Error)
    → (finish before r).0 ≡ err e
    → (finish before r).1.tables ≡ before
finish-atomic before (err x, w) e h = refl
finish-atomic before (ok (rollback a), w) e h = refl
finish-atomic before (ok (commit a), w) e h = ground arith

-- A transaction that fails leaves the tables as they were.
pub transaction-atomic :
    {A : Type 0} (body : Action (End A)) (w : World) (e : Error)
    → (transaction body w).0 ≡ err e
    → (transaction body w).1.tables ≡ w.tables
transaction-atomic body w e h = elim (Bool-cases (w.env.db_fails w.tick)) [
  | inl down ↦ rw down
  | inr up ↦ rw up (finish-atomic w.tables (body (record w { tick = w.tick + 1 })) e (rw up at h))
]

-- The world in which the body of a transaction runs, and the two ways to leave it without error.
abbrev pub begun : World → World
begun w = record w { tick = w.tick + 1 }

abbrev pub Committed : {A : Type 0} → Tables → A → Result (End A) × World → World → Type 0
Committed before a (r, w') after =
    (r ≡ ok (commit a)) × (after ≡ record w' { tick = w'.tick + 1 })
    ⊎ (r ≡ ok (rollback a)) × (after ≡ record w' { tables = before })

commit-ok :
    {A : Type 0} (before : Tables) (a b : A) (w : World)
    → w.env.db_fails w.tick ≡ false
    → (finish before (ok (commit b), w)).0 ≡ ok a
    → (ok (commit b) ≡ ok (commit a))
      × ((finish before (ok (commit b), w)).1 ≡ record w { tick = w.tick + 1 })
commit-ok before a b w up h = rw up (cc (rw up at h), refl)

finish-ok :
    {A : Type 0} (before : Tables) (r : Result (End A) × World) (a : A)
    → (finish before r).0 ≡ ok a
    → Committed before a r (finish before r).1
finish-ok before (err x, w) a h = cc
finish-ok before (ok (rollback b), w) a h = inr (cc, refl)
finish-ok before (ok (commit b), w) a h = elim (Bool-cases (w.env.db_fails w.tick)) [
  | inl down ↦ cc (rw down at h)
  | inr up ↦ inl (commit-ok before a b w up h)
]

-- A transaction that succeeds has run its body, and has kept what that wrote if it ends in a
-- commit.
pub transaction-ok :
    {A : Type 0} (body : Action (End A)) (w : World) (a : A)
    → (transaction body w).0 ≡ ok a
    → Committed w.tables a (body (begun w)) (transaction body w).1
transaction-ok body w a h = elim (Bool-cases (w.env.db_fails w.tick)) [
  | inl down ↦ cc (rw down at h)
  | inr up ↦ rw up (finish-ok w.tables (body (begun w)) a (rw up at h))
]

-- A message to Pub/Sub is no write to the tables.
pub publish-tables : (e : PaymentEvent) (w : World) → (publish e w).1.tables ≡ w.tables
publish-tables e w = ground arith
