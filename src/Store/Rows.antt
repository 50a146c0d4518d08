-- ===== src/Store/Rows.antt =====
-- The rows of the tables: internal/models/payment.go, ledger.go and webhook.go, and the tables of
-- migrations/000001 to 000006. JSON documents that no code reads are left out.
use resilient_settlement_orc.Base.{ℕ, String, Option, Bool}
use resilient_settlement_orc.Base.Int.{ℤ}
use resilient_settlement_orc.Payment.Status.{PaymentStatus}

pub record Payment : Type 0 where
  pub id : String
  pub merchant_id : String
  pub order_id : String
  pub amount : ℤ
  pub currency : String
  pub status : PaymentStatus
  pub psp : String
  pub psp_payment_id : Option String
  pub customer_email : String
  pub customer_name : String
  pub customer_phone : String
  pub total_refunded : ℤ
  pub created_at : ℤ
  pub updated_at : ℤ

-- The texts that are stored as a transition's reason: a literal, the text of the PSP's error, or
-- "Refund of %d processed (total refunded: %d/%d)".
pub data Reason : Type 0 where
  text : String → Reason
  error_text : Reason
  refund_text : ℤ → ℤ → ℤ → Reason

-- `from_status` is the empty string, here `none`, in the first transition.
pub record StateTransition : Type 0 where
  pub id : String
  pub payment_id : String
  pub from_status : Option PaymentStatus
  pub to_status : PaymentStatus
  pub reason : Reason
  pub triggered_by : String
  pub created_at : ℤ

pub data AccountType : Type 0 where
  asset liability revenue expense : AccountType

pub data TransactionStatus : Type 0 where
  pending posted reversed : TransactionStatus

pub record LedgerAccount : Type 0 where
  pub id : String
  pub account_code : String
  pub account_name : String
  pub account_type : AccountType
  pub currency : String
  pub current_balance : ℤ

pub record LedgerTransaction : Type 0 where
  pub id : String
  pub payment_id : Option String
  pub transaction_type : String
  pub status : TransactionStatus
  pub created_at : ℤ
  pub posted_at : ℤ

pub record LedgerEntry : Type 0 where
  pub id : String
  pub transaction_id : String
  pub account_id : String
  pub debit : ℤ
  pub credit : ℤ
  pub running_balance : ℤ
  pub description : String
  pub reference_id : String
  pub created_at : ℤ

pub data WebhookStatus : Type 0 where
  received processing processed failed : WebhookStatus

pub record WebhookEvent : Type 0 where
  pub id : String
  pub psp : String
  pub event_type : String
  pub raw_payload : String
  pub signature : String
  pub psp_payment_id : String
  pub internal_payment_id : Option String
  pub status : WebhookStatus
  pub idempotency_key : String
  pub has_error : Bool
  pub processed_at : Option ℤ
  pub created_at : ℤ

-- internal/models/reconciliation.go
pub data ReconciliationStatus : Type 0 where
  in_progress completed failed : ReconciliationStatus

pub data DiscrepancyType : Type 0 where
  missing_in_psp missing_internal amount_mismatch status_mismatch : DiscrepancyType

pub data ResolutionStatus : Type 0 where
  open_case investigating resolved : ResolutionStatus

pub record ReconciliationRecord : Type 0 where
  pub id : String
  pub reconciliation_date : ℤ
  pub psp : String
  pub total_payments : ℕ
  pub total_amount : ℤ
  pub internal_record_count : ℕ
  pub matched_count : ℕ
  pub discrepancy_count : ℕ
  pub status : ReconciliationStatus
  pub created_at : ℤ
  pub completed_at : Option ℤ

pub record Discrepancy : Type 0 where
  pub id : String
  pub reconciliation_record_id : String
  pub payment_id : String
  pub discrepancy_type : DiscrepancyType
  pub internal_amount : ℤ
  pub psp_amount : Option ℤ
  pub internal_status : String
  pub psp_status : Option String
  pub resolution_status : ResolutionStatus
  pub created_at : ℤ
