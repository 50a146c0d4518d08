-- ===== src/Handlers.antt =====
-- internal/handler and internal/pkg/response: how the HTTP handlers answer. Of an answer the status
-- and the code or the data are kept; the text for humans, the headers and the log lines are left
-- out. The router's path parameters, the headers and the decoded body are arguments (`none` for a
-- body that is no JSON).
pub mod Payments
pub mod Dlq
pub mod Webhooks
pub mod Balances
pub mod Panels
pub mod Health
pub mod Reconciliation
use resilient_settlement_orc.Base.{ℕ, String}

-- `response.Error` and `response.JSON`
pub data HttpResponse (A : Type 0) : Type 0 where
  error : ℕ → String → HttpResponse A
  json : ℕ → A → HttpResponse A

abbrev pub status : {A : Type 0} → HttpResponse A → ℕ
status (error n code) = n
status (json n a) = n
