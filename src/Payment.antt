-- ===== src/Payment.antt =====
-- Payments: internal/models/payment.go, internal/service/statemachine.go.
pub mod Status
pub mod Lifecycle
