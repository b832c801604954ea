-- ===== src/Finance.antt =====
-- Invoices, payments and refunds (backend/apps/finance).
pub mod Ledger
pub mod Payments
pub mod Refunds
pub mod Billing
