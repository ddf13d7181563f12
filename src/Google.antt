-- ===== src/Google.antt =====
-- services/google: the accounts and groups in Google that mirror the users and people groups of one
-- organization, and the record of the calls that failed.
pub mod Ledger
pub mod Sync
mod Tests
