-- ===== src/Tests.antt =====
-- Tests: the theorems applied to concrete rows.
pub mod Accounts
pub mod Vouchers
pub mod Grants
pub mod Guards
pub mod Passes
pub mod Stays
pub mod Requests
pub mod Portals
pub mod Tokens
pub mod Polls
