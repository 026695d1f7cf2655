-- ===== src/Models.antt =====
-- The persistent models: addon/src/captive_portal/models/.
pub mod Voucher
pub mod AccessGrant
pub mod Audit
pub mod Booking
