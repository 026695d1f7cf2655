-- ===== src/Store/Database.antt =====
-- The tables of the SQLite database (addon/src/captive_portal/persistence/database.py).
use homeassistant_captive_po.Base.{Text, text_eq, Bool, false, Option, none, some, List, any_where}
use homeassistant_captive_po.Models.Voucher.{Voucher}
use homeassistant_captive_po.Models.AccessGrant.{AccessGrant}
use homeassistant_captive_po.Models.Audit.{AuditLog}
use homeassistant_captive_po.Models.Booking.{HaIntegrationConfig, RentalControlEvent}

pub record Database : Type 0 where
  pub vouchers : List Voucher
  pub grants : List AccessGrant
  pub audit_logs : List AuditLog
  pub integrations : List HaIntegrationConfig
  pub events : List RentalControlEvent

-- A nullable column compared with a value: NULL equals nothing.
abbrev pub column_eq : Option Text → Text → Bool
column_eq none c = false
column_eq (some d) c = text_eq d c

-- column IN (codes)
abbrev pub column_in : Option Text → List Text → Bool
column_in o cs = any_where (column_eq o) cs
