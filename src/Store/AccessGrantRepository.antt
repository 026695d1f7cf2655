-- ===== src/Store/AccessGrantRepository.antt =====
-- addon/src/captive_portal/persistence/access_grant_repository.py
use homeassistant_captive_po.Base.{
  ℕ, Text, text_eq, Bool, ◌&&◌, ◌==◌, Option, none, List, [], ◌∷◌, ◌++◌, find_where, select_where,
  update_where, count_where,
}
use homeassistant_captive_po.Models.AccessGrant.{
  AccessGrant, GrantId, is_active, is_pending_or_active,
}
use homeassistant_captive_po.Store.Database.{Database, column_eq, column_in}

abbrev pub with_id : GrantId → AccessGrant → Bool
with_id i g = g.id == i

unfoldable pub get_by_id : GrantId → Database → Option AccessGrant
get_by_id i db = find_where (with_id i) db.grants

unfoldable pub find_active_by_mac : Text → Database → List AccessGrant
find_active_by_mac mac db = select_where (λ g. text_eq g.mac mac && is_active g.status) db.grants

unfoldable pub find_pending_or_active_by_mac : Text → Database → List AccessGrant
find_pending_or_active_by_mac mac db =
    select_where (λ g. text_eq g.mac mac && is_pending_or_active g.status) db.grants

-- `WHERE voucher_code == code AND status IN (PENDING, ACTIVE)`
abbrev pub is_active_for : Text → AccessGrant → Bool
is_active_for c g = column_eq g.voucher_code c && is_pending_or_active g.status

unfoldable pub count_active_by_voucher_code : Text → Database → ℕ
count_active_by_voucher_code c db = count_where (is_active_for c) db.grants

-- An INSERT. The primary key is a fresh `uuid4`.
unfoldable pub add : AccessGrant → Database → Database
add g db = record db { grants = db.grants ++ g ∷ [] }

-- The row of a grant whose attributes were set.
unfoldable pub save : AccessGrant → Database → Database
save g db = record db { grants = update_where (with_id g.id) (λ _. g) db.grants }

-- `UPDATE … SET voucher_code = NULL WHERE voucher_code IN codes`, and the rows that it changed.
unfoldable pub nullify_voucher_references : List Text → Database → ℕ × Database
nullify_voucher_references [] db = (0, db)
nullify_voucher_references (c ∷ cs) db = (
  count_where (λ g. column_in g.voucher_code (c ∷ cs)) db.grants,
  record db {
    grants =
        update_where (λ g. column_in g.voucher_code (c ∷ cs))
          (λ g. record g { voucher_code = none }) db.grants;
  },
)
