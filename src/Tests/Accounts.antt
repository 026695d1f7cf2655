-- ===== src/Tests/Accounts.antt =====
-- Runs of the accounts' routes: addon/src/captive_portal/api/routes/admin_accounts.py
use homeassistant_captive_po.Base.{
  ◌+◌, ◌<◌, ◌≡◌, codes, Text, text_eq, true, some, none, List, [], ◌∷◌, refl, arith, count_where,
}
use homeassistant_captive_po.AdminAccounts.{
  AdminId, AdminUser, AccountRequest, create_account, update_account, delete_account, with_id,
  handle_all, handle, operate, create_admin_account, update_admin_account, delete_admin_account,
}
use homeassistant_captive_po.AdminAccounts.Managed.{IsManaged, handle_all-IsManaged}

abbrev hash_password : Text → Text
hash_password s = 36 ∷ s

-- An id that no account has.
abbrev fresh_id : List AdminUser → AdminId
fresh_id [] = 1
fresh_id (a ∷ db) = a.id + fresh_id db

above-fresh :
    (i : AdminId) (db : List AdminUser) → fresh_id db < i + 1 → count_where (with_id i) db ≡ 0
above-fresh i [] h = refl
above-fresh i (a ∷ db) h = ground (arith, above-fresh i db, positive db)
  where
    positive : (l : List AdminUser) → 0 < fresh_id l
    positive [] = omega arith
    positive (x ∷ l) = omega (arith, positive l)

abbrev first : AdminUser
first = record {
  id = 1;
  username = codes "root";
  email = codes "root@home";
  role = codes "admin";
  password_hash = [];
}

abbrev second : AdminUser
second = record {
  id = 2;
  username = codes "guest";
  email = codes "b@home";
  role = codes "viewer";
  password_hash = codes "$pw";
}

-- A second account is added, which changes its address and then deletes the first.
abbrev requests : List AccountRequest
requests =
    record {
      admin_id = some 1;
      csrf_valid = true;
      operation = create_account (record {
        username = codes "guest";
        password = codes "pw";
        email = codes "a@home";
        role = codes "viewer";
      });
    }
    ∷ record {
      admin_id = some 2;
      csrf_valid = true;
      operation = update_account 2 (record { email = some (codes "b@home"); password = none });
    }
    ∷ record { admin_id = some 2; csrf_valid = true; operation = delete_account 1 }
    ∷ record { admin_id = some 2; csrf_valid = true; operation = delete_account 2 }
    ∷ []

first-IsManaged : IsManaged (first ∷ [])
first-IsManaged = ((λ i. ground arith, λ s. ground arith, λ s. ground arith), omega arith)

run : handle_all hash_password fresh_id requests (first ∷ []) ≡ second ∷ []
unfolding handle_all handle operate create_admin_account update_admin_account delete_admin_account
    text_eq
run = refl

handle_all-IsManaged_example : IsManaged (handle_all hash_password fresh_id requests (first ∷ []))
handle_all-IsManaged_example =
    handle_all-IsManaged hash_password fresh_id (λ db. above-fresh (fresh_id db) db (omega arith))
      requests (first ∷ []) first-IsManaged
