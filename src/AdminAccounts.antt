-- ===== src/AdminAccounts.antt =====
-- The routes of the administrators' accounts: addon/src/captive_portal/api/routes/admin_accounts.py,
-- with the rows of models/admin_user.py.
--
-- A request is one step: its checks and its commit are not interleaved with another's. Whether
-- `csrf.validate_token` returns is the request's `csrf_valid`; `hash_password` and the new row's id
-- are parameters. Pydantic's check of an email address, the columns that these routes leave
-- alone (created_utc, last_login_utc, active, version) and the column's refusal of an unknown role
-- are not modelled.
pub mod Unique
pub mod Managed
use homeassistant_captive_po.Base.{
  ℕ, Text, text_eq, Bool, not, ◌&&◌, ◌==◌, Option, none, some, List, [], ◌∷◌, ◌++◌, map, Result, ok,
  err, find_where, select_where, update_where, if◌then◌else◌,
}

abbrev pub AdminId : Type 0
AdminId = ℕ

pub record AdminUser : Type 0 where
  pub id : AdminId
  pub username : Text
  pub email : Text
  pub role : Text
  pub password_hash : Text

pub record AdminAccountCreate : Type 0 where
  pub username : Text
  pub password : Text
  pub email : Text
  pub role : Text

pub record AdminAccountUpdate : Type 0 where
  pub email : Option Text
  pub password : Option Text

pub record AdminAccountResponse : Type 0 where
  pub id : AdminId
  pub username : Text
  pub email : Text
  pub role : Text

abbrev pub response_of : AdminUser → AdminAccountResponse
response_of a = record { id = a.id; username = a.username; email = a.email; role = a.role }

-- The HTTPExceptions: 401 twice, 403 of the CSRF check, 403, 404, 409 twice.
pub data AccountError : Type 0 where
  authentication_required invalid_session csrf_refused own_account : AccountError
  account_not_found username_exists email_exists : AccountError

abbrev pub with_id : AdminId → AdminUser → Bool
with_id i a = a.id == i

abbrev pub with_username : Text → AdminUser → Bool
with_username s a = text_eq a.username s

abbrev pub with_email : Text → AdminUser → Bool
with_email s a = text_eq a.email s

abbrev pub get_current_admin : Option AdminId → List AdminUser → Result AccountError AdminUser
get_current_admin none db = err authentication_required
get_current_admin (some i) db = elim (find_where (with_id i) db) [
  | none ↦ err invalid_session
  | some a ↦ ok a
]

-- What a route answers; a deletion answers with no content.
pub data AccountAnswer : Type 0 where
  listed : List AdminAccountResponse → AccountAnswer
  saved : AdminAccountResponse → AccountAnswer
  deleted : AccountAnswer

abbrev pub list_admin_accounts : List AdminUser → List AdminAccountResponse
list_admin_accounts db = map response_of db

unfoldable pub delete_admin_account :
    AdminUser → AdminId → List AdminUser → Result AccountError AccountAnswer × List AdminUser
delete_admin_account current_admin admin_id db =
    if current_admin.id == admin_id
    then (err own_account, db)
    else elim (find_where (with_id admin_id) db) [
      | none ↦ (err account_not_found, db)
      | some _ ↦ (ok deleted, select_where (λ a. not (with_id admin_id a)) db)
    ]

pub data Operation : Type 0 where
  list_accounts : Operation
  create_account : AdminAccountCreate → Operation
  update_account : AdminId → AdminAccountUpdate → Operation
  delete_account : AdminId → Operation

-- A request: `request.state.admin_id`, and whether its CSRF token is accepted.
pub record AccountRequest : Type 0 where
  pub admin_id : Option AdminId
  pub csrf_valid : Bool
  pub operation : Operation

abbrev pub with_new_email : Text → AdminUser → AdminUser
with_new_email s a = record a { email = s }

-- Whether another account has the address.
abbrev pub has_email_of_other : Text → AdminId → AdminUser → Bool
has_email_of_other s admin_id a = with_email s a && not (with_id admin_id a)

module _ (hash_password : Text → Text) where
  abbrev pub new_admin : AdminId → AdminAccountCreate → AdminUser
  new_admin id account = record {
    id = id;
    username = account.username;
    email = account.email;
    role = account.role;
    password_hash = hash_password account.password;
  }

  unfoldable pub create_admin_account :
      AdminId
      → AdminAccountCreate
      → List AdminUser
      → Result AccountError AccountAnswer × List AdminUser
  create_admin_account id account db = elim (find_where (with_username account.username) db) [
    | some _ ↦ (err username_exists, db)
    | none ↦ elim (find_where (with_email account.email) db) [
      | some _ ↦ (err email_exists, db)
      | none ↦ (ok (saved (response_of (new_admin id account))), db ++ (new_admin id account ∷ []))
    ]
  ]

  abbrev pub with_new_password : Option Text → AdminUser → AdminUser
  with_new_password none a = a
  with_new_password (some s) a = record a { password_hash = hash_password s }

  unfoldable pub update_admin_account :
      AdminId
      → AdminAccountUpdate
      → List AdminUser
      → Result AccountError AccountAnswer × List AdminUser
  update_admin_account admin_id updates db = elim (find_where (with_id admin_id) db) [
    | none ↦ (err account_not_found, db)
    | some admin ↦ elim updates.email [
      | none ↦ (
        ok (saved (response_of (with_new_password updates.password admin))),
        update_where (with_id admin_id) (with_new_password updates.password) db,
      )
      | some s ↦ elim (find_where (has_email_of_other s admin_id) db) [
        | some _ ↦ (err email_exists, db)
        | none ↦ (
          ok (saved (response_of (with_new_password updates.password (with_new_email s admin)))),
          update_where (with_id admin_id)
              (λ a. with_new_password updates.password (with_new_email s a)) db,
        )
      ]
    ]
  ]

  -- The body of a route, behind its dependency `get_current_admin`; the list needs no CSRF token.
  unfoldable pub operate :
      AdminId
      → Bool
      → AdminUser
      → Operation
      → List AdminUser
      → Result AccountError AccountAnswer × List AdminUser
  operate id csrf_valid current_admin list_accounts db = (ok (listed (list_admin_accounts db)), db)
  operate id csrf_valid current_admin (create_account account) db =
      if csrf_valid then create_admin_account id account db else (err csrf_refused, db)
  operate id csrf_valid current_admin (update_account admin_id updates) db =
      if csrf_valid then update_admin_account admin_id updates db else (err csrf_refused, db)
  operate id csrf_valid current_admin (delete_account admin_id) db =
      if csrf_valid then delete_admin_account current_admin admin_id db else (err csrf_refused, db)

  unfoldable pub handle :
      AdminId → AccountRequest → List AdminUser → Result AccountError AccountAnswer × List AdminUser
  handle id request db = elim (get_current_admin request.admin_id db) [
    | err e ↦ (err e, db)
    | ok a ↦ operate id request.csrf_valid a request.operation db
  ]

  -- The table after requests, one after the other.
  unfoldable pub handle_all :
      (List AdminUser → AdminId) → List AccountRequest → List AdminUser → List AdminUser
  handle_all new_id [] db = db
  handle_all new_id (request ∷ requests) db =
      handle_all new_id requests (handle (new_id db) request db).1
