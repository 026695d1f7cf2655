-- ===== src/AdminAccounts/Managed.antt =====
-- What requests to the accounts' routes keep: addon/src/captive_portal/api/routes/admin_accounts.py
use homeassistant_captive_po.Base.{
  ◌<◌, ◌≡◌, inl, inr, Text, Bool, true, false, not, ◌==◌, some, List, [], ◌∷◌, length, refl, sym,
  subst, ◌∙◌, arith, update_where, find_where, count_where, select_where, Bool-cases, Option-cases,
  find_where-select_where, find_where-true,
}
use homeassistant_captive_po.AdminAccounts.{
  AdminId, AdminUser, AdminAccountCreate, AdminAccountUpdate, AccountRequest, Operation,
  list_accounts, create_account, update_account, delete_account, with_id, with_username, with_email,
  with_new_password, with_new_email, has_email_of_other, delete_admin_account, create_admin_account,
  update_admin_account, operate, handle, handle_all,
}
use homeassistant_captive_po.AdminAccounts.Unique.{
  IsUnique, delete_admin_account-IsUnique, create_admin_account-IsUnique,
  update_admin_account-IsUnique,
}

-- The keys are unique and there is an account.
abbrev pub IsManaged : List AdminUser → Type 0
IsManaged db = IsUnique db × (0 < length db)

module _ {ℓ} {A : Type ℓ} where
  length-update_where :
      (q : A → Bool) (f : A → A) (xs : List A) → length (update_where q f xs) ≡ length xs
  length-update_where q f [] = refl
  length-update_where q f (x ∷ xs) = omega (arith, length-update_where q f xs)

  length-find_where :
      (p : A → Bool) (xs : List A) (x : A) → find_where p xs ≡ some x → 0 < length xs
  length-find_where p [] x h = cc
  length-find_where p (y ∷ xs) x h = omega arith

-- The account of the request is still there after a deletion.
delete_admin_account-length :
    (a : AdminUser) (i : AdminId) (db : List AdminUser)
    → find_where (with_id a.id) db ≡ some a
    → IsUnique db
    → 0 < length (delete_admin_account a i db).1
unfolding delete_admin_account
delete_admin_account-length a i db e h = elim (Bool-cases (a.id == i)) [
  | inl q ↦ rw (q, delete_admin_account) (length-find_where (with_id a.id) db a e)
  | inr q ↦ elim (Option-cases (find_where (with_id i) db)) [
    | inl n ↦ rw (q, n, delete_admin_account) (length-find_where (with_id a.id) db a e)
    | inr (x, n) ↦
        let others : AdminUser → Bool = λ b. not (with_id i b) in
        let kept : find_where (with_id a.id) (select_where others db) ≡ some a =
          find_where-select_where (with_id a.id) others db (h.0 a.id) ∙ rw (e, q) refl in
        rw (q, n, delete_admin_account)
          (length-find_where (with_id a.id) (select_where others db) a kept)
  ]
]

module _ (hash_password : Text → Text) where
  create_admin_account-length :
      (id : AdminId) (account : AdminAccountCreate) (db : List AdminUser)
      → 0 < length db
      → 0 < length (create_admin_account hash_password id account db).1
  unfolding create_admin_account
  create_admin_account-length id account [] h = absurd (omega (arith, h))
  create_admin_account-length id account (x ∷ db) h =
      elim (Option-cases (find_where (with_username account.username) (x ∷ db))) [
        | inr (y, e) ↦ rw (e, create_admin_account) h
        | inl e ↦ elim (Option-cases (find_where (with_email account.email) (x ∷ db))) [
          | inr (y, f) ↦ rw (e, f, create_admin_account) h
          | inl f ↦ rw (e, f, create_admin_account) (omega arith)
        ]
      ]

  update_admin_account-length :
      (i : AdminId) (updates : AdminAccountUpdate) (db : List AdminUser)
      → length (update_admin_account hash_password i updates db).1 ≡ length db
  unfolding update_admin_account
  update_admin_account-length i updates db = elim (Option-cases (find_where (with_id i) db)) [
    | inl e ↦ rw (e, update_admin_account) refl
    | inr (x, e) ↦ elim (Option-cases updates.email) [
      | inl n ↦
          rw (e, n, update_admin_account)
            (length-update_where (with_id i) (with_new_password hash_password updates.password) db)
      | inr (s, n) ↦ elim (Option-cases (find_where (has_email_of_other s i) db)) [
        | inr (y, f) ↦ rw (e, n, f, update_admin_account) refl
        | inl f ↦
            rw (e, n, f, update_admin_account)
              (length-update_where (with_id i)
                (λ a. with_new_password hash_password updates.password (with_new_email s a)) db)
      ]
    ]
  ]

  operate-IsManaged :
      (id : AdminId) (csrf_valid : Bool) (a : AdminUser) (o : Operation) (db : List AdminUser)
      → count_where (with_id id) db ≡ 0
      → find_where (with_id a.id) db ≡ some a
      → IsManaged db
      → IsManaged (operate hash_password id csrf_valid a o db).1
  unfolding operate
  operate-IsManaged id c a list_accounts db fresh e h = h
  operate-IsManaged id false a (create_account account) db fresh e h = h
  operate-IsManaged id true a (create_account account) db fresh e h = (
    create_admin_account-IsUnique hash_password id account db fresh h.0,
    create_admin_account-length id account db h.1,
  )
  operate-IsManaged id false a (update_account i updates) db fresh e h = h
  operate-IsManaged id true a (update_account i updates) db fresh e h = (
    update_admin_account-IsUnique hash_password i updates db h.0,
    subst (λ n. 0 < n) (sym (update_admin_account-length i updates db)) h.1,
  )
  operate-IsManaged id false a (delete_account i) db fresh e h = h
  operate-IsManaged id true a (delete_account i) db fresh e h =
      (delete_admin_account-IsUnique a i db h.0, delete_admin_account-length a i db e h.0)

  handle-IsManaged :
      (id : AdminId) (request : AccountRequest) (db : List AdminUser)
      → count_where (with_id id) db ≡ 0
      → IsManaged db
      → IsManaged (handle hash_password id request db).1
  unfolding handle
  handle-IsManaged id request db fresh h = elim (Option-cases request.admin_id) [
    | inl n ↦ rw (n, handle) h
    | inr (i, n) ↦ elim (Option-cases (find_where (with_id i) db)) [
      | inl e ↦ rw (n, e, handle) h
      | inr (a, e) ↦
          let same : a.id ≡ i = ground (arith, find_where-true (with_id i) db a e) in
          let there = subst (λ j. find_where (with_id j) db ≡ some a) (sym same) e in
          rw (n, e, handle)
            (operate-IsManaged id request.csrf_valid a request.operation db fresh there h)
    ]
  ]

  -- However many requests are handled, one after the other and each answered or refused, the ids,
  -- the usernames and the email addresses of the administrators' accounts stay unique and at least
  -- one account is left, if this is so at first and a new account's id is fresh.
  pub handle_all-IsManaged :
      (new_id : List AdminUser → AdminId)
      → ((db : List AdminUser) → count_where (with_id (new_id db)) db ≡ 0)
      → (requests : List AccountRequest) (db : List AdminUser) → IsManaged db
      → IsManaged (handle_all hash_password new_id requests db)
  unfolding handle_all
  handle_all-IsManaged new_id fresh [] db h = h
  handle_all-IsManaged new_id fresh (request ∷ requests) db h =
      handle_all-IsManaged new_id fresh requests (handle hash_password (new_id db) request db).1
        (handle-IsManaged (new_id db) request db (fresh db) h)
