-- ===== src/AdminAccounts/Unique.antt =====
-- The keys of the accounts' table under each route: addon/src/captive_portal/api/routes/admin_accounts.py
use homeassistant_captive_po.Base.{
  ◌≤◌, ◌≡◌, inl, inr, Text, text_eq, text_eq_iff, Bool, true, false, not, ◌&&◌, ◌==◌, Option, none,
  some, List, [], ◌∷◌, ◌++◌, refl, subst, ap, ◌∙◌, arith, update_where, find_where, count_where,
  Bool-cases, Option-cases, count_where-append, count_where-update_where, count_where-none,
  count_where-select_where-le,
}
use homeassistant_captive_po.AdminAccounts.{
  AdminId, AdminUser, AdminAccountCreate, AdminAccountUpdate, with_id, with_username, with_email,
  with_new_password, with_new_email, has_email_of_other, delete_admin_account, create_admin_account,
  update_admin_account, new_admin,
}

-- No two accounts share an id, a username or an email address.
abbrev pub IsUnique : List AdminUser → Type 0
IsUnique db =
    ((i : AdminId) → count_where (with_id i) db ≤ 1)
    × ((s : Text) → count_where (with_username s) db ≤ 1)
    × ((s : Text) → count_where (with_email s) db ≤ 1)

module _ {ℓ} {A : Type ℓ} where
  -- A row is appended whose key no row has.
  count_where-append-one :
      (p : A → Bool) (xs : List A) (x : A)
      → count_where p xs ≤ 1
      → (p x ≡ true → count_where p xs ≡ 0)
      → count_where p (xs ++ (x ∷ [])) ≤ 1
  count_where-append-one p xs x h k =
      rw (count_where-append p xs (x ∷ [])) (elim (Bool-cases (p x)) [
        | inl q ↦ rw q (omega (arith, k q))
        | inr q ↦ rw q (omega (arith, h))
      ])

  -- The rows passing `p` after an update of those passing `q` are among these.
  count_where-update_where-le :
      (p q : A → Bool) (f : A → A) (xs : List A)
      → find_where (λ x. p x && not (q x)) xs ≡ none
      → count_where p (update_where q f xs) ≤ count_where q xs
  count_where-update_where-le p q f [] h = omega arith
  count_where-update_where-le p q f (x ∷ xs) h =
      ground (arith, count_where-update_where-le p q f xs)

  -- An update after which no updated row passes `p` adds no row that does.
  count_where-update_where-none :
      (p q : A → Bool) (f : A → A) (xs : List A)
      → ((x : A) → p (f x) ≡ false)
      → count_where p (update_where q f xs) ≤ count_where p xs
  count_where-update_where-none p q f [] k = omega arith
  count_where-update_where-none p q f (x ∷ xs) k =
      ground (arith, k x, count_where-update_where-none p q f xs k)

pub delete_admin_account-IsUnique :
    (a : AdminUser) (i : AdminId) (db : List AdminUser)
    → IsUnique db
    → IsUnique (delete_admin_account a i db).1
unfolding delete_admin_account
delete_admin_account-IsUnique a i db h = elim (Bool-cases (a.id == i)) [
  | inl q ↦ rw (q, delete_admin_account) h
  | inr q ↦ elim (Option-cases (find_where (with_id i) db)) [
    | inl e ↦ rw (q, e, delete_admin_account) h
    | inr (x, e) ↦
        let others : AdminUser → Bool = λ b. not (with_id i b) in
        rw (q, e, delete_admin_account)
          (
            λ j. omega (arith, h.0 j, count_where-select_where-le (with_id j) others db),
            λ s. omega (arith, h.1 s, count_where-select_where-le (with_username s) others db),
            λ s. omega (arith, h.2 s, count_where-select_where-le (with_email s) others db),
          )
  ]
]

module _ (hash_password : Text → Text) where
  pub create_admin_account-IsUnique :
      (id : AdminId) (account : AdminAccountCreate) (db : List AdminUser)
      → count_where (with_id id) db ≡ 0
      → IsUnique db
      → IsUnique (create_admin_account hash_password id account db).1
  unfolding create_admin_account
  create_admin_account-IsUnique id account db fresh h =
      elim (Option-cases (find_where (with_username account.username) db)) [
        | inr (x, e) ↦ rw (e, create_admin_account) h
        | inl e ↦ elim (Option-cases (find_where (with_email account.email) db)) [
          | inr (x, f) ↦ rw (e, f, create_admin_account) h
          | inl f ↦
              let a = new_admin hash_password id account in
              rw (e, f, create_admin_account)
                (
                  λ j.
                      count_where-append-one (with_id j) db a (h.0 j) (λ q.
                        subst (λ k. count_where (with_id k) db ≡ 0) (ground (arith, q)) fresh),
                  λ s. count_where-append-one (with_username s) db a (h.1 s) (λ q.
                      subst (λ t. count_where (with_username t) db ≡ 0)
                        ((text_eq_iff account.username s).0 q)
                        (count_where-none (with_username account.username) db e)),
                  λ s. count_where-append-one (with_email s) db a (h.2 s) (λ q.
                      subst (λ t. count_where (with_email t) db ≡ 0)
                        ((text_eq_iff account.email s).0 q)
                        (count_where-none (with_email account.email) db f)),
                )
        ]
      ]

  with_new_password_lem :
      (o : Option Text) (a : AdminUser)
      → ((with_new_password hash_password o a).id ≡ a.id)
        × ((with_new_password hash_password o a).username ≡ a.username)
        × ((with_new_password hash_password o a).email ≡ a.email)
  with_new_password_lem none a = (refl, refl, refl)
  with_new_password_lem (some s) a = (refl, refl, refl)

  -- An update that keeps the keys, the address changed to one that no other account has.
  changed-IsUnique :
      (i : AdminId) (s : Text) (o : Option Text) (db : List AdminUser)
      → find_where (has_email_of_other s i) db ≡ none
      → IsUnique db
      → IsUnique (
          update_where (with_id i) (λ a. with_new_password hash_password o (with_new_email s a)) db)
  changed-IsUnique i s o db e h =
      let change = λ (a : AdminUser). with_new_password hash_password o (with_new_email s a) in
      let kept = λ (a : AdminUser). with_new_password_lem o (with_new_email s a) in
      (
        λ j.
            rw
              (count_where-update_where (with_id j) (with_id i) change db
                (λ a q. ap (λ k. k == j) ((kept a).0)))
              (h.0 j),
        λ t.
            rw
              (count_where-update_where (with_username t) (with_id i) change db
                (λ a q. ap (λ u. text_eq u t) ((kept a).1)))
              (h.1 t),
        λ t. elim (Bool-cases (text_eq s t)) [
          | inl q ↦
              let same = (text_eq_iff s t).0 q in
              subst (λ u. count_where (with_email u) (update_where (with_id i) change db) ≤ 1) same
                (omega (
                  arith,
                  h.0 i,
                  count_where-update_where-le (with_email s) (with_id i) change db e,
                ))
          | inr q ↦ omega (
            arith,
            h.2 t,
            count_where-update_where-none (with_email t) (with_id i) change db
                (λ a. ap (λ u. text_eq u t) ((kept a).2) ∙ q),
          )
        ],
      )

  pub update_admin_account-IsUnique :
      (i : AdminId) (updates : AdminAccountUpdate) (db : List AdminUser)
      → IsUnique db
      → IsUnique (update_admin_account hash_password i updates db).1
  unfolding update_admin_account
  update_admin_account-IsUnique i updates db h = elim (Option-cases (find_where (with_id i) db)) [
    | inl e ↦ rw (e, update_admin_account) h
    | inr (x, e) ↦ elim (Option-cases updates.email) [
      | inl n ↦
          let o = updates.password in
          let change = with_new_password hash_password o in
          rw (e, n, update_admin_account)
            (
              λ j.
                  rw
                    (count_where-update_where (with_id j) (with_id i) change db
                      (λ a q. ap (λ k. k == j) ((with_new_password_lem o a).0)))
                    (h.0 j),
              λ t.
                  rw
                    (count_where-update_where (with_username t) (with_id i) change db
                      (λ a q. ap (λ u. text_eq u t) ((with_new_password_lem o a).1)))
                    (h.1 t),
              λ t.
                  rw
                    (count_where-update_where (with_email t) (with_id i) change db
                      (λ a q. ap (λ u. text_eq u t) ((with_new_password_lem o a).2)))
                    (h.2 t),
            )
      | inr (s, n) ↦ elim (Option-cases (find_where (has_email_of_other s i) db)) [
        | inr (y, f) ↦ rw (e, n, f, update_admin_account) h
        | inl f ↦ rw (e, n, f, update_admin_account) (changed-IsUnique i s updates.password db f h)
      ]
    ]
  ]
