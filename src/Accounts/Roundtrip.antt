-- ===== src/Accounts/Roundtrip.antt =====
-- A stored account is the one that the seeds are filled with.
use home_lab_pxe.Prelude.{
  ℕ, ◌≡◌, refl, ◌==◌, Text, Bool, true, false, Option, none, some, Option-cases, inl, inr, List, [],
  ◌∷◌, ◌++◌, first_where, first_where-append, arith, ok,
}
use home_lab_pxe.Models.{AccountKind, LocalAccount}
use home_lab_pxe.Lab.{Lab, Env, put_row}
use home_lab_pxe.Lab.Tables.{first_where-holds}
use home_lab_pxe.Accounts.{
  same_kind, is_account, local_account_row, new_account, is_given, changed_account,
  upsert_local_account, decrypted, resolve_local_account, lab_default,
}

abbrev pub account_key : LocalAccount → ℕ
account_key account = account.id

-- The key that the texts are encrypted with is the one that decrypts them.
pub record HasKey (env : Env) : Type 0 where
  pub decrypts : (text : Text) → env.decrypt (env.encrypt text) ≡ some text

-- A row that stays in the answer of a query, whichever row was found.
first_where-put_row :
    (p : LocalAccount → Bool) (old new : LocalAccount) (accounts : List LocalAccount)
    → old.id ≡ new.id
    → p new ≡ true
    → first_where p accounts ≡ some old
    → first_where p (put_row account_key new accounts) ≡ some new
unfolding put_row
first_where-put_row p old new [] same h found = cc
first_where-put_row p old new (a ∷ accounts) same h found =
    ground (arith, same, h, found, first_where-put_row p old new accounts same h)

-- A row that is not in the answer of a query.
first_where-put_row-absent :
    (p : LocalAccount → Bool) (new : LocalAccount) (accounts : List LocalAccount)
    → p new ≡ false
    → first_where p accounts ≡ none
    → first_where p (put_row account_key new accounts) ≡ none
unfolding put_row
first_where-put_row-absent p new [] h found = refl
first_where-put_row-absent p new (a ∷ accounts) h found =
    ground (arith, h, found, first_where-put_row-absent p new accounts h)

same_kind_self : (kind : AccountKind) → same_kind kind kind ≡ true
same_kind_self AccountKind.linux_root = refl
same_kind_self AccountKind.windows_administrator = refl

module _ (env : Env) (key : HasKey env) (machine_id : ℕ) (kind : AccountKind) (username : Text)
    (c : ℕ) (s : Text) (lab : Lab) where
  abbrev password : Text
  password = c ∷ s

  abbrev after : Lab
  after = (upsert_local_account env machine_id kind username (some password) lab).1

  abbrev query : LocalAccount → Bool
  query = is_account machine_id kind

  abbrev created : LocalAccount
  created = new_account env machine_id kind username password lab

  abbrev changed : LocalAccount → LocalAccount
  changed account = changed_account env username (some password) account

  created-row :
      first_where query lab.accounts ≡ none
      → first_where query (put_row account_key (changed created) (lab.accounts ++ created ∷ []))
        ≡ some (changed created)
  created-row free =
      let own : query created ≡ true = ground (arith, same_kind_self kind) in
      first_where-put_row query created (changed created) (lab.accounts ++ created ∷ []) refl own
        (ground (arith, first_where-append query lab.accounts (created ∷ []) free, own))

  changed-row :
      (account : LocalAccount)
      → first_where query lab.accounts ≡ some account
      → first_where query (put_row account_key (changed account) lab.accounts)
        ≡ some (changed account)
  changed-row account found =
      first_where-put_row query account (changed account) lab.accounts refl
        (first_where-holds query lab.accounts account found) found

  changed-decrypted :
      (account : LocalAccount) → decrypted env (changed account) ≡ some (username, password)
  unfolding decrypted
  changed-decrypted account = ground (arith, key.decrypts username, key.decrypts password)

  -- The row that the account has afterwards.
  upserted :
      (account : LocalAccount) × (local_account_row machine_id kind after ≡ some (changed account))
  unfolding upsert_local_account local_account_row
  upserted = elim (Option-cases (first_where query lab.accounts)) [
    | inl free ↦ (created, ground (arith, free, created-row free))
    | inr (account, found) ↦ (account, ground (arith, found, changed-row account found))
  ]

  -- Where the key decrypts what it encrypts, the account that is stored with a password is the one that
  -- is resolved for the machine, whether it had one before or not.
  pub upsert-resolve :
      resolve_local_account env machine_id kind after ≡ ok (some (username, password))
  unfolding resolve_local_account
  upsert-resolve = ground (arith, upserted.1, changed-decrypted upserted.0)

  -- Another machine that has no account of the kind has none afterwards.
  other-absent :
      (other : ℕ)
      → (machine_id == other) ≡ false
      → local_account_row other kind lab ≡ none
      → local_account_row other kind after ≡ none
  unfolding upsert_local_account local_account_row
  other-absent other ne absent = elim (Option-cases (first_where query lab.accounts)) [
    | inl free ↦ ground (
      arith,
      free,
      first_where-put_row-absent (is_account other kind) (changed created)
          (lab.accounts ++ created ∷ []) (ground (arith, ne))
          (ground (
            arith,
            first_where-append (is_account other kind) lab.accounts (created ∷ []) absent,
            ne,
          )),
    )
    | inr (account, found) ↦
        let held : is_account machine_id kind account ≡ true =
          first_where-holds query lab.accounts account found in
        ground (
          arith,
          found,
          first_where-put_row-absent (is_account other kind) (changed account) lab.accounts
              (ground (arith, ne, held)) absent,
        )
  ]

module _ (env : Env) (key : HasKey env) (kind : AccountKind) (username : Text) (c : ℕ) (s : Text)
    (lab : Lab) where
  -- Where the key decrypts what it encrypts, the account that is stored for the lab is the one that is
  -- resolved for every machine that has none of its own.
  pub upsert_default-resolve :
      (machine_id : ℕ)
      → (lab_default == machine_id) ≡ false
      → local_account_row machine_id kind lab ≡ none
      → resolve_local_account env machine_id kind
          (upsert_local_account env lab_default kind username (some (c ∷ s)) lab).1
        ≡ ok (some (username, c ∷ s))
  unfolding resolve_local_account
  upsert_default-resolve machine_id ne absent =
      let row = upserted env key lab_default kind username c s lab in
      ground (
        arith,
        other-absent env key lab_default kind username c s lab machine_id ne absent,
        row.1,
        changed-decrypted env key lab_default kind username c s lab row.0,
      )

module _ (env : Env) (key : HasKey env) (machine_id : ℕ) (kind : AccountKind) (username : Text)
    (password : Option Text) (given : is_given password ≡ false) (lab : Lab) where
  renamed :
      (account : LocalAccount)
      → changed_account env username password account
        ≡ record account { encrypted_username = env.encrypt username }
  renamed account =
      elim password
          as (λ q.
            is_given q ≡ false
            → changed_account env username q account
              ≡ record account { encrypted_username = env.encrypt username }) [
                | none ↦ λ h. refl
                | some [] ↦ λ h. refl
                | some (c ∷ s) ↦ λ h. cc
              ]
        given

  stored-decrypted :
      (account : LocalAccount) (old secret : Text)
      → decrypted env account ≡ some (old, secret)
      → decrypted env (record account { encrypted_username = env.encrypt username })
        ≡ some (username, secret)
  unfolding decrypted
  stored-decrypted account old secret h =
      elim (Option-cases (env.decrypt account.encrypted_username)) [
        | inl e ↦ absurd (ground (arith, h, e))
        | inr (name, e) ↦ elim (Option-cases (env.decrypt account.encrypted_password)) [
          | inl d ↦ absurd (ground (arith, h, e, d))
          | inr (word, d) ↦
              let same : word ≡ secret = ground (arith, h, e, d) in
              ground (arith, key.decrypts username, d, same)
        ]
      ]

  -- Where the key decrypts what it encrypts and both texts of the machine's stored account, storing the
  -- account again without a password changes the user name that is resolved, and keeps the password.
  pub upsert-kept_password :
      (account : LocalAccount) (old secret : Text)
      → local_account_row machine_id kind lab ≡ some account
      → decrypted env account ≡ some (old, secret)
      → resolve_local_account env machine_id kind
          (upsert_local_account env machine_id kind username password lab).1
        ≡ ok (some (username, secret))
  unfolding resolve_local_account upsert_local_account local_account_row
  upsert-kept_password account old secret found readable =
      let query = is_account machine_id kind in
      let new = record account { encrypted_username = env.encrypt username } in
      let put : first_where query (put_row account_key new lab.accounts) ≡ some new =
        first_where-put_row query account new lab.accounts refl
          (first_where-holds query lab.accounts account found) found in
      ground (arith, found, put, renamed account, stored-decrypted account old secret readable)
