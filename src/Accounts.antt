-- ===== src/Accounts.antt =====
-- src/inventory/service.py: the local accounts of machines, which the seeds are filled with. The
-- user names and passwords are stored encrypted; the account of machine 0 is that of the lab.
pub mod Roundtrip
use home_lab_pxe.Prelude.{
  ℕ, ◌==◌, Text, Bool, true, false, ◌&&◌, Option, none, some, List, [], ◌∷◌, ◌++◌, first_where,
  is_nil, if◌then◌else◌, Outcome, ok, raised, Action,
}
use home_lab_pxe.Models.{AccountKind, LocalAccount}
use home_lab_pxe.Lab.{Lab, Env, put_row, next_key}

abbrev pub same_kind : AccountKind → AccountKind → Bool
same_kind AccountKind.linux_root AccountKind.linux_root = true
same_kind AccountKind.windows_administrator AccountKind.windows_administrator = true
same_kind _ _ = false

-- `LocalAccount.machine_id == machine_id, LocalAccount.kind == kind.value`
abbrev pub is_account : ℕ → AccountKind → LocalAccount → Bool
is_account machine_id kind account = account.machine_id == machine_id && same_kind account.kind kind

unfoldable pub local_account_row : ℕ → AccountKind → Lab → Option LocalAccount
local_account_row machine_id kind lab = first_where (is_account machine_id kind) lab.accounts

abbrev pub new_account : Env → ℕ → AccountKind → Text → Text → Lab → LocalAccount
new_account env machine_id kind username password lab = record {
  id = next_key (λ (a : LocalAccount). a.id) lab.accounts;
  machine_id = machine_id;
  kind = kind;
  encrypted_username = env.encrypt username;
  encrypted_password = env.encrypt password;
}

-- `if password:`, where no password is none or the empty text.
abbrev pub is_given : Option Text → Bool
is_given none = false
is_given (some []) = false
is_given (some (c ∷ s)) = true

abbrev pub with_password : Env → Option Text → LocalAccount → LocalAccount
with_password env none account = account
with_password env (some []) account = account
with_password env (some (c ∷ s)) account = record account {
  encrypted_password = env.encrypt (c ∷ s);
}

abbrev pub changed_account : Env → Text → Option Text → LocalAccount → LocalAccount
changed_account env username password account =
    with_password env password (record account { encrypted_username = env.encrypt username })

abbrev pub save_account : LocalAccount → Lab → Lab
save_account account lab = record lab {
  accounts = put_row (λ (a : LocalAccount). a.id) account lab.accounts;
}

abbrev pub change_account : Env → Text → Option Text → LocalAccount → Action Lab LocalAccount
change_account env username password account lab =
    let changed = changed_account env username password account in
    (ok changed, save_account changed lab)

-- The row is added first and changed then, as for a row that was there.
abbrev pub insert_account : Env → ℕ → AccountKind → Text → Option Text → Action Lab LocalAccount
insert_account env machine_id kind username (some (c ∷ s)) lab =
    let account = new_account env machine_id kind username (c ∷ s) lab in
    change_account env username (some (c ∷ s)) account
      (record lab { accounts = lab.accounts ++ account ∷ [] })
insert_account env machine_id kind username _ lab =
    (raised "Password is required when creating a local account", lab)

-- The rows that a session reads are those that it writes, so that no second row appears in between.
unfoldable pub upsert_local_account :
    Env → ℕ → AccountKind → Text → Option Text → Action Lab LocalAccount
unfolding local_account_row
upsert_local_account env machine_id kind username password lab =
    elim (local_account_row machine_id kind lab) [
      | none ↦ insert_account env machine_id kind username password lab
      | some account ↦ change_account env username password account lab
    ]

-- What the settings page shows of an account.
pub record AccountStatus : Type 0 where
  pub set : Bool
  pub username : Text
  pub unreadable : Bool

-- Both texts of a row, or none where the key does not fit one of them.
unfoldable pub decrypted : Env → LocalAccount → Option (Text × Text)
decrypted env account = elim (env.decrypt account.encrypted_username) [
  | none ↦ none
  | some username ↦ elim (env.decrypt account.encrypted_password) [
    | none ↦ none
    | some password ↦ some (username, password)
  ]
]

abbrev status_of : Option (Text × Text) → AccountStatus
status_of none = record { set = true; username = []; unreadable = true }
status_of (some account) = record { set = true; username = account.0; unreadable = false }

unfoldable pub local_account_status : Env → ℕ → AccountKind → Lab → AccountStatus
unfolding local_account_row decrypted
local_account_status env machine_id kind lab = elim (local_account_row machine_id kind lab) [
  | none ↦ record { set = false; username = []; unreadable = false }
  | some account ↦ status_of (decrypted env account)
]

abbrev pub resolved : Option (Text × Text) → Outcome (Option (Text × Text))
resolved none = raised "encryption key does not match stored accounts"
resolved (some account) = ok (some account)

-- LAB_DEFAULT_MACHINE_ID
abbrev pub lab_default : ℕ
lab_default = 0

abbrev pub account_or_default : Option LocalAccount → AccountKind → Lab → Option LocalAccount
account_or_default (some account) kind lab = some account
account_or_default none kind lab = local_account_row lab_default kind lab

unfoldable pub resolve_local_account : Env → ℕ → AccountKind → Lab → Outcome (Option (Text × Text))
unfolding local_account_row decrypted
resolve_local_account env machine_id kind lab =
    elim (account_or_default (local_account_row machine_id kind lab) kind lab) [
      | none ↦ ok none
      | some account ↦ resolved (decrypted env account)
    ]
