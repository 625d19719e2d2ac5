-- ===== src/Tests/Accounts.antt =====
-- The theorems about local accounts at a small lab.
use home_lab_pxe.Prelude.{◌≡◌, refl, codes, none, some, [], ◌∷◌, ok}
use home_lab_pxe.Models.{AccountKind, LocalAccount}
use home_lab_pxe.Lab.{Lab}
use home_lab_pxe.Accounts.{
  lab_default, local_account_row, upsert_local_account, resolve_local_account, decrypted,
}
use home_lab_pxe.Accounts.Roundtrip.{
  HasKey, upsert-resolve, upsert_default-resolve, upsert-kept_password,
}
use home_lab_pxe.Tests.Data.{environment, ready_lab}

environment-HasKey : HasKey environment
environment-HasKey = record { decrypts = λ text. refl }

upsert-resolve_example :
    resolve_local_account environment 1 AccountKind.linux_root
      (upsert_local_account environment 1 AccountKind.linux_root
        (codes "root")
        (some (codes "pw"))
        ready_lab).1
    ≡ ok (some (codes "root", codes "pw"))
upsert-resolve_example =
    upsert-resolve environment environment-HasKey 1 AccountKind.linux_root (codes "root") b'p'
      (codes "w") ready_lab

upsert_default-resolve_example :
    resolve_local_account environment 1 AccountKind.linux_root
      (upsert_local_account environment lab_default AccountKind.linux_root
        (codes "root")
        (some (codes "pw"))
        ready_lab).1
    ≡ ok (some (codes "root", codes "pw"))
unfolding local_account_row
upsert_default-resolve_example =
    upsert_default-resolve environment environment-HasKey AccountKind.linux_root (codes "root") b'p'
      (codes "w") ready_lab 1 refl refl

-- The stored account of machine 1.
abbrev stored : LocalAccount
stored = record {
  id = 1;
  machine_id = 1;
  kind = AccountKind.linux_root;
  encrypted_username = codes "#root";
  encrypted_password = codes "#pw";
}

abbrev account_lab : Lab
account_lab = record ready_lab { accounts = stored ∷ [] }

upsert-kept_password_example :
    resolve_local_account environment 1 AccountKind.linux_root
      (upsert_local_account environment 1 AccountKind.linux_root (codes "admin") none account_lab).1
    ≡ ok (some (codes "admin", codes "pw"))
unfolding local_account_row decrypted
upsert-kept_password_example =
    upsert-kept_password environment environment-HasKey 1 AccountKind.linux_root (codes "admin")
      none refl account_lab stored (codes "root") (codes "pw") refl refl
