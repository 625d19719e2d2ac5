-- ===== src/Lab.antt =====
-- The state that the handlers share: the tables of src/models.py behind the session, the seed
-- files of src/seed_store.py and the extracted media of src/extract_worker.py.
-- A table is the list of its rows in key order; a query is a test of the rows, an object that the
-- session hands out is the row with its key, and `db.add` of a changed object puts the row back.
pub mod Tables
use Prim.Native.Nat.{max}
use home_lab_pxe.Prelude.{
  ℕ, suc, Text, Bool, true, false, not, Option, none, some, List, [], ◌∷◌, ◌++◌, ◌==◌, take,
  if◌then◌else◌, where_is, first_where, Action,
}
use home_lab_pxe.Models.{
  BootMenuFolder, BootMenuSettings, Iso, Image, Machine, LocalAccount, StagedJob, SeedPath,
  InstallAttempt, BootEvent, ActivityLog, OsFamily, SourceRow,
}

-- Where extracted media lies, and the name of a directory there: a number, `….tmp`, or another.
pub data ExtractBase : Type 0 where
  isos_extracts uploads_extracts smb nfs : ExtractBase

pub data DirName : Type 0 where
  revision : ℕ → DirName
  temporary : Text → DirName
  other_name : Text → DirName

pub record ExtractDir : Type 0 where
  pub base : ExtractBase
  pub owner : ℕ
  pub name : DirName

-- The two columns of the DhcpRuntime row that the inventory reads.
pub record Runtime : Type 0 where
  pub imaging_timeout_minutes : ℕ
  pub default_timezone : Text

pub record Lab : Type 0 where
  pub machines : List Machine
  pub images : List Image
  pub isos : List Iso
  pub folders : List BootMenuFolder
  pub menu_settings : Option BootMenuSettings
  pub accounts : List LocalAccount
  pub jobs : List StagedJob
  pub attempts : List InstallAttempt
  pub boot_events : List BootEvent
  pub activity : List ActivityLog
  pub runtime : Runtime
  pub image_seeds : List (SeedPath × Text)
  pub data_seeds : List (SeedPath × Text)
  pub extract_dirs : List ExtractDir

-- The surroundings of one request: the settings, the clock, what the operating system answers (whether
-- a directory can be made, a file written, read or deleted, a tree of seeds or a directory of media
-- removed), the tables of Unicode, the next `uuid4().hex`, the JSON parser on the sources of an image (no row where
-- the text is no list), and the Fernet cipher under the key of the settings.
pub record Env : Type 0 where
  pub now : ℕ
  pub fresh_instance : Text
  pub max_seed_bytes : ℕ
  pub factory_seed : OsFamily → Text
  pub writable : SeedPath → Bool
  pub makes_dir : SeedPath → Bool
  pub cleans : SeedPath → Bool
  pub unlinks : SeedPath → Bool
  pub removable : SeedPath → Bool
  pub removes_dir : ExtractDir → Bool
  pub readable : SeedPath → Bool
  pub wimboot_available : Bool
  pub smb_password_configured : Bool
  pub live_media : Text → Bool
  pub lower : Text → Text
  pub casefold : Text → Text
  pub is_word : ℕ → Bool
  pub json_rows : Text → List SourceRow
  pub on_disk : Text → Bool
  pub is_decimal : ℕ → Bool
  pub public_url : Text
  pub nfs_host : Text
  pub nfs_export : Text
  pub default_unknown_timeout : ℕ
  pub default_menu_timeout : ℕ
  pub encrypt : Text → Text
  pub decrypt : Text → Option Text

module _ {A : Type 0} (key : A → ℕ) where
  -- `db.get(Row, k)`
  unfoldable pub row : ℕ → List A → Option A
  row k [] = none
  row k (r ∷ rs) = if key r == k then some r else row k rs

  -- The changed object in the place of its row.
  unfoldable pub put_row : A → List A → List A
  put_row a [] = []
  put_row a (r ∷ rs) = if key r == key a then a ∷ put_row a rs else r ∷ put_row a rs

  -- `db.delete(object)`
  unfoldable pub drop_row : ℕ → List A → List A
  drop_row k rs = where_is (λ r. not (key r == k)) rs

  -- The key that SQLite gives to an inserted row: one above the largest.
  unfoldable pub next_key : List A → ℕ
  next_key [] = 1
  next_key (r ∷ rs) = max (suc (key r)) (next_key rs)

-- `db.rollback()`, and the end of a session that was not committed: the tables go back, files stay.
unfoldable pub rollback : Lab → Lab → Lab
rollback before after = record before {
  image_seeds = after.image_seeds;
  data_seeds = after.data_seeds;
  extract_dirs = after.extract_dirs;
}
