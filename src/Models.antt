-- ===== src/Models.antt =====
-- src/models.py: the enumerations and the rows of the tables.
-- A stored row has its integer key, so `id` is a number; the keys begin at 1. A time is a number of
-- seconds. `guest_overlay` is what `json.loads` makes of the column, `none` where that is no object.
use home_lab_pxe.Prelude.{Bool, ℕ, Text, Option, List, codes, ℤ}

pub data MachineState : Type 0 where
  pending ready deploying imaging timeout_error deployed staged disabled failed : MachineState

-- The badge text of a state.
pub state_label : MachineState → Text
state_label pending = codes "Pending"
state_label ready = codes "Ready"
state_label deploying = codes "Deploying"
state_label imaging = codes "Imaging"
state_label timeout_error = codes "Timeout Error"
state_label deployed = codes "Deployed"
state_label staged = codes "Staged"
state_label disabled = codes "Disabled"
state_label failed = codes "Install failed"

pub data OsFamily : Type 0 where
  linux windows tool : OsFamily

pub data AccountKind : Type 0 where
  linux_root windows_administrator : AccountKind

pub data NextBootDevice : Type 0 where
  pxe disk : NextBootDevice

pub data ExtractStatus : Type 0 where
  idle queued extracting ready failed : ExtractStatus

pub record BootMenuFolder : Type 0 where
  pub id : ℕ
  pub parent_id : Option ℕ
  pub name : Text
  pub sort_order : ℤ

pub record BootMenuSettings : Type 0 where
  pub title : Text
  pub continue_label : Text
  pub unknown_timeout_seconds : ℕ
  pub menu_timeout_seconds : ℕ
  pub updated_at : ℕ

pub record Iso : Type 0 where
  pub id : ℕ
  pub name : Text
  pub os_family : OsFamily
  pub arch : Text
  pub iso_path : Text
  pub size_bytes : ℕ
  pub cmdline : Text
  pub kernel_path : Text
  pub initrd_path : Text
  pub boot_wim_path : Text
  pub install_wim_path : Text
  pub extract_status : ExtractStatus
  pub extract_error : Text
  pub extract_revision : ℕ
  pub extract_generation : Text
  pub source_options : Text
  pub created_at : ℕ

pub record Image : Type 0 where
  pub id : ℕ
  pub name : Text
  pub os_family : OsFamily
  pub iso_id : Option ℕ
  pub arch : Text
  pub kernel_path : Text
  pub initrd_path : Text
  pub boot_wim_path : Text
  pub install_wim_path : Text
  pub iso_path : Text
  pub cmdline : Text
  pub extract_status : ExtractStatus
  pub extract_error : Text
  pub extract_revision : ℕ
  pub extract_generation : Text
  pub wim_index : ℕ
  pub source_id : Text
  pub source_options : Text
  pub folder_id : Option ℕ
  pub sort_order : ℤ

pub record Machine : Type 0 where
  pub id : ℕ
  pub mac : Text
  pub uuid : Option Text
  pub hostname : Text
  pub state : MachineState
  pub last_seen_at : Option ℕ
  pub last_ip : Text
  pub manufacturer : Text
  pub product : Text
  pub serial : Text
  pub install_log : Text
  pub assigned_image_id : Option ℕ
  pub instance_id : Text
  pub guest_overlay : Option (List (Text × Text))
  pub next_boot_device : NextBootDevice
  pub imaging_started_at : Option ℕ
  pub created_at : ℕ

pub record LocalAccount : Type 0 where
  pub id : ℕ
  pub machine_id : ℕ
  pub kind : AccountKind
  pub encrypted_username : Text
  pub encrypted_password : Text

pub record StagedJob : Type 0 where
  pub id : ℕ
  pub machine_id : ℕ
  pub image_id : Option ℕ
  pub guest_overlay : Option (List (Text × Text))
  pub created_by : Text
  pub created_at : ℕ
  pub applied_at : Option ℕ

-- The path of a seed below its root, as the components that its f-string prints.
pub data SeedName : Type 0 where
  unattend_xml user_data : SeedName

pub data SeedPath : Type 0 where
  uploads : ℕ → SeedName → SeedPath
  seeds : ℕ → SeedName → SeedPath
  install_seeds : ℕ → Text → SeedName → SeedPath

pub record InstallAttempt : Type 0 where
  pub id : ℕ
  pub machine_id : ℕ
  pub instance_id : Text
  pub image_id : Option ℕ
  pub os_family : OsFamily
  pub extract_revision : ℕ
  pub kernel_path : Text
  pub initrd_path : Text
  pub boot_wim_path : Text
  pub install_wim_path : Text
  pub iso_path : Text
  pub cmdline : Text
  pub wim_index : ℕ
  pub source_id : Text
  pub media_relative : Text
  pub seed_snapshot_path : Option SeedPath
  pub created_at : ℕ
  pub completed_at : Option ℕ

pub record BootEvent : Type 0 where
  pub id : ℕ
  pub machine_id : ℕ
  pub at : ℕ
  pub client_ip : Text
  pub script_kind : Text

pub record ActivityLog : Type 0 where
  pub id : ℕ
  pub at : ℕ
  pub actor : Text
  pub action : Text
  pub detail : Text

-- One object of the JSON list that src/install_sources.py keeps in `source_options`: its `id` or else
-- its `source_id`, its `label`, whether `default` is true, and `wim_index` where it is a number.
pub record SourceRow : Type 0 where
  pub id : Text
  pub label : Text
  pub default : Bool
  pub wim_index : Option ℤ
