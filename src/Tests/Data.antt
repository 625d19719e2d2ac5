-- ===== src/Tests/Data.antt =====
-- A small lab for the tests: one Linux image, and machines in several states.
use home_lab_pxe.Prelude.{leb, ◌&&◌, ℕ, Text, codes, true, false, none, some, List, [], ◌∷◌, pos}
use home_lab_pxe.Models.{
  BootMenuFolder, MachineState, linux, disk, ExtractStatus, Image, Iso, Machine, InstallAttempt,
}
use home_lab_pxe.Lab.{Lab, Env, ExtractDir, isos_extracts, uploads_extracts, revision, temporary}
use home_lab_pxe.Hardware.{Hardware}
use home_lab_pxe.Isos.{mirror}

abbrev pub environment : Env
environment = record {
  now = 10000;
  fresh_instance = codes "f00d";
  max_seed_bytes = 1000;
  factory_seed = λ family. codes "#cloud-config";
  writable = λ path. true;
  makes_dir = λ path. true;
  cleans = λ path. true;
  unlinks = λ path. true;
  removable = λ path. true;
  removes_dir = λ dir. true;
  readable = λ path. true;
  wimboot_available = true;
  smb_password_configured = true;
  live_media = λ path. false;
  lower = λ text. text;
  casefold = λ text. text;
  is_word = λ c. true;
  json_rows = λ text. [];
  on_disk = λ path. true;
  is_decimal = λ c. leb b'0' c && leb c b'9';
  public_url = codes "http://lab";
  nfs_host = codes "lab";
  nfs_export = codes "/export";
  default_unknown_timeout = 10;
  default_menu_timeout = 30;
  encrypt = λ text. b'#' ∷ text;
  decrypt = λ text. elim text [ [] ↦ none | c ∷ s ↦ some s ];
}

-- The same surroundings, where all media is live.
abbrev pub live_environment : Env
live_environment = record environment { live_media = λ path. true }

abbrev pub debian : Image
debian = record {
  id = 7;
  name = codes "debian";
  os_family = linux;
  iso_id = none;
  arch = codes "x86_64";
  kernel_path = codes "vmlinuz";
  initrd_path = codes "initrd";
  boot_wim_path = [];
  install_wim_path = [];
  iso_path = [];
  cmdline = [];
  extract_status = ExtractStatus.ready;
  extract_error = [];
  extract_revision = 3;
  extract_generation = [];
  wim_index = 1;
  source_id = [];
  source_options = [];
  folder_id = none;
  sort_order = pos 10;
}

abbrev pub machine_in : MachineState → Machine
machine_in state = record {
  id = 1;
  mac = codes "m1";
  uuid = none;
  hostname = codes "node";
  state = state;
  last_seen_at = none;
  last_ip = [];
  manufacturer = [];
  product = [];
  serial = [];
  install_log = [];
  assigned_image_id = some 7;
  instance_id = codes "old";
  guest_overlay = none;
  next_boot_device = disk;
  imaging_started_at = some 1000;
  created_at = 5;
}

abbrev pub ready_machine : Machine
ready_machine = machine_in MachineState.ready

abbrev pub imaging_machine : Machine
imaging_machine = machine_in MachineState.imaging

abbrev pub open_attempt : InstallAttempt
open_attempt = record {
  id = 1;
  machine_id = 1;
  instance_id = codes "old";
  image_id = some 7;
  os_family = linux;
  extract_revision = 2;
  kernel_path = codes "vmlinuz";
  initrd_path = codes "initrd";
  boot_wim_path = [];
  install_wim_path = [];
  iso_path = [];
  cmdline = [];
  wim_index = 1;
  source_id = [];
  media_relative = [];
  seed_snapshot_path = none;
  created_at = 6;
  completed_at = none;
}

abbrev pub generation : ℕ → ExtractDir
generation n = record { base = uploads_extracts; owner = 7; name = revision n }

-- What an extraction of another owner has written so far.
abbrev pub partial : ExtractDir
partial = record { base = isos_extracts; owner = 8; name = temporary (codes "3.tmp") }

-- One machine in a state, the image, and the attempts that are given.
abbrev pub lab_with : Machine → List InstallAttempt → Lab
lab_with machine attempts = record {
  machines = machine ∷ [];
  images = debian ∷ [];
  isos = [];
  folders = [];
  menu_settings = none;
  accounts = [];
  jobs = [];
  attempts = attempts;
  boot_events = [];
  activity = [];
  runtime = record { imaging_timeout_minutes = 60; default_timezone = codes "UTC" };
  image_seeds = [];
  data_seeds = [];
  extract_dirs = generation 1 ∷ generation 2 ∷ generation 3 ∷ partial ∷ [];
}

abbrev pub ready_lab : Lab
ready_lab = lab_with ready_machine []

abbrev pub imaging_lab : Lab
imaging_lab = lab_with imaging_machine (open_attempt ∷ [])

abbrev pub deployed_machine : Machine
deployed_machine = machine_in MachineState.deployed

abbrev pub deployed_lab : Lab
deployed_lab = lab_with deployed_machine []

abbrev pub no_hardware : Hardware
no_hardware = record { manufacturer = codes "acme"; product = []; serial = [] }

abbrev pub folder_named : ℕ → Text → BootMenuFolder
folder_named id name = record { id = id; parent_id = none; name = name; sort_order = pos id }

-- A lab whose menu has two folders.
abbrev pub menu_lab : Lab
menu_lab = record ready_lab {
  folders = folder_named 1 (codes "Linux") ∷ folder_named 2 (codes "Tools") ∷ [];
}

-- A lab whose menu has one folder.
abbrev pub small_menu_lab : Lab
small_menu_lab = record ready_lab { folders = folder_named 1 (codes "Linux") ∷ [] }

-- An ISO that waits for its extraction.
abbrev pub queued_iso : Iso
queued_iso = record {
  id = 3;
  name = codes "debian-iso";
  os_family = linux;
  arch = codes "x86_64";
  iso_path = codes "debian.iso";
  size_bytes = 9000;
  cmdline = [];
  kernel_path = codes "vmlinuz";
  initrd_path = codes "initrd";
  boot_wim_path = [];
  install_wim_path = [];
  extract_status = ExtractStatus.queued;
  extract_error = [];
  extract_revision = 2;
  extract_generation = [];
  source_options = [];
  created_at = 4;
}

-- A lab with the ISO and a template of it.
abbrev pub media_lab : Lab
media_lab = record ready_lab { isos = queued_iso ∷ []; images = mirror queued_iso debian ∷ [] }
