-- ===== src/Lib.antt =====
-- home-lab-pxe installs operating systems over the network. Machines boot by PXE and ask the server
-- for a script; the server knows each machine by its MAC, decides by the machine's state whether it
-- sees a menu, its own disk or an installer, and the installers report their progress back.
--
-- The parts, and the files that model them:
--   Models       src/models.py: the rows of the tables and their enumerations
--   Lab          the state that all handlers share: the tables behind the session, the seed files and
--                the extracted media; Env holds what one request takes from its surroundings
--   Seeds        src/seed_store.py, and select_seed_text of src/seed_render.py
--   Readiness    src/inventory/service.py: the sets of states, image_deploy_reason
--   Attempts     src/inventory/service.py: get_open_attempt, close_open_attempts, create_install_attempt
--   Lifecycle    src/inventory/service.py: deploy_machine, mark_ready, mark_imaging,
--                expire_stale_imaging, mark_install_failed, abort_deploy, get_machine_for_guest_init
--   Installs     src/inventory/service.py: mark_deployed, disable_machine, stage_machine,
--                update_staged_attempt, delete_machine; Installs.Steps relates committed states
--   InstallLog   src/inventory/service.py: redact_install_log
--   Machines     src/inventory/service.py: touch_machine, register_machine, record_boot_event;
--                Hardware has clean_hardware and apply_lab_timezone, Mac has src/inventory/mac.py
--   Extracts     src/extract_worker.py: gc_extract_generations
--   Payload      src/boot/payload.py, and Policy src/boot/policy.py
--   Ipxe         src/routes/ipxe.py, and Events src/routes/events.py
--   Catalog      src/install_sources.py: the install sources that an image or an ISO offers
--   Isos         src/inventory/isos.py: create_iso, update_iso, delete_iso, sync_template; Isos.Queue has
--                the jobs of src/extract_worker.py: schedule_extract, claim_next_job, _mark_failed
--   Images       src/inventory/service.py: create_image, update_image, delete_image
--   BootMenu     src/inventory/boot_menu.py: the settings and the queries; BootMenu.Changes has
--                create_folder, delete_folder and place_new_image, BootMenu.Moves update_folder,
--                reorder_folder, reorder_image and seed_default_folders, BootMenu.Options the lists
--                of the forms and backfill_image_folders; BootMenu.Forest relates the states of the
--                folder tree
--   Accounts     src/inventory/service.py: upsert_local_account, resolve_local_account
--   Scripts      src/boot/ipxe.py: the lines of each script; Scripts.Menu has src/boot/menu.py, and
--                Scripts.Nfs src/nfs_media.py
--   Uploads      src/image_store.py: the paths of uploads, and those that a deletion removes
--   RateLimit    src/rate_limit.py: rate_limit_exceeded
--   Uefi         src/boot/uefi_order.py: the boot order that the helper in the guest writes
-- Prelude has the shared types, the lists, the texts and the outcomes; Tests applies the theorems to
-- a small lab.
--
-- A table is the list of its rows in key order, and a query is a Boolean test of the rows. The object
-- that a session hands out is the row with its key, and a change puts the row back. A call that may
-- raise is an Action: it gives an Outcome, which is ok, raised (a ValueError with its message) or
-- os_error (an OSError that no handler catches), and the state behind it. A rollback restores the
-- tables and leaves the files as they are.
--
-- Env stands for what is not read from the repository or changes from request to request: the clock,
-- which stands still within one operation, the settings, the answers of the file system (which
-- directories can be made, which files written, read or deleted, which trees removed), the tables
-- of Unicode (lower case, case folding, word characters) and the next uuid4. A theorem holds for
-- every Env. A seed path is the number and the name that make it up. A guest overlay is the parsed
-- JSON object, with texts for its values. In Ipxe a script is the call of the renderer that prints it,
-- which Scripts spells out. Env has encryption as two functions; that the second undoes the first is
-- a hypothesis of the theorems that need it.
--
-- A directory that cannot be made and a seed that cannot be deleted are an os_error, a seed that cannot
-- be written a ValueError; a tree that rmtree cannot remove stays. The directory of a machine's install
-- seeds can be listed, and holds directories only. The query and the updates of claim_next_job are two steps, select_job and take_job,
-- and take_job on a later state is a claim that lost the race.
--
-- Every function is structural recursion. folder_depth of the boot menu stops after eleven rounds, as
-- the source does at its depth limit; the loops of folder_path and _is_self_or_descendant have one
-- round more than there are folders and give none where these run out, which BootMenu.Walks is about.
-- A number is printed in as many rounds as it counts, which is no less than it has digits.
--
-- Not modelled: the pages, the rendering of seeds, the daemons (DHCP, TFTP, NFS, SMB), the extraction
-- of media by external programs, sessions and passwords, since these are formatting, calls of other
-- programs or of third-party packages; and the copying of uploads into files.
pub mod Prelude
pub mod Models
pub mod Lab
pub mod Seeds
pub mod Readiness
pub mod Payload
pub mod Attempts
pub mod Extracts
pub mod InstallLog
pub mod Lifecycle
pub mod Installs
pub mod Mac
pub mod Hardware
pub mod Machines
pub mod Policy
pub mod Uefi
pub mod Events
pub mod Ipxe
pub mod Accounts
pub mod BootMenu
pub mod Catalog
pub mod Images
pub mod Isos
pub mod RateLimit
pub mod Scripts
pub mod Uploads
pub mod Tests
