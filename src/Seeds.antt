-- ===== src/Seeds.antt =====
-- src/seed_store.py and `select_seed_text` of src/seed_render.py: seed files below the image root
-- and the data root. The paths that the program builds are inside their root, so `resolve_under`
-- refuses none of them; the operating system may refuse to read or to write one.
pub mod Copies
use home_lab_pxe.Prelude.{
  ℕ, ◌==◌, ltb, leb, Text, text_eq, strip, has_text, utf8_length, codes, Bool, true, false, not,
  ◌&&◌, ◌||◌, Option, none, some, List, [], ◌∷◌, is_nil, where_is, if◌then◌else◌, Outcome, ok,
  raised, os_error, Action, pure, raise, ◌>>=◌, ◌>>◌,
}
use home_lab_pxe.Models.{
  OsFamily, linux, windows, tool, SeedName, unattend_xml, user_data, SeedPath, uploads, seeds,
  install_seeds, Image, Machine,
}
use home_lab_pxe.Lab.{Lab, Env}

unfoldable pub seed_name : OsFamily → SeedName
seed_name windows = unattend_xml
seed_name linux = user_data
seed_name tool = user_data

unfoldable pub image_seed_relative : ℕ → OsFamily → SeedPath
unfolding seed_name
image_seed_relative image_id family = uploads image_id (seed_name family)

unfoldable pub machine_seed_relative : ℕ → OsFamily → SeedPath
unfolding seed_name
machine_seed_relative machine_id family = seeds machine_id (seed_name family)

unfoldable pub snapshot_seed_relative : ℕ → Text → OsFamily → SeedPath
unfolding seed_name
snapshot_seed_relative machine_id instance_id family =
    install_seeds machine_id instance_id (seed_name family)

abbrev pub same_name : SeedName → SeedName → Bool
same_name unattend_xml unattend_xml = true
same_name user_data user_data = true
same_name _ _ = false

unfoldable pub same_path : SeedPath → SeedPath → Bool
same_path (uploads i n) (uploads j m) = i == j && same_name n m
same_path (seeds i n) (seeds j m) = i == j && same_name n m
same_path (install_seeds i t n) (install_seeds j u m) = i == j && (text_eq t u && same_name n m)
same_path _ _ = false

abbrev pub Files : Type 0
Files = List (SeedPath × Text)

-- What `is_file` and `read_text` find; "" where there is no file.
unfoldable pub file_text : SeedPath → Files → Text
file_text p [] = []
file_text p ((q, body) ∷ rest) = if same_path q p then body else file_text p rest

unfoldable pub file_exists : SeedPath → Files → Bool
file_exists p [] = false
file_exists p ((q, body) ∷ rest) = same_path q p || file_exists p rest

unfoldable pub without_file : SeedPath → Files → Files
without_file p files = where_is (λ entry. not (same_path entry.0 p)) files

-- `os.replace(tmp, dest)`
unfoldable pub store_file : SeedPath → Text → Files → Files
unfolding without_file
store_file p body files = (p, body) ∷ without_file p files

abbrev pub too_large : Env → Text → Bool
too_large env body = ltb env.max_seed_bytes (utf8_length body)

module _ (env : Env) where
  -- `_read` below one root.
  unfoldable pub read_seed : SeedPath → Files → Outcome Text
  unfolding file_text file_exists
  read_seed p files =
      if not (file_exists p files)
      then ok []
      else if env.readable p
      then ok (file_text p files)
      else raised "Cannot read seed file"

  unfoldable pub read_image_seed : ℕ → OsFamily → Action Lab Text
  unfolding read_seed image_seed_relative
  read_image_seed image_id family lab =
      (read_seed (image_seed_relative image_id family) lab.image_seeds, lab)

  unfoldable pub read_machine_seed : ℕ → OsFamily → Action Lab Text
  unfolding read_seed machine_seed_relative
  read_machine_seed machine_id family lab =
      (read_seed (machine_seed_relative machine_id family) lab.data_seeds, lab)

  -- A write that failed: the temporary file is removed first, which may fail too.
  abbrev pub unwritten : SeedPath → Outcome SeedPath
  unwritten p = if env.cleans p then raised "Cannot write seed file" else os_error

  -- `write_seed` below the data root. An error of making the directory is not caught.
  unfoldable pub write_seed : SeedPath → Text → Action Lab SeedPath
  unfolding store_file
  write_seed p body lab =
      if too_large env body
      then (raised "Seed file exceeds PXE_MAX_SEED_BYTES", lab)
      else if not (env.makes_dir p)
      then (os_error, lab)
      else if env.writable p
      then (ok p, record lab { data_seeds = store_file p body lab.data_seeds })
      else (unwritten p, lab)

  unfoldable pub write_machine_seed : ℕ → OsFamily → Text → Action Lab SeedPath
  unfolding write_seed machine_seed_relative
  write_machine_seed machine_id family body =
      write_seed (machine_seed_relative machine_id family) body

  -- `write_image_seed`: `write_seed` below the image root, for a body that is not blank.
  unfoldable pub write_image_seed : ℕ → OsFamily → Text → Action Lab SeedPath
  unfolding image_seed_relative store_file
  write_image_seed image_id family body lab =
      let p = image_seed_relative image_id family in
      if not (has_text body)
      then (raised "Image seed file cannot be empty", lab)
      else if too_large env body
      then (raised "Seed file exceeds PXE_MAX_SEED_BYTES", lab)
      else if not (env.makes_dir p)
      then (os_error, lab)
      else if env.writable p
      then (ok p, record lab { image_seeds = store_file p body lab.image_seeds })
      else (unwritten p, lab)

  unfoldable pub reset_image_seed : ℕ → OsFamily → Action Lab SeedPath
  unfolding write_image_seed
  reset_image_seed image_id family = write_image_seed image_id family (env.factory_seed family)

  -- The image template, or the factory starter if the image file is blank.
  unfoldable pub default_seed_text : ℕ → OsFamily → Action Lab Text
  unfolding read_image_seed
  default_seed_text image_id family = do
    text ← read_image_seed image_id family
    if has_text text then pure text else pure (env.factory_seed family)

  abbrev pub copy_default : ℕ → ℕ → OsFamily → Action Lab Bool
  copy_default machine_id image_id family = do
    text ← default_seed_text image_id family
    if has_text text
        then (do write_machine_seed machine_id family text; pure true)
        else raise "Default seed file cannot be empty"

  -- `true` if a write happened.
  unfoldable pub copy_image_seed_to_machine : ℕ → ℕ → OsFamily → Bool → Action Lab Bool
  unfolding read_machine_seed default_seed_text write_machine_seed
  copy_image_seed_to_machine machine_id image_id family true =
      copy_default machine_id image_id family
  copy_image_seed_to_machine machine_id image_id family false = do
    own ← read_machine_seed machine_id family
    if has_text own then pure false else copy_default machine_id image_id family

  unfoldable pub image_or_factory : Option Image → OsFamily → Action Lab Text
  unfolding read_image_seed
  image_or_factory none family = pure (env.factory_seed family)
  image_or_factory (some image) family =
      if image.id == 0 then pure (env.factory_seed family) else do
        text ← read_image_seed image.id family
        if has_text text then pure text else pure (env.factory_seed family)

  -- src/seed_render.py: the machine's seed, else the image's, else the factory starter.
  unfoldable pub select_seed_text : Option Image → Machine → OsFamily → Action Lab Text
  unfolding read_machine_seed image_or_factory
  select_seed_text image machine family =
      if machine.id == 0 then image_or_factory image family else do
        text ← read_machine_seed machine.id family
        if has_text text then pure text else image_or_factory image family

  abbrev create_seed : ℕ → OsFamily → Action Lab (Unit {0})
  create_seed image_id family lab =
      let p = image_seed_relative image_id family in
      if not (env.makes_dir p)
      then (os_error, lab)
      else if file_exists p lab.image_seeds
      then (ok tt, lab)
      else if env.writable p
      then (
        ok tt,
        record lab { image_seeds = store_file p (env.factory_seed family) lab.image_seeds },
      )
      else (os_error, lab)

  -- `O_CREAT | O_EXCL`: an image seed that is there stays.
  unfoldable pub ensure_image_seed : ℕ → OsFamily → Action Lab (Unit {0})
  unfolding image_seed_relative store_file file_exists
  ensure_image_seed image_id tool = pure tt
  ensure_image_seed image_id linux = create_seed image_id linux
  ensure_image_seed image_id windows = create_seed image_id windows

-- `delete_seed` below the data root. `unlink` may raise an OSError, which nothing catches.
unfoldable pub delete_seed : Env → Option SeedPath → Action Lab (Unit {0})
unfolding without_file
delete_seed env none lab = (ok tt, lab)
delete_seed env (some p) lab =
    if env.unlinks p
    then (ok tt, record lab { data_seeds = without_file p lab.data_seeds })
    else (os_error, lab)

unfoldable pub delete_machine_seed : Env → ℕ → OsFamily → Action Lab (Unit {0})
unfolding delete_seed machine_seed_relative
delete_machine_seed env machine_id family =
    delete_seed env (some (machine_seed_relative machine_id family))

-- An entry below `install-seeds/<machine>` that is not the instance to keep.
unfoldable pub is_leftover : ℕ → Text → SeedPath → Bool
is_leftover machine_id keep (install_seeds i instance_id n) =
    i == machine_id && not (not (is_nil keep) && text_eq instance_id keep)
is_leftover machine_id keep _ = false

-- `rmtree` ignores errors: what cannot be removed stays. The directory of the machine can be listed,
-- and has a directory for each instance and no other file.
unfoldable pub prune_install_seeds : Env → ℕ → Text → Lab → Lab
unfolding is_leftover
prune_install_seeds env machine_id keep_instance_id lab =
    let keep = strip keep_instance_id in
    record lab {
      data_seeds =
          where_is (λ entry. not (is_leftover machine_id keep entry.0 && env.removable entry.0))
            lab.data_seeds;
    }

unfoldable pub below_machine : ℕ → SeedPath → Bool
below_machine machine_id (seeds i n) = i == machine_id
below_machine machine_id (install_seeds i t n) = i == machine_id
below_machine machine_id _ = false

unfoldable pub remove_machine_seed_tree : Env → ℕ → Lab → Lab
unfolding below_machine
remove_machine_seed_tree env machine_id lab = record lab {
  data_seeds =
      where_is (λ entry. not (below_machine machine_id entry.0 && env.removable entry.0))
        lab.data_seeds;
}
