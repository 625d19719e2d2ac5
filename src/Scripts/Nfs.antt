-- ===== src/Scripts/Nfs.antt =====
-- src/nfs_media.py: the NFS root of a generation of extracted media.
use home_lab_pxe.Prelude.{
  ◌==◌, Text, codes, strip, starts_with, text_eq, Bool, not, ◌&&◌, ◌||◌, Option, none, some, List,
  [], ◌∷◌, ◌++◌, map, any_is, is_nil, if◌then◌else◌,
}
use mathlib.Core.List.{reverse}
use home_lab_pxe.Lab.{Env}

-- `replace("\\", "/")`
abbrev pub slashes : Text → Text
slashes text = map (λ c. if c == b'\\' then b'/' else c) text

-- The parts of a text between the slashes, with the part that is being read.
unfoldable pub split_slashes : Text → Text → List Text
split_slashes part [] = reverse part ∷ []
split_slashes part (c ∷ s) =
    let next = split_slashes [] s in
    let more = split_slashes (c ∷ part) s in if c == b'/' then reverse part ∷ next else more

abbrev is_number : Env → Text → Bool
is_number env text = not (is_nil text) && not (any_is (λ c. not (env.is_decimal c)) text)

-- The two numbers behind "nfs/", as they stand there.
abbrev subpath_of : Env → List Text → Option Text
subpath_of env (area ∷ owner ∷ revision ∷ []) =
    if text_eq area (codes "nfs") && is_number env owner && is_number env revision
    then some (owner ++ b'/' ∷ revision)
    else none
subpath_of env _ = none

unfoldable pub nfs_subpath : Env → Text → Option Text
unfolding split_slashes strip text_eq
nfs_subpath env media_relative = subpath_of env (split_slashes [] (strip (slashes media_relative)))

abbrev drop_slashes : Text → Text
drop_slashes [] = []
drop_slashes (c ∷ s) = let rest = drop_slashes s in if c == b'/' then rest else c ∷ s

-- `text.rstrip("/")`
unfoldable pub rstrip_slash : Text → Text
rstrip_slash text = reverse (drop_slashes (reverse text))

abbrev is_parent_dir : Text → Bool
is_parent_dir part = text_eq part (codes "..")

abbrev nfsroot_of : Text → Text → Text → Option Text
nfsroot_of server base sub =
    if is_nil server
      || not (starts_with base (codes "/"))
      || any_is is_parent_dir (split_slashes [] base)
    then none
    else some (server ++ b':' ∷ base ++ b'/' ∷ sub)

unfoldable pub advertised_nfsroot : Env → Text → Option Text
unfolding nfs_subpath strip rstrip_slash split_slashes starts_with text_eq
advertised_nfsroot env media_relative = elim (nfs_subpath env media_relative) [
  | none ↦ none
  | some sub ↦ nfsroot_of (strip env.nfs_host) (rstrip_slash (strip (slashes env.nfs_export))) sub
]
