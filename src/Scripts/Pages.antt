-- ===== src/Scripts/Pages.antt =====
-- The menu shows the images that can be deployed, and no name adds a line to the script.
use home_lab_pxe.Prelude.{
  ℕ, suc, zero, ◌+◌, ◌≡◌, refl, ap, ◌∙◌, ◌==◌, Text, codes, Bool, true, false, not, Bool-cases, inl,
  inr, ◌↔◌, ltb, Option-cases, Option, none, some, List, [], ◌∷◌, ◌++◌, map, any_is, where_is,
  if◌then◌else◌, arith, All, All-append, In, In-where_is, where_is-In,
}
use Prim.Native.Nat.{◌/◌, ◌%◌}
use home_lab_pxe.Models.{BootMenuFolder, Image}
use home_lab_pxe.Lab.{Lab, Env}
use home_lab_pxe.Readiness.{image_deploy_blocked}
use home_lab_pxe.BootMenu.{in_folder}
use home_lab_pxe.BootMenu.Moves.{image_first, insert_image, sort_images, list_images_in_folder}
use home_lab_pxe.Scripts.{digits, decimal, print_lines}
use home_lab_pxe.Scripts.Menu.{
  is_unsafe, label, menu_images, MenuPage, folder_key, image_key, item_line, first_item,
  choose_line, back_url, back_line, chain_line, items, folder_targets, image_targets, menu_lines,
}
use home_lab_pxe.Scripts.Labels.{label-IsLabel}

insert-In :
    (image a : Image) (images : List Image)
    → In image (insert_image a images) ↔ In image (a ∷ images)
unfolding insert_image
insert-In image a [] = (λ m. m, λ m. m)
insert-In image a (b ∷ images) = elim (Bool-cases (image_first a b)) [
  | inl e ↦ rw e (λ m. m, λ m. m)
  | inr e ↦ rw e (
    λ m. elim m [
      | inl same ↦ inr (inl same)
      | inr later ↦ elim ((insert-In image a images).0 later) [
        | inl same ↦ inl same
        | inr there ↦ inr (inr there)
      ]
    ],
    λ m. elim m [
      | inl same ↦ inr ((insert-In image a images).1 (inl same))
      | inr there ↦ elim there [
        | inl same ↦ inl same
        | inr later ↦ inr ((insert-In image a images).1 (inr later))
      ]
    ],
  )
]

sort-In : (image : Image) (images : List Image) → In image (sort_images images) ↔ In image images
unfolding sort_images
sort-In image [] = (λ m. m, λ m. m)
sort-In image (a ∷ images) = (
  λ m. elim ((insert-In image a (sort_images images)).0 m) [
    | inl e ↦ inl e
    | inr later ↦ inr ((sort-In image images).0 later)
  ],
  λ m.
      (insert-In image a (sort_images images)).1
        (elim m [ inl e ↦ inl e | inr later ↦ inr ((sort-In image images).1 later) ]),
)

-- A folder of the menu shows an image exactly where the image is stored in the folder and can be
-- deployed.
pub menu_images-shown :
    (env : Env) (folder_id : ℕ) (lab : Lab) (image : Image)
    → In image (menu_images env folder_id lab) ↔ (
        In image lab.images
        × (in_folder folder_id image ≡ true)
        × (image_deploy_blocked env image ≡ false))
unfolding menu_images list_images_in_folder
menu_images-shown env folder_id lab image =
    let open_now = λ (i : Image). not (image_deploy_blocked env i) in
    let stored = where_is (in_folder folder_id) lab.images in
    (
      λ m.
          let (sorted, free) = where_is-In open_now image (sort_images stored) m in
          let (there, own) =
            where_is-In (in_folder folder_id) image lab.images ((sort-In image stored).0 sorted) in
          (there, own, ground (arith, free)),
      λ (there, own, free).
          In-where_is open_now image (sort_images stored)
            ((sort-In image stored).1
              (In-where_is (in_folder folder_id) image lab.images there own))
            (rw free refl),
    )

abbrev pub is_feed : ℕ → Bool
is_feed c = c == 10

abbrev pub IsLine : Text → Type 0
IsLine text = any_is is_feed text ≡ false

append-IsLine : (s t : Text) → IsLine s → IsLine t → IsLine (s ++ t)
append-IsLine [] t h k = k
append-IsLine (c ∷ s) t h k = ground (arith, h, append-IsLine s t (ground (arith, h)) k)

digits-IsLine : (rounds n : ℕ) (out : Text) → IsLine out → IsLine (digits rounds n out)
unfolding digits
digits-IsLine zero n out h = h
digits-IsLine (suc rounds) n out h = elim (Bool-cases (n == 0)) [
  | inl e ↦ rw e h
  | inr e ↦ rw e (digits-IsLine rounds (n / 10) ((b'0' + n % 10) ∷ out) (ground (arith, h)))
]

decimal-IsLine : (n : ℕ) → IsLine (decimal n)
unfolding decimal
decimal-IsLine n = elim (Bool-cases (n == 0)) [
  | inl e ↦ rw e refl
  | inr e ↦ rw e (digits-IsLine n n [] refl)
]

safe-IsLine : (s : Text) → any_is is_unsafe s ≡ false → IsLine s
safe-IsLine [] h = refl
safe-IsLine (c ∷ s) h = ground (arith, h, safe-IsLine s)

label-IsLine : (value : Text) → IsLine (label value)
label-IsLine value = safe-IsLine (label value) (label-IsLabel value).safe

-- The lines that a reader of a script sees.
abbrev push : ℕ → List Text → List Text
push c [] = (c ∷ []) ∷ []
push c (line ∷ lines) = (c ∷ line) ∷ lines

unfoldable pub read_lines : Text → List Text
read_lines [] = []
read_lines (c ∷ s) = let rest = read_lines s in if is_feed c then [] ∷ rest else push c rest

read_line :
    (line rest : Text) → IsLine line → read_lines (line ++ 10 ∷ rest) ≡ line ∷ read_lines rest
unfolding read_lines
read_line [] rest h = refl
read_line (c ∷ line) rest h =
    let plain : is_feed c ≡ false = ground (arith, h) in
    rw (plain, read_line line rest (ground (arith, h))) refl

read_lines-print_lines :
    (lines : List Text) → All IsLine lines → read_lines (print_lines lines) ≡ lines
unfolding read_lines print_lines
read_lines-print_lines [] all = refl
read_lines-print_lines (line ∷ lines) all =
    read_line line (print_lines lines) all.0
    ∙ ap (λ rest. line ∷ rest) (read_lines-print_lines lines all.1)

chain-IsLine : (url : Text) → IsLine url → IsLine (chain_line url)
chain-IsLine url h = append-IsLine url (codes " || goto local") h refl

url-IsLine :
    (root_url path : Text) (k : ℕ)
    → IsLine root_url
    → IsLine path
    → IsLine (root_url ++ path ++ decimal k)
url-IsLine root_url path k h p =
    append-IsLine (root_url ++ path) (decimal k) (append-IsLine root_url path h p)
      (decimal-IsLine k)

item-IsLine : (k : ℕ) (name : Text) → IsLine (decimal k ++ b' ' ∷ label name)
item-IsLine k name =
    append-IsLine (decimal k) (b' ' ∷ label name) (decimal-IsLine k) (label-IsLine name)

items-IsLine :
    (folders : List BootMenuFolder) (images : List Image)
    → All IsLine (
        map (λ f. item_line (folder_key f) f.name) folders
        ++ map (λ i. item_line (image_key i) i.name) images)
items-IsLine [] [] = tt
items-IsLine [] (i ∷ images) = (item-IsLine i.id i.name, items-IsLine [] images)
items-IsLine (f ∷ folders) images = (item-IsLine f.id f.name, items-IsLine folders images)

folder_targets-IsLine :
    (root_url : Text) (folders : List BootMenuFolder)
    → IsLine root_url
    → All IsLine (folder_targets root_url folders)
folder_targets-IsLine root_url [] h = tt
folder_targets-IsLine root_url (f ∷ folders) h = (
  decimal-IsLine f.id,
  (
    chain-IsLine (root_url ++ codes "/menu/" ++ decimal f.id)
        (url-IsLine root_url (codes "/menu/") f.id h refl),
    folder_targets-IsLine root_url folders h,
  ),
)

image_targets-IsLine :
    (root_url : Text) (images : List Image)
    → IsLine root_url
    → All IsLine (image_targets root_url images)
image_targets-IsLine root_url [] h = tt
image_targets-IsLine root_url (i ∷ images) h = (
  decimal-IsLine i.id,
  (
    chain-IsLine (root_url ++ codes "/boot/" ++ decimal i.id)
        (url-IsLine root_url (codes "/boot/") i.id h refl),
    image_targets-IsLine root_url images h,
  ),
)

module _ (page : MenuPage) (h : IsLine page.root_url) where
  first-IsLine : IsLine (first_item page)
  first-IsLine = elim (Option-cases page.folder) [
    | inl e ↦ rw e (label-IsLine page.continue_label)
    | inr (folder, e) ↦ rw e refl
  ]

  choose-IsLine : IsLine (choose_line page)
  choose-IsLine = elim (Option-cases page.folder) [
    | inl e ↦ elim (Bool-cases (ltb 0 page.timeout_ms)) [
      | inl t ↦
          rw (e, t)
            (append-IsLine (decimal page.timeout_ms)
              (codes " --default local selected || goto local") (decimal-IsLine page.timeout_ms)
              refl)
      | inr t ↦ rw (e, t) refl
    ]
    | inr (folder, e) ↦ rw e refl
  ]

  back_url-IsLine :
      (parent_id : Option ℕ) (folder : BootMenuFolder)
      → folder.parent_id ≡ parent_id
      → IsLine (back_url page.root_url folder)
  back_url-IsLine none folder e = rw e h
  back_url-IsLine (some k) folder e = elim (Bool-cases (k == 0)) [
    | inl z ↦ rw (e, z) h
    | inr z ↦ rw (e, z) (url-IsLine page.root_url (codes "/menu/") k h refl)
  ]

  back-IsLine : IsLine (back_line page)
  back-IsLine = elim (Option-cases page.folder) [
    | inl e ↦ rw e refl
    | inr (folder, e) ↦ rw e (
        chain-IsLine (back_url page.root_url folder) (back_url-IsLine folder.parent_id folder refl))
  ]

  -- Where the address of the server holds no line feed, the printed script of a menu is read as the
  -- lines that it is made of, whatever the folders, the images and the settings are named.
  pub menu_lines-read : read_lines (print_lines (menu_lines page)) ≡ menu_lines page
  unfolding menu_lines
  menu_lines-read = read_lines-print_lines (menu_lines page) (
    refl,
    (
      refl,
      (
        label-IsLine page.title,
        (
          first-IsLine,
          All-append IsLine _ (image_targets page.root_url page.images)
              (All-append IsLine (items page) _ (items-IsLine page.children page.images) (
                choose-IsLine,
                (
                  refl,
                  (
                    refl,
                    (
                      refl,
                      (refl, (back-IsLine, folder_targets-IsLine page.root_url page.children h)),
                    ),
                  ),
                ),
              ))
              (image_targets-IsLine page.root_url page.images h),
        ),
      ),
    ),
  )
