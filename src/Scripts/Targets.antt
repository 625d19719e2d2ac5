-- ===== src/Scripts/Targets.antt =====
-- Each item of a menu leads to a place in the script.
use mathlib.Core.Path.{subst}
use home_lab_pxe.Prelude.{
  ◌≡◌, refl, sym, ap, ◌∙◌, Text, codes, inl, inr, ◌⊎◌, none, some, Option-cases, List, [], ◌∷◌,
  ◌++◌, map, In, In-map, arith,
}
use home_lab_pxe.Models.{BootMenuFolder, Image}
use home_lab_pxe.Scripts.{local_disk_line}
use home_lab_pxe.Scripts.Menu.{
  label, MenuPage, folder_key, image_key, item_line, target_line, items, folder_targets,
  image_targets, menu_lines, first_item, choose_line, back_line,
}

-- The keys that a page offers, with the labels that it shows.
abbrev pub first_offer : MenuPage → Text × Text
first_offer page = elim page.folder [
  | none ↦ (codes "local", label page.continue_label)
  | some folder ↦ (codes "back", codes "Back")
]

abbrev pub offered : MenuPage → List (Text × Text)
offered page =
    first_offer page
    ∷ (map (λ f. (folder_key f, label f.name)) page.children
        ++ map (λ i. (image_key i, label i.name)) page.images)

abbrev pub offer_line : Text × Text → Text
offer_line offer = codes "item " ++ offer.0 ++ b' ' ∷ offer.1

module _ {A : Type 0} where
  In-left : (x : A) (xs ys : List A) → In x xs → In x (xs ++ ys)
  In-left x [] ys m = elim m [ ]
  In-left x (y ∷ xs) ys (inl e) = inl e
  In-left x (y ∷ xs) ys (inr m) = inr (In-left x xs ys m)

  In-right : (x : A) (xs ys : List A) → In x ys → In x (xs ++ ys)
  In-right x [] ys m = m
  In-right x (y ∷ xs) ys m = inr (In-right x xs ys m)

  In-append : (x : A) (xs ys : List A) → In x (xs ++ ys) → In x xs ⊎ In x ys
  In-append x [] ys m = inr m
  In-append x (y ∷ xs) ys (inl e) = inl (inl e)
  In-append x (y ∷ xs) ys (inr m) = elim (In-append x xs ys m) [
    | inl there ↦ inl (inr there)
    | inr there ↦ inr there
  ]

In-target_folder :
    (root_url : Text) (folders : List BootMenuFolder) (offer : Text × Text)
    → (f : BootMenuFolder) × In f folders × (offer ≡ (folder_key f, label f.name))
    → In (target_line offer.0) (folder_targets root_url folders)
In-target_folder root_url [] offer (f, there, e) = elim there [ ]
In-target_folder root_url (g ∷ folders) offer (f, inl same, e) =
    inl (ap (λ (o : Text × Text). target_line o.0) e ∙ ap (λ h. target_line (folder_key h)) same)
In-target_folder root_url (g ∷ folders) offer (f, inr later, e) =
    inr (inr (In-target_folder root_url folders offer (f, later, e)))

In-target_image :
    (root_url : Text) (images : List Image) (offer : Text × Text)
    → (i : Image) × In i images × (offer ≡ (image_key i, label i.name))
    → In (target_line offer.0) (image_targets root_url images)
In-target_image root_url [] offer (i, there, e) = elim there [ ]
In-target_image root_url (g ∷ images) offer (i, inl same, e) =
    inl (ap (λ (o : Text × Text). target_line o.0) e ∙ ap (λ h. target_line (image_key h)) same)
In-target_image root_url (g ∷ images) offer (i, inr later, e) =
    inr (inr (In-target_image root_url images offer (i, later, e)))

items-In :
    (folders : List BootMenuFolder) (images : List Image) (offer : Text × Text)
    → In offer (
        map (λ f. (folder_key f, label f.name)) folders
        ++ map (λ i. (image_key i, label i.name)) images)
    → In (offer_line offer) (
        map (λ f. item_line (folder_key f) f.name) folders
        ++ map (λ i. item_line (image_key i) i.name) images)
items-In [] [] offer m = elim m [ ]
items-In [] (i ∷ images) offer (inl e) = inl (ap offer_line e)
items-In [] (i ∷ images) offer (inr m) = inr (items-In [] images offer m)
items-In (f ∷ folders) images offer (inl e) = inl (ap offer_line e)
items-In (f ∷ folders) images offer (inr m) = inr (items-In folders images offer m)

-- What stands behind the items, up to the images.
abbrev choices : MenuPage → List Text
choices page =
    choose_line page
    ∷ codes "goto ${selected}"
    ∷ codes ":local"
    ∷ local_disk_line
    ∷ codes ":back"
    ∷ back_line page
    ∷ folder_targets page.root_url page.children

module _ (page : MenuPage) where
  first-offer : offer_line (first_offer page) ≡ first_item page
  first-offer = elim (Option-cases page.folder) [
    | inl e ↦ ground (arith, e)
    | inr (folder, e) ↦ ground (arith, e)
  ]

  first-key : ((first_offer page).0 ≡ codes "local") ⊎ ((first_offer page).0 ≡ codes "back")
  first-key = elim (Option-cases page.folder) [
    | inl e ↦ inl (ground (arith, e))
    | inr (folder, e) ↦ inr (ground (arith, e))
  ]

  tail-In : (line : Text) → In line (choices page) → In line (menu_lines page)
  unfolding menu_lines
  tail-In line m = inr (
      inr (
        inr (
          inr (
            In-left line _ (image_targets page.root_url page.images)
              (In-right line (items page) _ m)))))

  first-target : In (target_line (first_offer page).0) (menu_lines page)
  first-target = elim first-key [
    | inl e ↦ rw e (tail-In (codes ":local") (inr (inr (inl refl))))
    | inr e ↦ rw e (tail-In (codes ":back") (inr (inr (inr (inr (inl refl))))))
  ]

  item-offered :
      (offer : Text × Text)
      → In offer (
          map (λ f. (folder_key f, label f.name)) page.children
          ++ map (λ i. (image_key i, label i.name)) page.images)
      → In (target_line offer.0) (menu_lines page)
  unfolding menu_lines
  item-offered offer m =
      elim (In-append offer (map (λ f. (folder_key f, label f.name)) page.children) _ m) [
        | inl there ↦ tail-In (target_line offer.0) (
            inr (
              inr (
                inr (
                  inr (
                    inr (
                      inr (
                        In-target_folder page.root_url page.children offer (
                          In-map (λ f. (folder_key f, label f.name)) offer page.children
                            there))))))))
        | inr there ↦ inr (
            inr (
              inr (
                inr (
                  In-right (target_line offer.0) _ (image_targets page.root_url page.images) (
                    In-target_image page.root_url page.images offer
                      (In-map (λ i. (image_key i, label i.name)) offer page.images there))))))
      ]

  -- Each key that a page offers has a line of its own with the label that is shown, and the place
  -- that it leads to is in the script.
  pub menu_lines-targets :
      (offer : Text × Text)
      → In offer (offered page)
      → In (offer_line offer) (menu_lines page) × In (target_line offer.0) (menu_lines page)
  unfolding menu_lines
  menu_lines-targets offer (inl e) = (
    inr (inr (inr (inl (ap offer_line e ∙ first-offer)))),
    subst (λ (o : Text × Text). In (target_line o.0) (menu_lines page)) (sym e) first-target,
  )
  menu_lines-targets offer (inr m) = (
    inr (
        inr (
          inr (
            inr (
              In-left (offer_line offer) _ (image_targets page.root_url page.images) (
                In-left (offer_line offer) (items page) _
                  (items-In page.children page.images offer m)))))),
    item-offered offer m,
  )
