-- ===== src/Uefi/Reorder.antt =====
-- src/boot/uefi_order.py: the new boot order for a policy, or `none` where nothing should change.
pub mod Order
pub mod Stable
use home_lab_pxe.Prelude.{
  ℕ, ◌-◌, leb, ◌==◌, Text, text_eq, codes, Bool, true, false, not, ◌&&◌, ◌||◌, Option, none, some,
  List, [], ◌∷◌, ◌++◌, map, where_is, any_is, if◌then◌else◌,
}
use home_lab_pxe.Uefi.Classify.{Kind, network, disk, other, classify, is_ipv4_network}

pub record BootEntry : Type 0 where
  pub boot_id : Text
  pub description : Text
  pub device_path : Text

pub record Item : Type 0 where
  pub boot_id : Text
  pub kind : Kind
  pub ipv4 : Bool

abbrev pub is_network : Item → Bool
is_network item = elim item.kind [ network ↦ true | _ ↦ false ]

abbrev pub is_disk : Item → Bool
is_disk item = elim item.kind [ disk ↦ true | _ ↦ false ]

abbrev pub is_other : Item → Bool
is_other item = elim item.kind [ other ↦ true | _ ↦ false ]

-- `str.upper` of an id, which is hexadecimal.
unfoldable pub upper : Text → Text
upper = map (λ c. if leb b'a' c && leb c b'z' then c - 32 else c)

unfoldable pub item_of : (ℕ → Bool) → BootEntry → Item
unfolding upper classify is_ipv4_network
item_of is_word entry =
    let kind = classify is_word entry.description entry.device_path in
    record {
      boot_id = upper entry.boot_id;
      kind = kind;
      ipv4 =
          (elim kind [ network ↦ true | _ ↦ false ]) && is_ipv4_network is_word entry.description;
    }

abbrev pub is_current : Option Text → Item → Bool
is_current none item = false
is_current (some current) item = text_eq item.boot_id current && is_network item

-- The item at the picked index, as a list of at most one, and the items at the other indices.
unfoldable pub picked : Option Text → List Item → List Item
picked current [] = []
picked current (item ∷ items) = if is_current current item then item ∷ [] else picked current items

unfoldable pub unpicked : Option Text → List Item → List Item
unpicked current [] = []
unpicked current (item ∷ items) =
    if is_current current item then items else item ∷ unpicked current items

abbrev pub is_ipv4 : Item → Bool
is_ipv4 item = is_network item && item.ipv4

abbrev pub is_ipv6 : Item → Bool
is_ipv6 item = is_network item && not item.ipv4

abbrev pub buckets : List Item → List Item
buckets rest =
    where_is is_ipv4 rest
    ++ (where_is is_disk rest ++ (where_is is_ipv6 rest ++ where_is is_other rest))

unfoldable pub arrange_pxe : Option Text → List Item → List Item
unfolding picked unpicked
arrange_pxe current items = picked current items ++ buckets (unpicked current items)

unfoldable pub arrange_disk : List Item → List Item
arrange_disk items =
    where_is is_disk items ++ (where_is is_other items ++ where_is is_network items)

abbrev pub ids : List Item → List Text
ids = map (λ item. item.boot_id)

unfoldable pub same_ids : List Text → List Text → Bool
same_ids [] [] = true
same_ids (i ∷ is) (j ∷ js) = text_eq i j && same_ids is js
same_ids _ _ = false

abbrev pub changed : List Item → List Item → Option (List Text)
changed items new = if same_ids (ids new) (ids items) then none else some (ids new)

-- `current` in upper case; the empty text is none.
unfoldable pub current_id : Option Text → Option Text
unfolding upper
current_id none = none
current_id (some []) = none
current_id (some (c ∷ s)) = some (upper (c ∷ s))

unfoldable pub arrange : Text → Option Text → List Item → List Item
unfolding arrange_pxe arrange_disk
arrange policy current items =
    if text_eq policy (codes "pxe") then arrange_pxe current items else arrange_disk items

unfoldable pub reorder_items : Text → Option Text → List Item → Option (List Text)
unfolding arrange same_ids
reorder_items policy current items =
    if not (any_is is_network items) then none else changed items (arrange policy current items)

unfoldable pub reorder : (ℕ → Bool) → List BootEntry → Text → Option Text → Option (List Text)
unfolding reorder_items item_of current_id
reorder is_word entries policy current =
    if not (text_eq policy (codes "pxe") || text_eq policy (codes "disk"))
    then none
    else reorder_items policy (current_id current) (map (item_of is_word) entries)
