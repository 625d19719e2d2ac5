-- ===== src/Uefi/Reorder/Order.antt =====
-- src/boot/uefi_order.py: the new boot order holds the same entries.
use home_lab_pxe.Prelude.{
  ℕ, ◌+◌, ◌≡◌, refl, ap, sym, ◌∙◌, arith, Text, codes, text_eq, text_eq_self, Bool, true,
  Bool-cases, inl, inr, Option, none, some, List, [], ◌∷◌, ◌++◌, map, where_is, any_is, count_is,
  count_is-append, if◌then◌else◌,
}
use home_lab_pxe.Uefi.Reorder.{
  BootEntry, Item, is_network, is_disk, is_other, is_ipv4, is_ipv6, picked, unpicked, buckets,
  arrange_pxe, arrange_disk, arrange, ids, same_ids, current_id, reorder_items, reorder, upper,
  item_of, changed,
}

module _ (test : Item → Bool) where
  disk_buckets :
      (items : List Item)
      → count_is test (where_is is_disk items)
          + (count_is test (where_is is_other items) + count_is test (where_is is_network items))
        ≡ count_is test items
  disk_buckets [] = refl
  disk_buckets (item ∷ items) = grind (arith, disk_buckets items)

  pxe_buckets :
      (items : List Item)
      → count_is test (where_is is_ipv4 items)
          + (count_is test (where_is is_disk items)
              + (count_is test (where_is is_ipv6 items) + count_is test (where_is is_other items)))
        ≡ count_is test items
  pxe_buckets [] = refl
  pxe_buckets (item ∷ items) = grind (arith, pxe_buckets items)

  pick_count :
      (current : Option Text) (items : List Item)
      → count_is test (picked current items) + count_is test (unpicked current items)
        ≡ count_is test items
  unfolding picked unpicked
  pick_count current [] = refl
  pick_count current (item ∷ items) = ground (arith, pick_count current items)

  pub count-arrange :
      (policy : Text) (current : Option Text) (items : List Item)
      → count_is test (arrange policy current items) ≡ count_is test items
  unfolding arrange arrange_pxe arrange_disk
  count-arrange policy current items = elim (Bool-cases (text_eq policy (codes "pxe"))) [
    | inl e ↦ rw e (
        omega (
          arith,
          count_is-append test (picked current items) (buckets (unpicked current items)),
          count_is-append test (where_is is_ipv4 (unpicked current items)) (
              where_is is_disk (unpicked current items)
              ++ (where_is is_ipv6 (unpicked current items)
                  ++ where_is is_other (unpicked current items))),
          count_is-append test (where_is is_disk (unpicked current items)) (
              where_is is_ipv6 (unpicked current items)
              ++ where_is is_other (unpicked current items)),
          count_is-append test (where_is is_ipv6 (unpicked current items))
              (where_is is_other (unpicked current items)),
          pxe_buckets (unpicked current items),
          pick_count current items,
        ))
    | inr e ↦ rw e (
        omega (
          arith,
          count_is-append test (where_is is_disk items)
              (where_is is_other items ++ where_is is_network items),
          count_is-append test (where_is is_other items) (where_is is_network items),
          disk_buckets items,
        ))
  ]

-- Counting over ids.
count-ids :
    (p : Text → Bool) (items : List Item)
    → count_is p (ids items) ≡ count_is (λ item. p item.boot_id) items
count-ids p [] = refl
count-ids p (item ∷ items) = ap (λ n. (if p item.boot_id then 1 else 0) + n) (count-ids p items)

same_ids_self : (is : List Text) → same_ids is is ≡ true
unfolding same_ids
same_ids_self [] = refl
same_ids_self (i ∷ is) = rw (text_eq_self i) (same_ids_self is)

changed-ids :
    (items new : List Item) (order : List Text) → changed items new ≡ some order → ids new ≡ order
changed-ids items new order e = grind (arith, e)

pub unchanged : (items new : List Item) → ids new ≡ ids items → changed items new ≡ none
unchanged items new e = rw (e, same_ids_self (ids items)) refl

ids-item_of :
    (is_word : ℕ → Bool) (entries : List BootEntry)
    → ids (map (item_of is_word) entries) ≡ map (λ entry. upper entry.boot_id) entries
unfolding item_of
ids-item_of is_word [] = refl
ids-item_of is_word (entry ∷ entries) =
    ap (λ is. upper entry.boot_id ∷ is) (ids-item_of is_word entries)

reorder_items-ids :
    (policy : Text) (current : Option Text) (items : List Item) (order : List Text)
    → reorder_items policy current items ≡ some order
    → ids (arrange policy current items) ≡ order
unfolding reorder_items
reorder_items-ids policy current items order e = elim (Bool-cases (any_is is_network items)) [
  | inl n ↦ changed-ids items (arrange policy current items) order (rw n at e)
  | inr n ↦ ground (arith, e, n)
]

reorder-items :
    (is_word : ℕ → Bool) (entries : List BootEntry) (policy : Text) (current : Option Text)
    (order : List Text)
    → reorder is_word entries policy current ≡ some order
    → reorder_items policy (current_id current) (map (item_of is_word) entries) ≡ some order
unfolding reorder
reorder-items is_word entries policy current order e = ground (arith, e)

-- The boot order that `reorder` gives holds every id as often as the entries do.
pub reorder-count :
    (is_word : ℕ → Bool) (entries : List BootEntry) (policy : Text) (current : Option Text)
    (order : List Text)
    → reorder is_word entries policy current ≡ some order
    → (boot_id : Text)
    → count_is (text_eq boot_id) order
      ≡ count_is (text_eq boot_id) (map (λ entry. upper entry.boot_id) entries)
reorder-count is_word entries policy current order e boot_id =
    let items = map (item_of is_word) entries in
    let new = arrange policy (current_id current) items in
    ap (count_is (text_eq boot_id)) (
      sym (
        reorder_items-ids policy (current_id current) items order
          (reorder-items is_word entries policy current order e)))
    ∙ count-ids (text_eq boot_id) new
    ∙ count-arrange (λ item. text_eq boot_id item.boot_id) policy (current_id current) items
    ∙ sym (count-ids (text_eq boot_id) items)
    ∙ ap (count_is (text_eq boot_id)) (ids-item_of is_word entries)
