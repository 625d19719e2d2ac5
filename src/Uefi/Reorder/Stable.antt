-- ===== src/Uefi/Reorder/Stable.antt =====
-- src/boot/uefi_order.py: a second run leaves the new boot order alone.
use home_lab_pxe.Prelude.{
  ==_iff, ◌==◌, ◌<◌, ◌≡◌, refl, ap, sym, ◌∙◌, arith, Text, codes, text_eq, Bool, true, false, ◌&&◌,
  Bool-cases, inl, inr, Option, none, List, [], ◌∷◌, ◌++◌, where_is, any_is, count_is,
}
use home_lab_pxe.Uefi.Reorder.{
  is_current, picked, unpicked, Item, is_network, is_disk, is_other, is_ipv4, is_ipv6, picked,
  unpicked, buckets, arrange_pxe, arrange_disk, arrange, ids, reorder_items,
}
use home_lab_pxe.Uefi.Classify.{network, disk, other}
use home_lab_pxe.Uefi.Reorder.Order.{count-arrange, unchanged}

module _ {A : Type 0} (p q : A → Bool) where
  where_is-append : (xs ys : List A) → where_is p (xs ++ ys) ≡ where_is p xs ++ where_is p ys
  where_is-append [] ys = refl
  where_is-append (x ∷ xs) ys = grind (arith, where_is-append xs ys)

  where_is-same : (xs : List A) → where_is p (where_is p xs) ≡ where_is p xs
  where_is-same [] = refl
  where_is-same (x ∷ xs) = grind (arith, where_is-same xs)

  where_is-apart : ((x : A) → p x && q x ≡ false) → (xs : List A) → where_is p (where_is q xs) ≡ []
  where_is-apart h [] = refl
  where_is-apart h (x ∷ xs) = grind (arith, h x, where_is-apart h xs)

append_nil : {A : Type 0} (xs : List A) → xs ++ [] ≡ xs
append_nil [] = refl
append_nil (x ∷ xs) = ap (λ ys. x ∷ ys) (append_nil xs)

kinds_apart :
    (item : Item)
    → (is_disk item && is_other item ≡ false)
      × (is_disk item && is_network item ≡ false)
      × (is_other item && is_disk item ≡ false)
      × (is_other item && is_network item ≡ false)
      × (is_network item && is_disk item ≡ false)
      × (is_network item && is_other item ≡ false)
kinds_apart item =
    elim item.kind
      as (λ kind.
        ((elim kind [ disk ↦ true | _ ↦ false ]) && (elim kind [ other ↦ true | _ ↦ false ])
          ≡ false)
        × ((elim kind [ disk ↦ true | _ ↦ false ]) && (elim kind [ network ↦ true | _ ↦ false ])
            ≡ false)
        × ((elim kind [ other ↦ true | _ ↦ false ]) && (elim kind [ disk ↦ true | _ ↦ false ])
            ≡ false)
        × ((elim kind [ other ↦ true | _ ↦ false ]) && (elim kind [ network ↦ true | _ ↦ false ])
            ≡ false)
        × ((elim kind [ network ↦ true | _ ↦ false ]) && (elim kind [ disk ↦ true | _ ↦ false ])
            ≡ false)
        × ((elim kind [ network ↦ true | _ ↦ false ]) && (elim kind [ other ↦ true | _ ↦ false ])
            ≡ false)) [
              | network ↦ (refl, refl, refl, refl, refl, refl)
              | disk ↦ (refl, refl, refl, refl, refl, refl)
              | other ↦ (refl, refl, refl, refl, refl, refl)
            ]

module _ (p : Item → Bool) (items : List Item) where
  -- A filter over the three groups of the disk policy.
  where_is-disk :
      where_is p (arrange_disk items)
      ≡ where_is p (where_is is_disk items)
        ++ (where_is p (where_is is_other items) ++ where_is p (where_is is_network items))
  unfolding arrange_disk
  where_is-disk =
      where_is-append p p (where_is is_disk items)
        (where_is is_other items ++ where_is is_network items)
      ∙ ap (λ xs. where_is p (where_is is_disk items) ++ xs)
          (where_is-append p p (where_is is_other items) (where_is is_network items))

arrange_disk_same : (items : List Item) → arrange_disk (arrange_disk items) ≡ arrange_disk items
unfolding arrange_disk
arrange_disk_same items =
    rw
      (
        where_is-disk is_disk items,
        where_is-disk is_other items,
        where_is-disk is_network items,
        where_is-same is_disk is_disk items,
        where_is-same is_other is_other items,
        where_is-same is_network is_network items,
        where_is-apart is_disk is_other (λ x. (kinds_apart x).0) items,
        where_is-apart is_disk is_network (λ x. (kinds_apart x).1) items,
        where_is-apart is_other is_disk (λ x. (kinds_apart x).2) items,
        where_is-apart is_other is_network (λ x. (kinds_apart x).3) items,
        where_is-apart is_network is_disk (λ x. (kinds_apart x).4) items,
        where_is-apart is_network is_other (λ x. (kinds_apart x).5) items,
        append_nil (where_is is_disk items),
        append_nil (where_is is_other items),
      )
      refl

ipv4_disk : (item : Item) → is_ipv4 item && is_disk item ≡ false
ipv4_disk item = grind arith

ipv4_ipv6 : (item : Item) → is_ipv4 item && is_ipv6 item ≡ false
ipv4_ipv6 item = grind arith

ipv4_other : (item : Item) → is_ipv4 item && is_other item ≡ false
ipv4_other item = grind arith

disk_ipv4 : (item : Item) → is_disk item && is_ipv4 item ≡ false
disk_ipv4 item = grind arith

disk_ipv6 : (item : Item) → is_disk item && is_ipv6 item ≡ false
disk_ipv6 item = grind arith

disk_other : (item : Item) → is_disk item && is_other item ≡ false
disk_other item = grind arith

ipv6_ipv4 : (item : Item) → is_ipv6 item && is_ipv4 item ≡ false
ipv6_ipv4 item = grind arith

ipv6_disk : (item : Item) → is_ipv6 item && is_disk item ≡ false
ipv6_disk item = grind arith

ipv6_other : (item : Item) → is_ipv6 item && is_other item ≡ false
ipv6_other item = grind arith

other_ipv4 : (item : Item) → is_other item && is_ipv4 item ≡ false
other_ipv4 item = grind arith

other_disk : (item : Item) → is_other item && is_disk item ≡ false
other_disk item = grind arith

other_ipv6 : (item : Item) → is_other item && is_ipv6 item ≡ false
other_ipv6 item = grind arith

module _ (p : Item → Bool) (items : List Item) where
  -- A filter over the four groups of the PXE policy.
  where_is-buckets :
      where_is p (buckets items)
      ≡ where_is p (where_is is_ipv4 items)
        ++ (where_is p (where_is is_disk items)
            ++ (where_is p (where_is is_ipv6 items) ++ where_is p (where_is is_other items)))
  where_is-buckets =
      let d = where_is is_disk items in
      let v = where_is is_ipv6 items in
      let o = where_is is_other items in
      where_is-append p p (where_is is_ipv4 items) (d ++ (v ++ o))
      ∙ ap (λ xs. where_is p (where_is is_ipv4 items) ++ xs)
          (where_is-append p p d (v ++ o) ∙ ap (λ xs. where_is p d ++ xs) (where_is-append p p v o))

buckets_same : (items : List Item) → buckets (buckets items) ≡ buckets items
buckets_same items =
    rw
      (
        where_is-buckets is_ipv4 items,
        where_is-same is_ipv4 is_ipv4 items,
        where_is-buckets is_disk items,
        where_is-same is_disk is_disk items,
        where_is-buckets is_ipv6 items,
        where_is-same is_ipv6 is_ipv6 items,
        where_is-buckets is_other items,
        where_is-same is_other is_other items,
        where_is-apart is_ipv4 is_disk ipv4_disk items,
        where_is-apart is_ipv4 is_ipv6 ipv4_ipv6 items,
        where_is-apart is_ipv4 is_other ipv4_other items,
        where_is-apart is_disk is_ipv4 disk_ipv4 items,
        where_is-apart is_disk is_ipv6 disk_ipv6 items,
        where_is-apart is_disk is_other disk_other items,
        where_is-apart is_ipv6 is_ipv4 ipv6_ipv4 items,
        where_is-apart is_ipv6 is_disk ipv6_disk items,
        where_is-apart is_ipv6 is_other ipv6_other items,
        where_is-apart is_other is_ipv4 other_ipv4 items,
        where_is-apart is_other is_disk other_disk items,
        where_is-apart is_other is_ipv6 other_ipv6 items,
        append_nil (where_is is_ipv4 items),
        append_nil (where_is is_disk items),
        append_nil (where_is is_ipv6 items),
      )
      refl

-- An arrangement has a current entry exactly where the entries have one.
picked_none :
    (current : Option Text) (items : List Item)
    → count_is (is_current current) items ≡ 0
    → (picked current items ≡ []) × (unpicked current items ≡ items)
unfolding picked unpicked
picked_none current [] h = (refl, refl)
picked_none current (item ∷ items) h = ground (arith, picked_none current items)

picked_some :
    (current : Option Text) (items : List Item)
    → 0 < count_is (is_current current) items
    → (item : Item) × (is_current current item ≡ true) × (picked current items ≡ item ∷ [])
unfolding picked
picked_some current [] h = absurd (omega (arith, h))
picked_some current (item ∷ items) h = elim (Bool-cases (is_current current item)) [
  | inl e ↦ (item, e, rw e refl)
  | inr e ↦
      let (found, now, same) = picked_some current items (ground (arith, e)) in
      (found, now, rw e same)
]

arranged :
    (current : Option Text) (items : List Item)
    → picked current items ≡ []
    → unpicked current items ≡ items
    → arrange_pxe current items ≡ buckets items
unfolding arrange_pxe
arranged current items nothing rest = rw (nothing, rest) refl

count-arrange_pxe :
    (test : Item → Bool) (current : Option Text) (items : List Item)
    → count_is test (arrange_pxe current items) ≡ count_is test items
unfolding arrange text_eq
count-arrange_pxe test current items = count-arrange test (codes "pxe") current items

arrange_pxe_same :
    (current : Option Text) (items : List Item)
    → arrange_pxe current (arrange_pxe current items) ≡ arrange_pxe current items
unfolding arrange_pxe
arrange_pxe_same current items = elim (Bool-cases (count_is (is_current current) items == 0)) [
  | inl e ↦
      let none_now : count_is (is_current current) items ≡ 0 =
        (==_iff (count_is (is_current current) items) 0).0 e in
      let (nothing, rest) = picked_none current items none_now in
      let still : count_is (is_current current) (buckets items) ≡ 0 =
        sym (ap (count_is (is_current current)) (arranged current items nothing rest))
        ∙ count-arrange_pxe (is_current current) current items
        ∙ none_now in
      let (nothing', rest') = picked_none current (buckets items) still in
      rw (nothing, rest, nothing', rest') (buckets_same items)
  | inr e ↦
      let (item, now, first) = picked_some current items (ground (arith, e)) in
      rw (first, now) (ap (λ xs. item ∷ xs) (buckets_same (unpicked current items)))
]

arrange_same :
    (policy : Text) (current : Option Text) (items : List Item)
    → arrange policy current (arrange policy current items) ≡ arrange policy current items
unfolding arrange
arrange_same policy current items = elim (Bool-cases (text_eq policy (codes "pxe"))) [
  | inl e ↦ rw e (arrange_pxe_same current items)
  | inr e ↦ rw e (arrange_disk_same items)
]

-- Applied to the arrangement that it asked for, with the same current entry, every policy asks for
-- no change.
pub reorder_items_stable :
    (policy : Text) (current : Option Text) (items : List Item)
    → reorder_items policy current (arrange policy current items) ≡ none
unfolding reorder_items
reorder_items_stable policy current items =
    let new = arrange policy current items in
    elim (Bool-cases (any_is is_network new)) [
      | inl n ↦
          rw n (
            unchanged new (arrange policy current new) (ap ids (arrange_same policy current items)))
      | inr n ↦ rw n refl
    ]
