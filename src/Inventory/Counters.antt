-- ===== src/Inventory/Counters.antt =====
-- The SQL updates of the counters against the methods of the domain, domain/stock.go, which the
-- repository does not call.
use eventflow_commerce.Common.{
  ℕ, ◌≡◌, refl, ap, ◌^◌, ◌≤◌, ◌<◌, Bool, true, false, not, ◌&&◌, ◌==◌, Bool-cases, inl, inr, List,
  [], ◌∷◌, All, all_rows, length, where_rows, update_rows, arith, if◌then◌else◌,
}
use eventflow_commerce.Common.Int.{
  ℤ, pos, ◌+ℤ◌, ◌-ℤ◌, leb_ℤ, ltb_ℤ, wrap64, wrap64_id, int_laws, IsInt64, pos_part, neg_part,
}
use eventflow_commerce.Errors.{Result, ok, err, driver, statement}
use eventflow_commerce.Database.{run}
use eventflow_commerce.Inventory.Domain.{Stock, ReserveItem, reserve_stock}
use eventflow_commerce.Inventory.Rows.{
  Tables, fits_int4, row_allowed, add_counters, adjusted, update_counters, can_supply, of_product,
}

-- The row after a method of the domain, which leaves it when it returns an error.
abbrev pub row_after : Stock → Result Stock → Stock
row_after s (ok t) = t
row_after s (err e) = s

abbrev pub accepts : Result Stock → Bool
accepts (ok t) = true
accepts (err e) = false

-- The rows after `Stock.Reserve` of each row of a product.
abbrev pub reserve_rows : ℕ → ℤ → List Stock → List Stock
reserve_rows p q rows = update_rows (of_product p) (λ s. row_after s (reserve_stock q s)) rows

-- The rows of the product whose `Stock.Reserve` returns no error.
abbrev pub reservable_rows : ℕ → ℤ → List Stock → List Stock
reservable_rows p q rows = where_rows (λ s. of_product p s && accepts (reserve_stock q s)) rows

-- Counters that are INTEGER columns and not negative, and a quantity that is an INTEGER.
abbrev pub IsSmall : ℤ → Type 0
IsSmall a = (pos_part a < 2 ^ 31) × (neg_part a ≤ 2 ^ 31)

abbrev pub HasSmallCounters : Stock → Type 0
HasSmallCounters s = IsSmall s.quantity_available × IsSmall s.quantity_reserved

sub_range : (a q : ℤ) → IsSmall a → IsSmall q → IsInt64 (a -ℤ q)
unfolding ◌-ℤ◌
sub_range a q ha hq = ground arith

add_range : (a q : ℤ) → IsSmall a → IsSmall q → IsInt64 (a +ℤ q)
unfolding ◌+ℤ◌
add_range a q ha hq = ground arith

sub_exact : (a q : ℤ) → IsSmall a → IsSmall q → wrap64 (a -ℤ q) ≡ a +ℤ (pos 0 -ℤ q)
sub_exact a q ha hq = rw (wrap64_id (a -ℤ q) (sub_range a q ha hq)) (omega int_laws)

add_exact : (a q : ℤ) → IsSmall a → IsSmall q → wrap64 (a +ℤ q) ≡ a +ℤ q
add_exact a q ha hq = wrap64_id (a +ℤ q) (add_range a q ha hq)

leb_of_ltb : (a b : ℤ) → leb_ℤ b a ≡ not (ltb_ℤ a b)
leb_of_ltb a b = ground arith

supplied_row :
    (i : ReserveItem) (s : Stock)
    → HasSmallCounters s
    → IsSmall i.item_quantity
    → (if can_supply i s then add_counters (pos 0 -ℤ i.item_quantity) i.item_quantity s else s)
      ≡ (if of_product i.item_product s then row_after s (reserve_stock i.item_quantity s) else s)
unfolding reserve_stock
supplied_row i s h q =
    rw
      (
        sub_exact s.quantity_available i.item_quantity h.0 q,
        add_exact s.quantity_reserved i.item_quantity h.1 q,
      )
      (elim (Bool-cases (s.product_id == i.item_product)) [
        | inl e ↦ elim (Bool-cases (ltb_ℤ s.quantity_available i.item_quantity)) [
          | inl f ↦ rw (e, leb_of_ltb s.quantity_available i.item_quantity, f) refl
          | inr f ↦ rw (e, leb_of_ltb s.quantity_available i.item_quantity, f) refl
        ]
        | inr e ↦ rw e refl
      ])

supplied_rows :
    (i : ReserveItem) (rows : List Stock)
    → All HasSmallCounters rows
    → IsSmall i.item_quantity
    → adjusted (can_supply i) (pos 0 -ℤ i.item_quantity) i.item_quantity rows
      ≡ reserve_rows i.item_product i.item_quantity rows
supplied_rows i [] h q = refl
supplied_rows i (s ∷ rows) h q = rw (supplied_row i s h.0 q, supplied_rows i rows h.1 q) refl

supplied_count :
    (i : ReserveItem) (rows : List Stock)
    → where_rows (can_supply i) rows ≡ reservable_rows i.item_product i.item_quantity rows
unfolding reserve_stock
supplied_count i [] = refl
supplied_count i (s ∷ rows) =
    rw (leb_of_ltb s.quantity_available i.item_quantity)
      (elim (Bool-cases (s.product_id == i.item_product)) [
        | inl e ↦ elim (Bool-cases (ltb_ℤ s.quantity_available i.item_quantity)) [
          | inl f ↦ rw (e, f) (supplied_count i rows)
          | inr f ↦ rw (e, f) (ap (λ r. s ∷ r) (supplied_count i rows))
        ]
        | inr e ↦ rw e (supplied_count i rows)
      ])

-- What an update of the counters amounts to, when the table's checks let it through.
abbrev pub updated : Bool → Tables → List Stock → ℕ → Result ℕ × Tables
updated true t rows n = (ok n, record t { inventory = rows })
updated false t rows n = (err (driver statement), t)

-- The update of Reserve is the domain's Stock.Reserve on the rows of the product: it leaves the rows
-- that the method returns, or all rows where the result is against a check of the table, and it
-- counts the rows that the method accepts; if the counters and the quantity are INTEGER.
pub update_counters-reserve_stock :
    (i : ReserveItem) (t : Tables)
    → All HasSmallCounters t.inventory
    → IsSmall i.item_quantity
    → run
        (update_counters (can_supply i) i.item_quantity (pos 0 -ℤ i.item_quantity) i.item_quantity)
        t
      ≡ updated
          (all_rows row_allowed (reserve_rows i.item_product i.item_quantity t.inventory))
          t
          (reserve_rows i.item_product i.item_quantity t.inventory)
          (length (reservable_rows i.item_product i.item_quantity t.inventory))
unfolding update_counters run
update_counters-reserve_stock i t h q =
    let f : fits_int4 i.item_quantity ≡ true = ground arith in
    rw (supplied_rows i t.inventory h q, supplied_count i t.inventory, f)
      (elim (Bool-cases
        (all_rows row_allowed (reserve_rows i.item_product i.item_quantity t.inventory))) [
          | inl e ↦ rw e refl
          | inr e ↦ rw e refl
        ])
