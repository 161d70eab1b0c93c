-- ===== src/Inventory/Invariant.antt =====
-- The invariant of the inventory tables: the reserved counter of every product is the sum of its
-- reservations that are still held, no counter is negative, and a product has one row.
pub mod Reserve
pub mod Release
pub mod Consumer
use eventflow_commerce.Common.{
  ℕ, ◌≡◌, ◌≢◌, refl, ◌⊎◌, inl, inr, Bool, Bool-cases, ==_iff, subst, true, false, ◌&&◌, List, [],
  ◌∷◌, ◌==◌, ◌<◌, length, where_rows, update_rows, any_row, all_rows, All, if◌then◌else◌, arith,
}
use eventflow_commerce.Common.Int.{ℤ, pos, ◌+ℤ◌, ◌-ℤ◌, ◌≤ℤ◌, +ℤ_comm, int_laws}
use eventflow_commerce.Errors.{Result, ok, err, driver, statement}
use eventflow_commerce.Database.{Prog, run, ◌>>=◌, ◌>>◌}
use eventflow_commerce.Inventory.Domain.{
  Stock, Reservation, ReserveItem, reserved, is_reserved, new_reservation,
}
use eventflow_commerce.Inventory.Rows.{
  Tables, row_allowed, adjusted, add_counters, can_supply, of_product, update_counters,
  has_reserved_row, insert_reservation, insert_movement, available_quantity, insertable, fits_int4,
  holds_item, reservation,
}
use eventflow_commerce.Inventory.Repository.{reserve_item, shortage, record_reservation}

-- The quantity of a product that reservations hold.
abbrev pub held : ℕ → List Reservation → ℤ
held p [] = pos 0
held p (r ∷ rows) =
    if r.product == p && is_reserved r.status then r.quantity +ℤ held p rows else held p rows

-- No row of the list is about the product.
abbrev pub IsAbsent : ℕ → List Stock → Type 0
IsAbsent p rows = All (λ s. s.product_id ≢ p) rows

-- A product has at most one row.
abbrev pub HasOneRow : List Stock → Type 0
HasOneRow [] = Unit
HasOneRow (s ∷ rows) = IsAbsent s.product_id rows × HasOneRow rows

abbrev pub IsCounted : List Reservation → Stock → Type 0
IsCounted held_rows s = s.quantity_reserved ≡ held s.product_id held_rows

abbrev pub IsNonneg : Stock → Type 0
IsNonneg s = (pos 0 ≤ℤ s.quantity_available) × (pos 0 ≤ℤ s.quantity_reserved)

pub record IsConsistent (t : Tables) : Type 0 where
  pub counted : All (IsCounted t.reservations) t.inventory
  pub nonneg : All IsNonneg t.inventory
  pub one_row : HasOneRow t.inventory

pub all_rows-IsNonneg : (rows : List Stock) → all_rows row_allowed rows ≡ true → All IsNonneg rows
all_rows-IsNonneg [] h = tt
all_rows-IsNonneg (s ∷ rows) h = ground (arith, all_rows-IsNonneg rows)

-- An update of the counters leaves the identity of every row.
IsAbsent-adjusted :
    (p : ℕ) (test : Stock → Bool) (da dr : ℤ) (rows : List Stock)
    → IsAbsent p rows
    → IsAbsent p (adjusted test da dr rows)
IsAbsent-adjusted p test da dr [] h = tt
IsAbsent-adjusted p test da dr (s ∷ rows) h =
    (ground arith, IsAbsent-adjusted p test da dr rows h.1)

pub HasOneRow-adjusted :
    (test : Stock → Bool) (da dr : ℤ) (rows : List Stock)
    → HasOneRow rows
    → HasOneRow (adjusted test da dr rows)
HasOneRow-adjusted test da dr [] h = tt
HasOneRow-adjusted test da dr (s ∷ rows) h = (
  elim (Bool-cases (test s)) [
    | inl e ↦ rw e (IsAbsent-adjusted s.product_id test da dr rows h.0)
    | inr e ↦ rw e (IsAbsent-adjusted s.product_id test da dr rows h.0)
  ],
  HasOneRow-adjusted test da dr rows h.1,
)

-- Rows of other products keep their counters and what is held of them.
absent_supply :
    (i : ReserveItem) (r : Reservation) (held_rows : List Reservation) (rows : List Stock)
    → r.product ≡ i.item_product
    → IsAbsent i.item_product rows
    → All (IsCounted held_rows) rows
    → All
        (IsCounted (r ∷ held_rows))
        (adjusted (can_supply i) (pos 0 -ℤ i.item_quantity) i.item_quantity rows)
      × (length (where_rows (can_supply i) rows) ≡ 0)
absent_supply i r held_rows [] e away h = (tt, refl)
absent_supply i r held_rows (s ∷ rows) e away h =
    ground (arith, absent_supply i r held_rows rows e away.1 h.1)

pub supply-IsCounted :
    (i : ReserveItem) (r : Reservation) (held_rows : List Reservation) (rows : List Stock)
    → r.product ≡ i.item_product
    → r.quantity ≡ i.item_quantity
    → r.status ≡ reserved
    → HasOneRow rows
    → 0 < length (where_rows (can_supply i) rows)
    → All (IsCounted held_rows) rows
    → All
        (IsCounted (r ∷ held_rows))
        (adjusted (can_supply i) (pos 0 -ℤ i.item_quantity) i.item_quantity rows)
supply-IsCounted i r held_rows [] ep eq es one some_row h = tt
supply-IsCounted i r held_rows (s ∷ rows) ep eq es one some_row h =
    elim (Bool-cases (s.product_id == i.item_product)) [
      | inl same ↦
          let p : s.product_id ≡ i.item_product = (==_iff _ _).0 same in
          let away : IsAbsent i.item_product rows = subst (λ x. IsAbsent x rows) p one.0 in
          ground (
            arith,
            absent_supply i r held_rows rows ep away h.1,
            +ℤ_comm r.quantity (held s.product_id held_rows),
          )
      | inr other ↦ ground (arith, supply-IsCounted i r held_rows rows ep eq es one.1)
    ]
