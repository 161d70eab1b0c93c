-- ===== src/Inventory/Domain.antt =====
-- services/inventory/internal/domain/stock.go. A method that mutates its receiver returns the new
-- record. Timestamps and the generated identifier of a reservation are left out: nothing reads
-- them.
use eventflow_commerce.Common.{ℕ, Bool, true, false, ◌&&◌, ◌==◌, Option, none, some, if◌then◌else◌}
use eventflow_commerce.Common.Int.{ℤ, pos, ◌+ℤ◌, ◌-ℤ◌, ltb_ℤ, leb_ℤ, wrap64}
use eventflow_commerce.Errors.{Result, ok, err, validation, insufficient_inventory}

pub data ReservationStatus : Type 0 where
  reserved released committed : ReservationStatus

abbrev pub is_reserved : ReservationStatus → Bool
is_reserved reserved = true
is_reserved _ = false

abbrev pub is_released : ReservationStatus → Bool
is_released released = true
is_released _ = false

pub record Stock : Type 0 where
  pub product_id : ℕ
  pub quantity_available : ℤ
  pub quantity_reserved : ℤ
  pub version : ℕ

pub record ReserveItem : Type 0 where
  pub item_product : ℕ
  pub item_quantity : ℤ

pub record Reservation : Type 0 where
  pub order_id : ℕ
  pub product : ℕ
  pub quantity : ℤ
  pub status : ReservationStatus

-- `Stock.Reserve`
unfoldable pub reserve_stock : ℤ → Stock → Result Stock
reserve_stock q s =
    if ltb_ℤ s.quantity_available q
    then err (insufficient_inventory s.product_id q s.quantity_available)
    else ok (record s {
      quantity_available = wrap64 (s.quantity_available -ℤ q);
      quantity_reserved = wrap64 (s.quantity_reserved +ℤ q);
    })

-- `Stock.Release`
unfoldable pub release_stock : ℤ → Stock → Result Stock
release_stock q s =
    if ltb_ℤ s.quantity_reserved q
    then err (insufficient_inventory s.product_id q s.quantity_reserved)
    else ok (record s {
      quantity_reserved = wrap64 (s.quantity_reserved -ℤ q);
      quantity_available = wrap64 (s.quantity_available +ℤ q);
    })

-- `NewReservation`
unfoldable pub new_reservation : ℕ → ℕ → ℤ → Result Reservation
new_reservation order item q =
    if order == 0
    then err (validation "order_id")
    else if item == 0
    then err (validation "product_id")
    else if leb_ℤ q (pos 0)
    then err (validation "quantity")
    else ok (record { order_id = order; product = item; quantity = q; status = reserved })

abbrev release_from : ReservationStatus → Reservation → Result Reservation
release_from released r = ok r
release_from reserved r = ok (record r { status = released })
release_from committed r = err (validation "status")

-- `Reservation.Release`
unfoldable pub release_reservation : Reservation → Result Reservation
release_reservation r = release_from r.status r

-- `IsDuplicateReserve`
unfoldable pub is_duplicate_reserve : Option Reservation → ℕ → ℕ → Bool
is_duplicate_reserve none order item = false
is_duplicate_reserve (some r) order item =
    r.order_id == order && r.product == item && is_reserved r.status
