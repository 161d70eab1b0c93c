-- ===== src/Inventory/Handler.antt =====
-- services/inventory/internal/handler/reservations.go. Identifiers come parsed, `none` where
-- `uuid.Parse` or the decoder of the body returns an error.
use Prim.Native.String.{String}
use eventflow_commerce.Common.{ℕ, Option, none, some, List, [], ◌∷◌, if◌then◌else◌}
use eventflow_commerce.Common.Int.{ℤ, pos, leb_ℤ}
use eventflow_commerce.Errors.{
  Error, Result, ok, err, code, http_code, is_app_error, bad_request, validation, internal,
}
use eventflow_commerce.Database.{World}
use eventflow_commerce.Database.Actions.{◌>>=◌, lift, return}
use eventflow_commerce.Inventory.Domain.{ReserveItem}
use eventflow_commerce.Inventory.Rows.{Tables}
use eventflow_commerce.Inventory.Repository.{reserve, release_order}

-- `reserveItemRequest`
pub record ReserveItemRequest : Type 0 where
  pub posted_product : Option ℕ
  pub posted_quantity : ℤ

-- `reserveRequest`
pub record ReserveRequest : Type 0 where
  pub posted_order : Option ℕ
  pub posted_items : List ReserveItemRequest

-- `reserveResponse`, no content, or an error by its status and its code.
pub data ReservationResponse : Type 0 where
  created : ℕ → List ReserveItem → ReservationResponse
  no_content : ReservationResponse
  refused : ℕ → String → ReservationResponse

-- `writeError`
unfoldable pub write_error : Error → ReservationResponse
write_error e =
    let shown = if is_app_error e then e else internal in refused (http_code shown) (code shown)

abbrev pub respond {ℓ} :
    {A : Type ℓ} {W : Type 0} → (A → ReservationResponse) → Result A × W → ReservationResponse × W
respond f (ok a, w) = (f a, w)
respond f (err e, w) = (write_error e, w)

abbrev pub parsed_line : Option ℕ → ℤ → Result ReserveItem
parsed_line none q = err (validation "items.product_id")
parsed_line (some p) q =
    if leb_ℤ q (pos 0)
    then err (validation "items.quantity")
    else ok (record { item_product = p; item_quantity = q })

abbrev pub put_line : Result ReserveItem → Result (List ReserveItem) → Result (List ReserveItem)
put_line (err e) rest = err e
put_line (ok i) (ok items) = ok (i ∷ items)
put_line (ok i) (err e) = err e

-- The loop of `Reserve` over the items of the request.
unfoldable pub parse_lines : List ReserveItemRequest → Result (List ReserveItem)
parse_lines [] = ok []
parse_lines (i ∷ items) =
    put_line (parsed_line i.posted_product i.posted_quantity) (parse_lines items)

abbrev pub order_of : Option ℕ → Result ℕ
order_of none = err (validation "order_id")
order_of (some id) = ok id

abbrev pub some_items : List ReserveItemRequest → Result (List ReserveItemRequest)
some_items [] = err (validation "items")
some_items (i ∷ items) = ok (i ∷ items)

-- The checks of `Reserve` before the repository is called.
unfoldable pub requested_reservation : Option ReserveRequest → Result (ℕ × List ReserveItem)
requested_reservation none = err (bad_request "invalid request body")
requested_reservation (some req) = elim (order_of req.posted_order) [
  | err e ↦ err e
  | ok order ↦ elim (some_items req.posted_items) [
    | err e ↦ err e
    | ok lines ↦ elim (parse_lines lines) [ err e ↦ err e | ok items ↦ ok (order, items) ]
  ]
]

-- `Reserve`
unfoldable pub handle_reserve :
    Option ReserveRequest → World Tables (Unit {0}) → ReservationResponse × World Tables (Unit {0})
handle_reserve body w =
    respond (λ (r : ℕ × List ReserveItem). created r.0 r.1)
      ((lift (requested_reservation body) >>= λ (r : ℕ × List ReserveItem).
          reserve r.0 r.1 >>= λ _. return r)
        w)

-- `Release`
unfoldable pub handle_release :
    Option ℕ → World Tables (Unit {0}) → ReservationResponse × World Tables (Unit {0})
handle_release none w = (write_error (bad_request "invalid order id"), w)
handle_release (some order) w = respond (λ _. no_content) (release_order order w)
