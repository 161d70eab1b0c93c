-- ===== src/Inventory/Products.antt =====
-- services/inventory/internal/handler/products.go: the reads of products over the cached service, and of
-- stock counters. The path and the query come parsed, as in the handler of orders.
use Prim.Native.String.{String}
use eventflow_commerce.Common.{
  ℕ, ◌≡◌, ◌≤◌, ◌<◌, ◌⊎◌, false, Bool, true, Option, none, some, List, length, All, ltb,
  if◌then◌else◌,
}
use eventflow_commerce.Common.Int.{ℤ, pos, negsuc}
use eventflow_commerce.Errors.{
  Error, Result, ok, err, code, http_code, is_app_error, bad_request, validation, internal,
}
use eventflow_commerce.Database.{World}
use eventflow_commerce.Order.Handler.{Raw, absent, unreadable, read}
use eventflow_commerce.Inventory.Domain.{Stock}
use eventflow_commerce.Inventory.Rows.{Tables}
use eventflow_commerce.Inventory.Repository.{get_by_product_id}
use eventflow_commerce.Inventory.Catalogue.{
  Product, Catalogue, is_listed, list_products, get_product,
}
use eventflow_commerce.Inventory.Catalogue.Cached.{IsOf, IsFiled, get_product-IsOf}

-- `listProductsResponse`, `productResponse` with the header X-Cache, `inventoryResponse`, or an error by
-- its status and its code.
pub data ProductsResponse : Type 0 where
  page : List Product → ℕ → ℕ → ProductsResponse
  product : Product → Bool → ProductsResponse
  counters : ℕ → ℤ → ℤ → ProductsResponse
  refused : ℕ → String → ProductsResponse

-- `writeError`
unfoldable pub write_error : Error → ProductsResponse
write_error e =
    let shown = if is_app_error e then e else internal in refused (http_code shown) (code shown)

abbrev pub respond {ℓ} :
    {A : Type ℓ} {W : Type 0} → (A → ProductsResponse) → Result A × W → ProductsResponse × W
respond f (ok a, w) = (f a, w)
respond f (err e, w) = (write_error e, w)

abbrev pub default_list_limit : ℕ
default_list_limit = 20

abbrev pub max_list_limit : ℕ
max_list_limit = 100

abbrev not_negative : String → ℕ → Raw ℤ → Result ℕ
not_negative field given absent = ok given
not_negative field given unreadable = err (validation field)
not_negative field given (read (pos n)) = ok n
not_negative field given (read (negsuc n)) = err (validation field)

abbrev capped : ℕ → ℕ
capped n = if ltb max_list_limit n then max_list_limit else n

abbrev with_offset : ℕ → Result ℕ → Result (ℕ × ℕ)
with_offset limit (err e) = err e
with_offset limit (ok offset) = ok (capped limit, offset)

abbrev with_limit : Raw ℤ → Result ℕ → Result (ℕ × ℕ)
with_limit offset (err e) = err e
with_limit offset (ok limit) = with_offset limit (not_negative "offset" 0 offset)

-- `parsePagination`
unfoldable pub parse_pagination : Raw ℤ → Raw ℤ → Result (ℕ × ℕ)
parse_pagination limit offset = with_limit offset (not_negative "limit" default_list_limit limit)

abbrev pub list_page : String → Bool → Result (ℕ × ℕ) → Catalogue → ProductsResponse × Catalogue
list_page category active_only (err e) c = (write_error e, c)
list_page category active_only (ok (limit, offset)) c =
    respond (λ products. page products limit offset)
      (list_products category active_only limit offset c)

-- `List`
unfoldable pub handle_list :
    Raw ℤ → Raw ℤ → String → Bool → Catalogue → ProductsResponse × Catalogue
handle_list limit offset category active_only c =
    list_page category active_only (parse_pagination limit offset) c

-- `Get`
unfoldable pub handle_get : Bool → Option ℕ → Catalogue → ProductsResponse × Catalogue
handle_get has_cache none c = (write_error (bad_request "invalid product id"), c)
handle_get has_cache (some id) c =
    respond (λ (r : Product × Bool). product r.0 r.1) (get_product has_cache id c)

-- `Inventory`
unfoldable pub handle_inventory :
    Option ℕ → World Tables (Unit {0}) → ProductsResponse × World Tables (Unit {0})
handle_inventory none w = (write_error (bad_request "invalid product id"), w)
handle_inventory (some id) w =
    respond (λ (s : Stock). counters id s.quantity_available s.quantity_reserved)
      (get_by_product_id id w)

-- The limit of a page for what the query says: 20 without one, the given one up to 100, else 100.
abbrev pub IsLimit : Raw ℤ → ℕ → Type 0
IsLimit absent n = n ≡ 20
IsLimit unreadable n = ⊥
IsLimit (read (pos m)) n = ((n ≡ m) × (m ≤ 100)) ⊎ ((n ≡ 100) × (100 < m))
IsLimit (read (negsuc m)) n = ⊥

abbrev pub IsOffset : Raw ℤ → ℕ → Type 0
IsOffset absent n = n ≡ 0
IsOffset unreadable n = ⊥
IsOffset (read (pos m)) n = n ≡ m
IsOffset (read (negsuc m)) n = ⊥

-- A number of the query that is not one, or is negative.
abbrev pub IsMalformed : Raw ℤ → Type 0
IsMalformed absent = ⊥
IsMalformed unreadable = Unit
IsMalformed (read (pos m)) = ⊥
IsMalformed (read (negsuc m)) = Unit

-- What a query for a page is answered with: a page, or an error where the query is malformed or the
-- database does not answer.
abbrev pub IsPage : Raw ℤ → Raw ℤ → String → Bool → Bool → ProductsResponse → Type 0
IsPage asked_limit asked_offset category active_only available (page products limit offset) =
    IsLimit asked_limit limit
    × IsOffset asked_offset offset
    × (length products ≤ limit)
    × All (λ p. is_listed category active_only p ≡ true) products
IsPage asked_limit asked_offset category active_only available (product p stale) = ⊥
IsPage asked_limit asked_offset category active_only available (counters id free reserved) = ⊥
IsPage asked_limit asked_offset category active_only available (refused status text) =
    IsMalformed asked_limit ⊎ IsMalformed asked_offset ⊎ (available ≡ false)

-- What `parsePagination` makes of a query.
abbrev IsParsed : Raw ℤ → Raw ℤ → Result (ℕ × ℕ) → Type 0
IsParsed asked_limit asked_offset (ok (limit, offset)) =
    IsLimit asked_limit limit × IsOffset asked_offset offset
IsParsed asked_limit asked_offset (err e) = IsMalformed asked_limit ⊎ IsMalformed asked_offset

-- The product of this id, fresh or stale, or an error.
abbrev pub Shows : ℕ → ProductsResponse → Type 0
Shows id (product p stale) = p.product_key ≡ id
Shows id (refused status text) = Unit
Shows id (page products limit offset) = ⊥
Shows id (counters other available reserved) = ⊥

shown_lem :
    (id : ℕ) (o : Result (Product × Bool) × Catalogue)
    → IsOf id o.0
    → Shows id (respond (λ (r : Product × Bool). product r.0 r.1) o).0
unfolding write_error
shown_lem id (ok (p, stale), c) h = h
shown_lem id (err e, c) h = tt

-- Get shows the product of the id in the path, fresh or stale, or an error, whatever the cache and the
-- database fail, if every entry of the cache stands under the id of its product.
pub handle_get-Shows :
    (has_cache : Bool) (id : ℕ) (c : Catalogue)
    → IsFiled c
    → Shows id (handle_get has_cache (some id) c).0
unfolding handle_get
handle_get-Shows has_cache id c h =
    shown_lem id (get_product has_cache id c) (get_product-IsOf has_cache id c h).0
