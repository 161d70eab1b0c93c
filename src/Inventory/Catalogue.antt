-- ===== src/Inventory/Catalogue.antt =====
-- services/inventory/internal/domain/product.go, the reads of repository/product.go, the cache-aside
-- layer of service/product.go and consumer/cache.go. The cache (redis) may fail a call and drop an
-- entry at any time, and the database may fail a call: which ones is a parameter, by the number of
-- calls made so far. Lifetimes of entries are part of what the cache drops.
pub mod Cached
use Prim.Native.String.{String}
use text.Mathlib.Text.{◌==◌ as text_eq}
use eventflow_commerce.Common.{
  ℕ, ◌+◌, ◌==◌, Bool, true, false, not, ◌&&◌, ◌||◌, Option, none, some, List, [], ◌∷◌, ◌++◌, take,
  drop, where_rows, if◌then◌else◌,
}
use eventflow_commerce.Common.Int.{ℤ}
use eventflow_commerce.Errors.{Error, Result, ok, err, driver, statement, product_not_found}
use eventflow_commerce.Messaging.Outbox.{
  EventType, product_updated, inventory_reserved, inventory_released,
}
use eventflow_commerce.Order.Domain.{is_empty}

-- `Product`
pub record Product : Type 0 where
  pub product_key : ℕ
  pub name : String
  pub description : String
  pub sku : String
  pub category : String
  pub brand : String
  pub price_cents : ℤ
  pub cost_cents : ℤ
  pub product_currency : String
  pub is_active : Bool
  pub product_version : ℕ

-- `productCacheKey` and `productFallbackCacheKey`
pub data CacheKey : Type 0 where
  product_cache_key product_fallback_cache_key : ℕ → CacheKey

-- The table of products, the cache, and which calls of either are answered.
pub record Catalogue : Type 0 where
  pub products : List Product
  pub cached : List (CacheKey × Product)
  pub calls : ℕ
  pub database_answers : ℕ → Bool
  pub cache_answers : ℕ → Bool
  pub kept : ℕ → CacheKey → Bool

abbrev pub same_key : CacheKey → CacheKey → Bool
same_key (product_cache_key a) (product_cache_key b) = a == b
same_key (product_fallback_cache_key a) (product_fallback_cache_key b) = a == b
same_key _ _ = false

abbrev pub called : Catalogue → Catalogue
called c = record c { calls = c.calls + 1 }

abbrev pub has_key : ℕ → Product → Bool
has_key id p = p.product_key == id

abbrev pub first_product : ℕ → List Product → Result Product
first_product id [] = err (product_not_found id)
first_product id (p ∷ rows) = ok p

-- `ProductRepository.GetByID`
unfoldable pub select_product : ℕ → Catalogue → Result Product × Catalogue
select_product id c = (
  if c.database_answers c.calls
      then first_product id (where_rows (has_key id) c.products)
      else err (driver statement),
  called c,
)

abbrev pub is_listed : String → Bool → Product → Bool
is_listed wanted active_only p =
    (is_empty wanted || text_eq p.category wanted) && (not active_only || p.is_active)

abbrev pub latest_first : List Product → List Product
latest_first [] = []
latest_first (p ∷ rows) = latest_first rows ++ p ∷ []

-- `ProductRepository.List`, which `ProductService.List` passes on: rows stand in the order of
-- `created_at`.
unfoldable pub list_products : String → Bool → ℕ → ℕ → Catalogue → Result (List Product) × Catalogue
list_products wanted active_only limit offset c = (
  if c.database_answers c.calls
      then ok (
          take limit
            (drop offset (latest_first (where_rows (is_listed wanted active_only) c.products))))
      else err (driver statement),
  called c,
)

abbrev pub entry : CacheKey → List (CacheKey × Product) → Option Product
entry k [] = none
entry k (e ∷ es) = if same_key e.0 k then some e.1 else entry k es

-- `GetJSON`: a hit, or none where it misses or fails.
unfoldable pub get_json : CacheKey → Catalogue → Option Product × Catalogue
get_json k c =
    (if c.cache_answers c.calls && c.kept c.calls k then entry k c.cached else none, called c)

-- `SetJSON`, whose error is dropped
unfoldable pub set_json : CacheKey → Product → Catalogue → Catalogue
set_json k p c =
    if c.cache_answers c.calls then record (called c) { cached = (k, p) ∷ c.cached } else called c

-- What `GetByID` returns: a product and whether it is stale.
abbrev pub Read : Type 0
Read = Result (Product × Bool) × Catalogue

abbrev pub read_fresh : Result Product × Catalogue → Read
read_fresh (ok p, c) = (ok (p, false), c)
read_fresh (err e, c) = (err e, c)

abbrev pub or_stale : Error → Option Product × Catalogue → Read
or_stale e (some p, c) = (ok (p, true), c)
or_stale e (none, c) = (err e, c)

abbrev pub on_miss : ℕ → Result Product × Catalogue → Read
on_miss id (ok p, c) = (
  ok (p, false),
  set_json (product_fallback_cache_key id) p (set_json (product_cache_key id) p c),
)
on_miss id (err e, c) = or_stale e (get_json (product_fallback_cache_key id) c)

abbrev pub on_cached : ℕ → Option Product × Catalogue → Read
on_cached id (some p, c) = (ok (p, false), c)
on_cached id (none, c) = on_miss id (select_product id c)

-- `ProductService.GetByID`, with a cache or without
unfoldable pub get_product : Bool → ℕ → Catalogue → Read
get_product false id c = read_fresh (select_product id c)
get_product true id c = on_cached id (get_json (product_cache_key id) c)

-- What `productIDsFromEvent` reads of an event, with `none` for an item without an id.
pub record CacheEvent : Type 0 where
  pub kind : EventType
  pub changed_product : Option ℕ
  pub item_products : List (Option ℕ)

abbrev pub known_ids : List (Option ℕ) → List ℕ
known_ids [] = []
known_ids (none ∷ ids) = known_ids ids
known_ids (some id ∷ ids) = id ∷ known_ids ids

-- `productIDsFromEvent`
unfoldable pub product_ids_from_event : CacheEvent → List ℕ
product_ids_from_event e = ids_of e.kind
  where
    ids_of : EventType → List ℕ
    ids_of product_updated = known_ids (e.changed_product ∷ [])
    ids_of inventory_reserved = known_ids e.item_products
    ids_of inventory_released = known_ids e.item_products
    ids_of _ = []

abbrev pub delete_key : CacheKey → List (CacheKey × Product) → List (CacheKey × Product)
delete_key k es = where_rows (λ e. not (same_key e.0 k)) es

abbrev pub delete_products : List ℕ → List (CacheKey × Product) → List (CacheKey × Product)
delete_products [] es = es
delete_products (id ∷ ids) es = delete_products ids (delete_key (product_cache_key id) es)

-- `Delete`, in one call for all keys
abbrev pub delete_cached : List ℕ → Catalogue → Result (Unit {0}) × Catalogue
delete_cached [] c = (ok tt, c)
delete_cached (id ∷ ids) c =
    if c.cache_answers c.calls
    then (ok tt, record (called c) { cached = delete_products (id ∷ ids) c.cached })
    else (err Error.remote, called c)

-- `CacheConsumer.handle`
unfoldable pub invalidate : CacheEvent → Catalogue → Result (Unit {0}) × Catalogue
invalidate e c = delete_cached (product_ids_from_event e) c
