-- ===== src/Tests/Catalogue.antt =====
-- Concrete reads of products.
use eventflow_commerce.Inventory.Catalogue.{select_product}
use eventflow_commerce.Inventory.Catalogue.{get_json}
use eventflow_commerce.Common.{◌≡◌, refl, true, [], ◌∷◌}
use eventflow_commerce.Common.Int.{pos}
use eventflow_commerce.Errors.{ok}
use eventflow_commerce.Inventory.Catalogue.{
  Product, Catalogue, product_fallback_cache_key, get_product,
}

abbrev lamp : Product
lamp = record {
  product_key = 7;
  name = "lamp";
  description = "";
  sku = "L7";
  category = "";
  brand = "";
  price_cents = pos 999;
  cost_cents = pos 500;
  product_currency = "USD";
  is_active = true;
  product_version = 1;
}

-- The product is gone, and the cache has it for a failure of the database.
abbrev catalogue : Catalogue
catalogue = record {
  products = [];
  cached = (product_fallback_cache_key 7, lamp) ∷ [];
  calls = 0;
  database_answers = λ n. true;
  cache_answers = λ n. true;
  kept = λ n k. true;
}

-- A product that does not exist is read as stale.
stale_read : (get_product true 7 catalogue).0 ≡ ok (lamp, true)
unfolding get_product get_json select_product
stale_read = refl
