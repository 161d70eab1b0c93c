-- ===== src/Inventory/Catalogue/Cached.antt =====
-- What the cache may be trusted with.
use eventflow_commerce.Common.{
  ℕ, ◌≡◌, refl, sym, ap, ◌∙◌, Bool, true, false, not, ◌&&◌, ◌==◌, ==_iff, Bool-cases, inl, inr,
  Option, none, some, List, [], ◌∷◌, All, All-where_rows, where_rows,
}
use eventflow_commerce.Errors.{Error, Result, ok, err}
use eventflow_commerce.Inventory.Catalogue.{
  Product, CacheKey, product_cache_key, product_fallback_cache_key, Catalogue, same_key, has_key,
  first_product, select_product, entry, get_json, set_json, read_fresh, or_stale, on_miss,
  on_cached, get_product, CacheEvent, delete_products, delete_key, delete_cached, invalidate,
  product_ids_from_event,
}

abbrev pub key_of : CacheKey → ℕ
key_of (product_cache_key id) = id
key_of (product_fallback_cache_key id) = id

-- Every entry stands under the id of its product.
abbrev pub IsFiled : Catalogue → Type 0
IsFiled c = All (λ e. (e.1).product_key ≡ key_of e.0) c.cached

-- A product of this id, if there is one.
abbrev pub IsOf : ℕ → Result (Product × Bool) → Type 0
IsOf id (ok (p, stale)) = p.product_key ≡ id
IsOf id (err e) = Unit

same_key_lem : (a b : CacheKey) → same_key a b ≡ true → key_of a ≡ key_of b
same_key_lem (product_cache_key a) (product_cache_key b) h = (==_iff a b).0 h
same_key_lem (product_fallback_cache_key a) (product_fallback_cache_key b) h = (==_iff a b).0 h
same_key_lem (product_cache_key a) (product_fallback_cache_key b) h = absurd (cc)
same_key_lem (product_fallback_cache_key a) (product_cache_key b) h = absurd (cc)

abbrev HasIdIn : ℕ → Option Product → Type 0
HasIdIn id none = Unit
HasIdIn id (some p) = p.product_key ≡ id

entry_id :
    (k : CacheKey) (es : List (CacheKey × Product))
    → All (λ e. (e.1).product_key ≡ key_of e.0) es
    → HasIdIn (key_of k) (entry k es)
entry_id k [] h = tt
entry_id k (e ∷ es) h = elim (Bool-cases (same_key e.0 k)) [
  | inl y ↦ rw y (h.0 ∙ same_key_lem e.0 k y)
  | inr n ↦ rw n (entry_id k es h.1)
]

get_json_id : (k : CacheKey) (c : Catalogue) → IsFiled c → HasIdIn (key_of k) (get_json k c).0
unfolding get_json
get_json_id k c h = elim (Bool-cases (c.cache_answers c.calls && c.kept c.calls k)) [
  | inl y ↦ rw y (entry_id k c.cached h)
  | inr n ↦ rw n tt
]

first_product_id :
    (id : ℕ) (rows : List Product) (p : Product)
    → first_product id (where_rows (has_key id) rows) ≡ ok p
    → p.product_key ≡ id
first_product_id id [] p = λ h. absurd (cc)
first_product_id id (r ∷ rows) p = elim (Bool-cases (r.product_key == id)) [
  | inl y ↦ rw y (λ h.
      let same : r ≡ p = cc h in
      sym (ap (λ (q : Product). q.product_key) same) ∙ (==_iff r.product_key id).0 y)
  | inr n ↦ rw n (first_product_id id rows p)
]

set_json-IsFiled :
    (k : CacheKey) (p : Product) (c : Catalogue)
    → p.product_key ≡ key_of k
    → IsFiled c
    → IsFiled (set_json k p c)
unfolding set_json
set_json-IsFiled k p c e h = elim (Bool-cases (c.cache_answers c.calls)) [
  | inl y ↦ rw y (e, h)
  | inr n ↦ rw n h
]

select_product_id :
    (id : ℕ) (c : Catalogue) (p : Product) → (select_product id c).0 ≡ ok p → p.product_key ≡ id
unfolding select_product
select_product_id id c p = elim (Bool-cases (c.database_answers c.calls)) [
  | inl y ↦ rw y (first_product_id id c.products p)
  | inr n ↦ rw n (λ h. absurd (cc))
]

or_stale_id :
    (id : ℕ) (e : Error) (o : Option Product × Catalogue)
    → HasIdIn id o.0
    → IsFiled o.1
    → IsOf id (or_stale e o).0 × IsFiled (or_stale e o).1
or_stale_id id e (some p, c) i h = (i, h)
or_stale_id id e (none, c) i h = (tt, h)

on_miss_id :
    (id : ℕ) (o : Result Product × Catalogue)
    → ((p : Product) → o.0 ≡ ok p → p.product_key ≡ id)
    → IsFiled o.1
    → IsOf id (on_miss id o).0 × IsFiled (on_miss id o).1
unfolding get_json
on_miss_id id (ok p, c) i h = (
  i p refl,
  set_json-IsFiled (product_fallback_cache_key id) p (set_json (product_cache_key id) p c)
      (i p refl) (set_json-IsFiled (product_cache_key id) p c (i p refl) h),
)
on_miss_id id (err e, c) i h =
    or_stale_id id e (get_json (product_fallback_cache_key id) c)
      (get_json_id (product_fallback_cache_key id) c h) h

on_cached_id :
    (id : ℕ) (o : Option Product × Catalogue)
    → HasIdIn id o.0
    → IsFiled o.1
    → IsOf id (on_cached id o).0 × IsFiled (on_cached id o).1
unfolding select_product
on_cached_id id (some p, c) i h = (i, h)
on_cached_id id (none, c) i h = on_miss_id id (select_product id c) (select_product_id id c) h

read_fresh_id :
    (id : ℕ) (o : Result Product × Catalogue)
    → ((p : Product) → o.0 ≡ ok p → p.product_key ≡ id)
    → IsFiled o.1
    → IsOf id (read_fresh o).0 × IsFiled (read_fresh o).1
read_fresh_id id (ok p, c) i h = (i p refl, h)
read_fresh_id id (err e, c) i h = (tt, h)

-- Whatever the cache and the database fail, a product that GetByID returns, fresh or stale, has the
-- id that was asked for, and every entry of the cache stays under the id of its product.
pub get_product-IsOf :
    (has_cache : Bool) (id : ℕ) (c : Catalogue)
    → IsFiled c
    → IsOf id (get_product has_cache id c).0 × IsFiled (get_product has_cache id c).1
unfolding get_product get_json select_product
get_product-IsOf true id c h =
    on_cached_id id (get_json (product_cache_key id) c) (get_json_id (product_cache_key id) c h) h
get_product-IsOf false id c h = read_fresh_id id (select_product id c) (select_product_id id c) h

delete_products-IsFiled :
    (ids : List ℕ) (es : List (CacheKey × Product))
    → All (λ e. (e.1).product_key ≡ key_of e.0) es
    → All (λ e. (e.1).product_key ≡ key_of e.0) (delete_products ids es)
delete_products-IsFiled [] es h = h
delete_products-IsFiled (id ∷ ids) es h =
    delete_products-IsFiled ids (delete_key (product_cache_key id) es) (
      All-where_rows (λ e. (e.1).product_key ≡ key_of e.0)
        (λ e. not (same_key e.0 (product_cache_key id))) es h)

delete_cached-IsFiled : (ids : List ℕ) (c : Catalogue) → IsFiled c → IsFiled (delete_cached ids c).1
delete_cached-IsFiled [] c h = h
delete_cached-IsFiled (id ∷ ids) c h = elim (Bool-cases (c.cache_answers c.calls)) [
  | inl y ↦ rw y (delete_products-IsFiled (id ∷ ids) c.cached h)
  | inr n ↦ rw n h
]

-- The consumer of product events keeps every entry under the id of its product.
pub invalidate-IsFiled : (e : CacheEvent) (c : Catalogue) → IsFiled c → IsFiled (invalidate e c).1
unfolding invalidate
invalidate-IsFiled e c h = delete_cached-IsFiled (product_ids_from_event e) c h
