-- ===== src/Order/Reads/Filed.antt =====
-- What stands in the cache against the committed orders.
use eventflow_commerce.Common.{
  ℕ, ◌≡◌, refl, sym, ap, ◌∙◌, subst, inl, inr, Bool, Bool-cases, true, false, ◌&&◌, Option, none,
  some, List, [], ◌∷◌, ◌==◌, ==_iff, where_rows, All,
}
use eventflow_commerce.Errors.{Result, ok, err}
use eventflow_commerce.Order.Domain.{Order}
use eventflow_commerce.Order.Rows.{Tables}
use eventflow_commerce.Order.Service.{get_by_id}
use eventflow_commerce.Order.Agreement.{row_of}
use eventflow_commerce.Order.Along.{get_rows, get_first}
use eventflow_commerce.Order.Reads.{
  Reader, is_under, first_entry, get_entry, set_entry, read_row, fill, on_entry, read_order,
}
use eventflow_commerce.Order.Reads.Past.{IsEarlier-refl, IsPast}

-- Every entry of the cache is an earlier version of the committed order under whose id it stands.
abbrev pub AreFiled : Reader → Type 0
AreFiled s = All (λ e. IsPast e.0 e.1 s.server.committed) s.entries

abbrev pub IsPastResult : ℕ → Result Order → Tables → Type 0
IsPastResult id (ok o) t = IsPast id o t
IsPastResult id (err e) t = Unit

abbrev IsPastEntry : ℕ → Option Order → Tables → Type 0
IsPastEntry id (some o) t = IsPast id o t
IsPastEntry id none t = Unit

first_entry-IsPast :
    (id : ℕ) (t : Tables) (es : List (ℕ × Order))
    → All (λ e. IsPast e.0 e.1 t) es
    → IsPastEntry id (first_entry (where_rows (is_under id) es)) t
first_entry-IsPast id t [] h = tt
first_entry-IsPast id t (e ∷ es) h = elim (Bool-cases (e.0 == id)) [
  | inl y ↦ rw y (subst (λ i. IsPast i e.1 t) ((==_iff e.0 id).0 y) h.0)
  | inr n ↦ rw n (first_entry-IsPast id t es h.1)
]

get_entry-IsPast :
    (id : ℕ) (s : Reader) → AreFiled s → IsPastEntry id (get_entry id s).0 s.server.committed
unfolding get_entry
get_entry-IsPast id s h =
    elim (Bool-cases (s.cache_answers s.cache_calls && s.kept s.cache_calls id)) [
      | inl y ↦ rw y (first_entry-IsPast id s.server.committed s.entries h)
      | inr n ↦ rw n tt
    ]

set_entry-AreFiled :
    (id : ℕ) (o : Order) (s : Reader)
    → IsPast id o s.server.committed
    → AreFiled s
    → AreFiled (set_entry id o s) × IsPast id o (set_entry id o s).server.committed
unfolding set_entry
set_entry-AreFiled id o s p h = elim (Bool-cases (s.cache_answers s.cache_calls)) [
  | inl y ↦ rw y ((p, h), p)
  | inr n ↦ rw n (h, p)
]

fill-AreFiled :
    (id : ℕ) (r : Result Order × Reader)
    → IsPastResult id r.0 r.1.server.committed
    → AreFiled r.1
    → AreFiled (fill id r).1 × IsPastResult id (fill id r).0 (fill id r).1.server.committed
fill-AreFiled id (ok o, s) p h = set_entry-AreFiled id o s p h
fill-AreFiled id (err e, s) p h = (h, tt)

row-IsPast :
    (id : ℕ) (r : Result Order) (t : Tables)
    → ((o : Order) → r ≡ ok o → row_of id t ≡ ok o)
    → IsPastResult id r t
row-IsPast id (ok o) t h = record { now = o; stands = h o refl; earlier = IsEarlier-refl o }
row-IsPast id (err e) t h = tt

read_row-AreFiled :
    (id : ℕ) (s : Reader)
    → AreFiled s
    → AreFiled (read_row id s).1
      × IsPastResult id (read_row id s).0 (read_row id s).1.server.committed
read_row-AreFiled id s h =
    let same = get_rows id s.server in
    (
      subst (λ t. All (λ e. IsPast e.0 e.1 t) s.entries) (sym same) h,
      row-IsPast id (get_by_id id s.server).0 (get_by_id id s.server).1.committed
          (λ o e. ap (row_of id) same ∙ get_first id s.server o e),
    )

on_entry-AreFiled :
    (id : ℕ) (r : Option Order × Reader)
    → IsPastEntry id r.0 r.1.server.committed
    → AreFiled r.1
    → AreFiled (on_entry id r).1
      × IsPastResult id (on_entry id r).0 (on_entry id r).1.server.committed
on_entry-AreFiled id (some o, s) p h = (h, p)
on_entry-AreFiled id (none, s) p h =
    let x = read_row-AreFiled id s h in fill-AreFiled id (read_row id s) x.1 x.0

-- `GetByID` keeps the entries so, and the order that it returns is such a version, too.
pub read_order-AreFiled :
    (has_cache : Bool) (id : ℕ) (s : Reader)
    → AreFiled s
    → AreFiled (read_order has_cache id s).1
      × IsPastResult id (read_order has_cache id s).0 (read_order has_cache id s).1.server.committed
unfolding read_order get_entry
read_order-AreFiled false id s h = read_row-AreFiled id s h
read_order-AreFiled true id s h = on_entry-AreFiled id (get_entry id s) (get_entry-IsPast id s h) h
