-- ===== src/Order/Reads.antt =====
-- The cached reads of services/order/internal/service/order.go, the handler `Get` over them, and
-- services/order/internal/consumer/cache.go. The cache (redis) may fail a call and drop an entry at
-- any time: which ones is a parameter, by the number of calls made so far. The lifetime of an entry
-- is part of what the cache drops. Operations run one after another.
pub mod Past
pub mod Filed
pub mod Traffic
use eventflow_commerce.Common.{
  ℕ, ◌+◌, ◌==◌, Bool, true, false, not, ◌&&◌, Option, none, some, List, [], ◌∷◌, where_rows,
  if◌then◌else◌,
}
use eventflow_commerce.Errors.{Error, Result, ok, err}
use eventflow_commerce.Database.{World}
use eventflow_commerce.Order.Domain.{Order}
use eventflow_commerce.Order.Rows.{Tables}
use eventflow_commerce.Order.Service.{Remote, get_by_id}
use eventflow_commerce.Order.Handler.{
  Raw, Response, found, write_error, respond, customer_id_from_header, or_bad_request, if_owner,
}

-- The service with its cache, whose entries stand under the order's id (`orderCacheKey`).
pub record Reader : Type 0 where
  pub server : World Tables Remote
  pub entries : List (ℕ × Order)
  pub cache_calls : ℕ
  pub cache_answers : ℕ → Bool
  pub kept : ℕ → ℕ → Bool

abbrev pub is_under : ℕ → ℕ × Order → Bool
is_under id e = e.0 == id

abbrev pub first_entry : List (ℕ × Order) → Option Order
first_entry [] = none
first_entry (e ∷ es) = some e.1

abbrev pub asked : Reader → Reader
asked s = record s { cache_calls = s.cache_calls + 1 }

-- `GetJSON`: a hit, or none where it misses or fails.
unfoldable pub get_entry : ℕ → Reader → Option Order × Reader
get_entry id s = (
  if s.cache_answers s.cache_calls && s.kept s.cache_calls id
      then first_entry (where_rows (is_under id) s.entries)
      else none,
  asked s,
)

-- `SetJSON`, whose error is dropped; the entry stands before those it replaces.
unfoldable pub set_entry : ℕ → Order → Reader → Reader
set_entry id o s =
    if s.cache_answers s.cache_calls
    then record (asked s) { entries = (id, o) ∷ s.entries }
    else asked s

-- A call of the repository.
abbrev pub read_row : ℕ → Reader → Result Order × Reader
read_row id s = let r = get_by_id id s.server in (r.0, record s { server = r.1 })

abbrev pub fill : ℕ → Result Order × Reader → Result Order × Reader
fill id (ok o, s) = (ok o, set_entry id o s)
fill id (err e, s) = (err e, s)

abbrev pub on_entry : ℕ → Option Order × Reader → Result Order × Reader
on_entry id (some o, s) = (ok o, s)
on_entry id (none, s) = fill id (read_row id s)

-- `OrderService.GetByID`, with a cache or without
unfoldable pub read_order : Bool → ℕ → Reader → Result Order × Reader
read_order false id s = read_row id s
read_order true id s = on_entry id (get_entry id s)

abbrev pub answer_owner : ℕ → Result Order × Reader → Response × Reader
answer_owner customer (ok o, s) = respond found (if_owner customer o, s)
answer_owner customer (err e, s) = (write_error e, s)

-- `Get`, over the service with a cache or without
unfoldable pub show_order : Bool → Raw ℕ → Option ℕ → Reader → Response × Reader
show_order has_cache user path s = elim (customer_id_from_header user) [
  | err e ↦ (write_error e, s)
  | ok customer ↦ elim (or_bad_request "invalid order id" path) [
    | err e ↦ (write_error e, s)
    | ok id ↦ answer_owner customer (read_order has_cache id s)
  ]
]

-- `CacheConsumer.handle`, with `none` where `orderIDFromEvent` returns an error
unfoldable pub drop_entry : Option ℕ → Reader → Result (Unit {0}) × Reader
drop_entry none s = (ok tt, s)
drop_entry (some id) s =
    if s.cache_answers s.cache_calls
    then (ok tt, record (asked s) { entries = where_rows (λ e. not (is_under id e)) s.entries })
    else (err Error.remote, asked s)
