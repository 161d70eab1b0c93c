-- ===== src/Order/Client/Release.antt =====
-- What `InventoryClient.Release` and `Reserve` promise to the order service.
use eventflow_commerce.Common.{
  ℕ, String, ◌≡◌, ◌≤◌, ◌+◌, refl, ap, true, Bool-cases, inl, inr, List, [], ◌∷◌, ◌++◌, length,
  length-append, Option, arith,
}
use eventflow_commerce.Common.Int.{ℤ}
use eventflow_commerce.Errors.{Result, ok, err}
use eventflow_commerce.Resilience.{Runtime, Breaker, IsBreaker, execute}
use eventflow_commerce.Resilience.Outcome.{retry_size, retry_ok, execute_lem}
use eventflow_commerce.Order.Client.{
  ReserveLine, Request, delete_reservation, post_reservation, Exchange, responded, not_built,
  timed_out, unreachable, Link, is_success, do_inventory, next_exchange, outcome_of,
  transport_error, error_from_response, wrap_breaker_open, retry_config,
  is_retryable_inventory_error, release_remote, reserve_remote,
}

-- The latest request is this one, and a response with a status of success came back.
abbrev pub HasSucceeded : Request → Link → Type 0
HasSucceeded r l =
    (earlier : List (Request × Exchange)) × (status : ℕ) × (body : Option String) × (l.exchanges
      ≡ earlier ++ (r, responded status body) ∷ [])
    × (is_success status ≡ true)

abbrev pub requests : Link → ℕ
requests l = length l.exchanges

exchange_ok :
    (r : Request) (l : Link) (x : Exchange)
    → outcome_of transport_error error_from_response x ≡ ok tt
    → HasSucceeded r (record l { exchanges = l.exchanges ++ (r, x) ∷ [] })
exchange_ok r l not_built = λ h. absurd (cc)
exchange_ok r l timed_out = λ h. absurd (cc)
exchange_ok r l unreachable = λ h. absurd (cc)
exchange_ok r l (responded status body) = elim (Bool-cases (is_success status)) [
  | inl e ↦ λ h. (l.exchanges, status, body, refl, e)
  | inr e ↦ rw e (λ h. absurd (cc))
]

do_inventory_ok :
    (r : Request) (l : Link) → (do_inventory r l).0 ≡ ok tt → HasSucceeded r (do_inventory r l).1
unfolding do_inventory
do_inventory_ok r l h = exchange_ok r l (next_exchange l) h

do_inventory_size : (r : Request) (l : Link) → requests (do_inventory r l).1 ≡ requests l + 1
unfolding do_inventory
do_inventory_size r l = length-append l.exchanges ((r, next_exchange l) ∷ [])

wrapped_ok : (text : String) (r : Result (Unit {0})) → wrap_breaker_open r text ≡ ok tt → r ≡ ok tt
unfolding wrap_breaker_open
wrapped_ok text (ok a) h = refl
wrapped_ok text (err e) h = ground arith

module _ {B : Type 0} (breaker : Breaker B Link) (lawful : IsBreaker breaker) where
  execute_size :
      (r : Request) (b : B) (l : Link)
      → requests (execute breaker (do_inventory r) (b, l)).1.1 ≤ requests l + 1
  execute_size r b l =
      execute_lem breaker (do_inventory r) lawful (λ o v. requests v ≤ requests l + 1) b l
        (omega arith) (omega (arith, do_inventory_size r l))

  execute_ok :
      (r : Request) (b : B) (l : Link)
      → (execute breaker (do_inventory r) (b, l)).0 ≡ ok tt
      → HasSucceeded r (execute breaker (do_inventory r) (b, l)).1.1
  execute_ok r b l =
      execute_lem breaker (do_inventory r) lawful (λ o v. o ≡ ok tt → HasSucceeded r v) b l
        (λ h. absurd (cc)) (do_inventory_ok r l)

  -- Release sends at most three requests, whatever comes back, if waiting sends no request.
  pub requests-release_remote :
      (time : Runtime (B × Link)) (order : ℕ) (w : B × Link)
      → ((d : ℤ) (v : B × Link) → (time.wait d v).1.1 ≡ v.1)
      → requests (release_remote breaker time order w).1.1 ≤ requests w.1 + 3
  unfolding release_remote
  requests-release_remote time order w quiet =
      retry_size time (retry_config is_retryable_inventory_error)
        (execute breaker (do_inventory (delete_reservation order))) (λ v. requests v.1)
        (λ v. execute_size (delete_reservation order) v.0 v.1) (λ d v. ap requests (quiet d v)) w

  -- When Release returns no error, the latest request asked for the release of that order and was
  -- answered with a status of success.
  pub release_remote-HasSucceeded :
      (time : Runtime (B × Link)) (order : ℕ) (w : B × Link)
      → (release_remote breaker time order w).0 ≡ ok tt
      → HasSucceeded (delete_reservation order) (release_remote breaker time order w).1.1
  unfolding release_remote
  release_remote-HasSucceeded time order w h =
      retry_ok time (retry_config is_retryable_inventory_error)
        (execute breaker (do_inventory (delete_reservation order)))
        (λ v. HasSucceeded (delete_reservation order) v.1)
        (λ v. execute_ok (delete_reservation order) v.0 v.1) w
        (wrapped_ok "INVENTORY_SERVICE_UNAVAILABLE" _ h)

  -- Reserve sends at most one request, and when it returns no error the service has answered that
  -- request with a status of success.
  pub reserve_remote-HasSucceeded :
      (order : ℕ) (items : List ReserveLine) (w : B × Link)
      → (reserve_remote breaker order items w).0 ≡ ok tt
      → HasSucceeded (post_reservation order items) (reserve_remote breaker order items w).1.1
        × (requests (reserve_remote breaker order items w).1.1 ≤ requests w.1 + 1)
  unfolding reserve_remote
  reserve_remote-HasSucceeded order items w h = (
    execute_ok (post_reservation order items) w.0 w.1
        (wrapped_ok "INVENTORY_SERVICE_UNAVAILABLE" _ h),
    execute_size (post_reservation order items) w.0 w.1,
  )
