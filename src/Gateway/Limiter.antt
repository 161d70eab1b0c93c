-- ===== src/Gateway/Limiter.antt =====
-- services/api-gateway/internal/handler/middleware.go: `RateLimiter` and `RateLimitMiddleware`. A client
-- is a number, since its address is only compared. The token bucket of golang.org/x/time/rate is a
-- parameter, and so is the order in which Go walks the map.
pub mod Bounded
use eventflow_commerce.Common.{
  ℕ, zero, suc, ◌+◌, ◌-◌, ◌/◌, ◌≤◌, ◌≡◌, refl, Bool, true, false, not, Bool-cases, inl, inr, Option,
  none, some, List, [], ◌∷◌, ◌++◌, ◌==◌, leb, ltb, length, take, where_rows, any_row, All, arith,
  if◌then◌else◌,
}
use eventflow_commerce.Common.Int.{ℤ, pos, leb_ℤ, pos_part}
use eventflow_commerce.Gateway.Middleware.{HttpRequest, Outcome, served, answered}

-- `rate.Limiter`: a new bucket with its burst, and `Allow` at some time.
pub record Buckets (B : Type 0) : Type 0 where
  pub new_limiter : ℕ → B
  pub allow_event : ℕ → B → Bool × B
  pub walk : List (ℕ × B) → List ℕ

-- `RateLimiter`; the clients of the map `limiters`, each with its bucket.
pub record RateLimiter (B : Type 0) : Type 0 where
  pub limiters : List (ℕ × B)
  pub burst : ℕ
  pub max_clients : ℕ

abbrev pub positive_rate : ℤ → ℕ
positive_rate n = if leb_ℤ n (pos 0) then 1 else pos_part n

-- `NewRateLimiter`, of which the rate itself is a setting of the buckets
unfoldable pub new_rate_limiter : {B : Type 0} → ℤ → RateLimiter B
new_rate_limiter per_minute = record {
  limiters = [];
  burst = let n = positive_rate per_minute in if ltb 10 n then n / 3 + 2 else n;
  max_clients = 10000;
}

-- The number of clients to evict.
abbrev pub evict_count : ℕ → ℕ
evict_count n =
    let count = if ltb (n / 10) 10 then 10 else n / 10 in if ltb n count then n else count

module _ {B : Type 0} where
  abbrev pub is_client : ℕ → ℕ × B → Bool
  is_client c e = e.0 == c

  -- `limiters[clientID]`
  unfoldable pub find_limiter : ℕ → List (ℕ × B) → Option B
  find_limiter c [] = none
  find_limiter c (e ∷ es) = if is_client c e then some e.1 else find_limiter c es

  -- `limiters[clientID] = limiter`, for a client that the map has
  unfoldable pub set_limiter : ℕ → B → List (ℕ × B) → List (ℕ × B)
  set_limiter c b [] = []
  set_limiter c b (e ∷ es) = if is_client c e then (c, b) ∷ es else e ∷ set_limiter c b es

  -- `delete`
  unfoldable pub remove_client : ℕ → List (ℕ × B) → List (ℕ × B)
  remove_client c es = where_rows (λ e. not (is_client c e)) es

  unfoldable pub remove_clients : List ℕ → List (ℕ × B) → List (ℕ × B)
  remove_clients [] es = es
  remove_clients (c ∷ cs) es = remove_clients cs (remove_client c es)

-- What happens to a limiter: a request of a client at a time, or a tick.
pub data LimiterEvent : Type 0 where
  request : ℕ → ℕ → LimiterEvent
  cleanup_due : LimiterEvent

module _ {B : Type 0} (bs : Buckets B) where
  -- `evictOldestClients`
  unfoldable pub evict_oldest_clients : RateLimiter B → RateLimiter B
  evict_oldest_clients rl = record rl {
    limiters =
        remove_clients (take (evict_count (length rl.limiters)) (bs.walk rl.limiters)) rl.limiters;
  }

  abbrev pub make_room : RateLimiter B → RateLimiter B
  make_room rl = if leb rl.max_clients (length rl.limiters) then evict_oldest_clients rl else rl

  abbrev pub admit : ℕ → RateLimiter B → Bool × B → Bool × RateLimiter B
  admit c rl (allowed, b) = (allowed, record rl { limiters = set_limiter c b rl.limiters })

  abbrev pub admit_new : ℕ → RateLimiter B → Bool × B → Bool × RateLimiter B
  admit_new c rl (allowed, b) = (allowed, record rl { limiters = rl.limiters ++ (c, b) ∷ [] })

  abbrev pub allow_found : ℕ → ℕ → RateLimiter B → Option B → Bool × RateLimiter B
  allow_found now c rl (some b) = admit c rl (bs.allow_event now b)
  allow_found now c rl none =
      admit_new c (make_room rl) (bs.allow_event now (bs.new_limiter rl.burst))

  -- `Allow`, at a time
  unfoldable pub allow : ℕ → ℕ → RateLimiter B → Bool × RateLimiter B
  allow now c rl = allow_found now c rl (find_limiter c rl.limiters)

  -- A tick of `cleanup`.
  unfoldable pub cleanup_tick : RateLimiter B → RateLimiter B
  cleanup_tick rl =
      if ltb (rl.max_clients / 2) (length rl.limiters) then evict_oldest_clients rl else rl

  -- What the walk over a map is documented to do: every client once, in some order.
  pub record IsWalk : Type 0 where
    pub whole : (es : List (ℕ × B)) → length (bs.walk es) ≡ length es
    pub inside : (es : List (ℕ × B)) → All (λ c. any_row (is_client c) es ≡ true) (bs.walk es)

  unfoldable pub run_events : List LimiterEvent → RateLimiter B → RateLimiter B
  run_events [] rl = rl
  run_events (request now c ∷ es) rl = run_events es (allow now c rl).1
  run_events (cleanup_due ∷ es) rl = run_events es (cleanup_tick rl)

  -- `RateLimitMiddleware`, for the client that `getClientIPFromRequest` finds
  unfoldable pub rate_limit_middleware :
      (HttpRequest → ℕ) → ℕ → HttpRequest → RateLimiter B → Outcome × RateLimiter B
  rate_limit_middleware client now r rl =
      let o = allow now (client r) rl in
      (if o.0 then served r else answered 429 "Rate limit exceeded", o.1)
