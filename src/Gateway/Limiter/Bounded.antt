-- ===== src/Gateway/Limiter/Bounded.antt =====
-- The memory of the rate limiter stays bounded.
use eventflow_commerce.Common.{
  ℕ, zero, suc, ◌+◌, ◌/◌, ◌≤◌, ◌≡◌, refl, Bool, true, not, Bool-cases, inl, inr, Option, none, some,
  List, [], ◌∷◌, ◌==◌, leb, ltb, length, length-append, take, where_rows, any_row, All, arith,
}
use eventflow_commerce.Common.Int.{ℤ}
use eventflow_commerce.Gateway.Limiter.{
  new_rate_limiter, Buckets, RateLimiter, is_client, find_limiter, set_limiter, remove_client,
  remove_clients, evict_count, evict_oldest_clients, make_room, allow_found, allow, cleanup_tick,
  IsWalk, LimiterEvent, request, cleanup_due, run_events,
}

module _ {B : Type 0} where
  length-where_rows : (p : ℕ × B → Bool) (es : List (ℕ × B)) → length (where_rows p es) ≤ length es
  length-where_rows p [] = omega arith
  length-where_rows p (e ∷ es) = ground (arith, length-where_rows p es)

  length-remove_client :
      (c : ℕ) (es : List (ℕ × B))
      → any_row (is_client c) es ≡ true
      → length (remove_client c es) + 1 ≤ length es
  unfolding remove_client
  length-remove_client c [] = λ h. absurd (cc)
  length-remove_client c (e ∷ es) = elim (Bool-cases (e.0 == c)) [
    | inl y ↦ rw y (λ h. omega (arith, length-where_rows (λ e. not (is_client c e)) es))
    | inr n ↦ rw n (λ h. omega (arith, length-remove_client c es h))
  ]

  length-remove_clients :
      (cs : List ℕ) (es : List (ℕ × B)) → length (remove_clients cs es) ≤ length es
  unfolding remove_clients remove_client
  length-remove_clients [] es = omega arith
  length-remove_clients (c ∷ cs) es = omega (
    arith,
    length-remove_clients cs (remove_client c es),
    length-where_rows (λ e. not (is_client c e)) es,
  )

  length-set_limiter : (c : ℕ) (b : B) (es : List (ℕ × B)) → length (set_limiter c b es) ≡ length es
  unfolding set_limiter
  length-set_limiter c b [] = refl
  length-set_limiter c b (e ∷ es) = elim (Bool-cases (e.0 == c)) [
    | inl y ↦ rw y refl
    | inr n ↦ rw n (omega (arith, length-set_limiter c b es))
  ]

  -- At least the first client of the walk is removed.
  evicted :
      (n : ℕ) (cs : List ℕ) (es : List (ℕ × B))
      → 1 ≤ n
      → length cs ≡ length es
      → 1 ≤ length es
      → All (λ c. any_row (is_client c) es ≡ true) cs
      → length (remove_clients (take n cs) es) + 1 ≤ length es
  unfolding remove_clients
  evicted zero cs es n l p h = absurd (omega arith)
  evicted (suc n) [] es i l p h = absurd (omega arith)
  evicted (suc n) (c ∷ cs) es i l p h =
      omega (
        arith,
        length-remove_clients (take n cs) (remove_client c es),
        length-remove_client c es h.0,
      )

  -- The limiter holds at most so many clients.
  abbrev pub IsBounded : ℕ → RateLimiter B → Type 0
  IsBounded n rl = (rl.max_clients ≡ n) × (length rl.limiters ≤ n)

module _ {B : Type 0} (bs : Buckets B) (walks : IsWalk bs) where
  evict_lem :
      (rl : RateLimiter B)
      → 1 ≤ length rl.limiters
      → length (evict_oldest_clients bs rl).limiters + 1 ≤ length rl.limiters
  unfolding evict_oldest_clients
  evict_lem rl h =
      evicted (evict_count (length rl.limiters)) (bs.walk rl.limiters) rl.limiters (ground arith)
        (walks.whole rl.limiters) h (walks.inside rl.limiters)

  evict-IsBounded :
      (n : ℕ) (rl : RateLimiter B) → IsBounded n rl → IsBounded n (evict_oldest_clients bs rl)
  unfolding evict_oldest_clients
  evict-IsBounded n rl h = (
    h.0,
    omega (
      arith,
      length-remove_clients (take (evict_count (length rl.limiters)) (bs.walk rl.limiters))
          rl.limiters,
      h.1,
    ),
  )

  make_room_lem :
      (n : ℕ) (rl : RateLimiter B)
      → 1 ≤ n
      → IsBounded n rl
      → ((make_room bs rl).max_clients ≡ n) × (length (make_room bs rl).limiters + 1 ≤ n)
  unfolding evict_oldest_clients
  make_room_lem n rl p h = elim (Bool-cases (leb rl.max_clients (length rl.limiters))) [
    | inl e ↦ rw e (h.0, omega (arith, evict_lem rl (ground arith), h.1))
    | inr e ↦ rw e (h.0, ground arith)
  ]

  allow_found-IsBounded :
      (n now c : ℕ) (rl : RateLimiter B) (o : Option B)
      → 1 ≤ n
      → IsBounded n rl
      → IsBounded n (allow_found bs now c rl o).1
  allow_found-IsBounded n now c rl (some b) p h =
      (h.0, omega (arith, length-set_limiter c (bs.allow_event now b).1 rl.limiters, h.1))
  allow_found-IsBounded n now c rl none p h =
      let m = make_room_lem n rl p h in
      (m.0, rw (length-append (make_room bs rl).limiters) (omega (arith, m.1)))

  cleanup_tick-IsBounded :
      (n : ℕ) (rl : RateLimiter B) → IsBounded n rl → IsBounded n (cleanup_tick bs rl)
  unfolding cleanup_tick
  cleanup_tick-IsBounded n rl h =
      elim (Bool-cases (ltb (rl.max_clients / 2) (length rl.limiters))) [
        | inl e ↦ rw e (evict-IsBounded n rl h)
        | inr e ↦ rw e h
      ]

  run_events-IsBounded :
      (n : ℕ) (es : List LimiterEvent) (rl : RateLimiter B)
      → 1 ≤ n
      → IsBounded n rl
      → IsBounded n (run_events bs es rl)
  unfolding run_events allow cleanup_tick
  run_events-IsBounded n [] rl p h = h
  run_events-IsBounded n (request now c ∷ es) rl p h =
      run_events-IsBounded n es (allow bs now c rl).1 p
        (allow_found-IsBounded n now c rl (find_limiter c rl.limiters) p h)
  run_events-IsBounded n (cleanup_due ∷ es) rl p h =
      run_events-IsBounded n es (cleanup_tick bs rl) p (cleanup_tick-IsBounded n rl h)

  -- Whatever requests and ticks come, the limiter of the gateway holds at most 10000 clients.
  pub run_events_bound :
      (per_minute : ℤ) (es : List LimiterEvent)
      → length (run_events bs es (new_rate_limiter per_minute)).limiters ≤ 10000
  unfolding new_rate_limiter
  run_events_bound per_minute es =
      (run_events-IsBounded 10000 es (new_rate_limiter per_minute) (omega arith)
        (refl, omega arith)).1
