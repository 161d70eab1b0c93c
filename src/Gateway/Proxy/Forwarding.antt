-- ===== src/Gateway/Proxy/Forwarding.antt =====
-- What reaches a service behind the gateway, and what the client sees of it.
use eventflow_commerce.Common.{
  ℕ, ◌≡◌, refl, false, Bool-cases, inl, inr, leb, ◌==◌, [], ◌∷◌, ◌++◌, length,
}
use eventflow_commerce.Resilience.{Breaker, IsBreaker}
use eventflow_commerce.Resilience.Outcome.{execute_lem}
use eventflow_commerce.Gateway.Proxy.{
  Backend, ProxyRequest, ProxyState, status_of, ensure_correlation_id, forward, short_circuited,
  proxy_to_service,
}

-- How the gateway answers: 503 without a call of the service, or the status of the one call.
pub data Proxied (b : Backend) (r : ProxyRequest) (before : ProxyState) : ProxyState → Type 0 where
  turned_down :
      (s : ProxyState) → s.forwarded ≡ before.forwarded → s.status_code ≡ 503 → Proxied b r before s
  passed_on :
      (s : ProxyState)
      → s.forwarded ≡ before.forwarded ++ (b, r) ∷ []
      → s.status_code ≡ status_of (before.replies (length before.forwarded))
      → Proxied b r before s

forward-Proxied :
    (b : Backend) (r : ProxyRequest) (before s : ProxyState)
    → s.forwarded ≡ before.forwarded
    → s.replies ≡ before.replies
    → Proxied b r before
        (short_circuited {B = Unit {0}} ((forward b r s).0, (tt, (forward b r s).1))).1
unfolding forward
forward-Proxied b r before s f p =
    elim (Bool-cases (leb 500 (status_of (s.replies (length s.forwarded))))) [
      | inl e ↦ rw e (Proxied.passed_on _ (rw f refl) (rw (p, f) refl))
      | inr e ↦ rw e (Proxied.passed_on _ (rw f refl) (rw (p, f) refl))
    ]

correlated :
    (fresh : ℕ) (r : ProxyRequest)
    → (fresh == 0) ≡ false
    → ((ensure_correlation_id fresh r).correlation_id == 0) ≡ false
unfolding ensure_correlation_id
correlated fresh r h = elim (Bool-cases (r.correlation_id == 0)) [
  | inl e ↦ rw e h
  | inr e ↦ rw (e, e) refl
]

module _ {B : Type 0} (breaker : Breaker B ProxyState) (lawful : IsBreaker breaker) where
  -- The gateway answers a proxied request with 503 and calls no service, or it calls the service
  -- once, with a request that carries a correlation id, and answers with the status of that call, if
  -- the circuit breaker keeps to its documentation and the fresh identifier is not nil.
  pub proxy_to_service-Proxied :
      (fresh : ℕ) (b : Backend) (r : ProxyRequest) (w : B × ProxyState)
      → (fresh == 0) ≡ false
      → Proxied b (ensure_correlation_id fresh r) w.1 (proxy_to_service breaker fresh b r w).1
        × (((ensure_correlation_id fresh r).correlation_id == 0) ≡ false)
  unfolding proxy_to_service
  proxy_to_service-Proxied fresh b r w h =
      let sent : ProxyRequest = ensure_correlation_id fresh r in
      let start : ProxyState = record (w.1) { status_code = 200 } in
      (
        execute_lem breaker (forward b sent) lawful
            (λ o v. Proxied b sent w.1 (short_circuited {B = Unit {0}} (o, (tt, v))).1) w.0 start
            (Proxied.turned_down _ refl refl) (forward-Proxied b sent w.1 start refl refl),
        correlated fresh r h,
      )
