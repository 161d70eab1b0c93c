-- ===== src/Gateway/Server/Guarded.antt =====
-- Which requests reach a service.
use Prim.Native.String.{String}
use eventflow_commerce.Common.{
  ℕ, ◌≡◌, ◌⊎◌, refl, sym, ◌∙◌, subst, inl, inr, Bool-cases, true, false, ◌||◌, ◌==◌, List, [], ◌∷◌,
  ◌++◌,
}
use eventflow_commerce.Resilience.{IsBreaker}
use eventflow_commerce.Gateway.Limiter.{RateLimiter, rate_limit_middleware, allow}
use eventflow_commerce.Gateway.Middleware.{
  HttpRequest, Outcome, served, answered, is_public_path, jwt_middleware,
}
use eventflow_commerce.Gateway.Middleware.Identity.{IsAuthenticated, jwt_middleware-IsAuthenticated}
use eventflow_commerce.Gateway.Proxy.{Backend, ProxyRequest, ensure_correlation_id}
use eventflow_commerce.Gateway.Proxy.Forwarding.{Proxied, proxy_to_service-Proxied}
use eventflow_commerce.Gateway.Address.{get_client_ip_from_request}
use eventflow_commerce.Gateway.Routes.{
  health, live, ready, proxied, not_found, Dispatch, served_by, redirected, unmatched, same_path,
  clean_path,
}
use eventflow_commerce.Gateway.Routes.Private.{dispatch-private}
use eventflow_commerce.Gateway.Server.{
  Gateway, Parts, is_connect, dispatch_of, IsPlain, proxy_handler, go_on, route_request,
  when_authenticated, serve,
}

module _ {L B : Type 0} (parts : Parts L B) (lawful : IsBreaker parts.breaker) (fresh now : ℕ) where
  abbrev client : HttpRequest → ℕ
  client q = parts.number_of (get_client_ip_from_request q)

  private_lem :
      (q : HttpRequest) (b : Backend)
      → IsPlain parts q
      → dispatch_of parts q ≡ served_by (proxied b)
      → is_public_path parts.clean q.path ≡ false
  private_lem q b (e, u, c) d =
      dispatch-private parts.clean parts.unescape q.path b u (rw (e, c) at d)

  -- What the services get for a request: nothing, or the request once, in the service of its route,
  -- with the claims of its token, if the rate limiter let it pass.
  pub data IsGuarded (r : ProxyRequest) (g : Gateway L B) : Gateway L B → Type 0 where
    kept_out : (h : Gateway L B) → h.proxies.forwarded ≡ g.proxies.forwarded → IsGuarded r g h
    let_in :
        (h : Gateway L B) (b : Backend) (passed : HttpRequest)
        → (allow parts.buckets now (client r.http_request) g.limiter).0 ≡ true
        → IsAuthenticated parts.clean parts.parse r.http_request passed
        → dispatch_of parts r.http_request ≡ served_by (proxied b)
        → h.proxies.forwarded
          ≡ g.proxies.forwarded
            ++ (b, ensure_correlation_id fresh (record r { http_request = passed })) ∷ []
        → IsGuarded r g h
    -- The middleware takes the decoded path for a public one, and ServeMux matches another path.
    let_by :
        (h : Gateway L B) (b : Backend)
        → (allow parts.buckets now (client r.http_request) g.limiter).0 ≡ true
        → is_public_path parts.clean r.http_request.path ≡ true
        → ¬ IsPlain parts r.http_request
        → dispatch_of parts r.http_request ≡ served_by (proxied b)
        → h.proxies.forwarded ≡ g.proxies.forwarded ++ (b, ensure_correlation_id fresh r) ∷ []
        → IsGuarded r g h

  -- What the routes do with a request that the middleware let pass.
  data Routed (r : ProxyRequest) (before : List (Backend × ProxyRequest))
      : Gateway L B → Type 0 where
    answered_here : (h : Gateway L B) → h.proxies.forwarded ≡ before → Routed r before h
    forwarded_to :
        (h : Gateway L B) (b : Backend)
        → dispatch_of parts r.http_request ≡ served_by (proxied b)
        → h.proxies.forwarded ≡ before ++ (b, ensure_correlation_id fresh r) ∷ []
        → Routed r before h

  proxied_Routed :
      (r : ProxyRequest) (g : Gateway L B) (b : Backend)
      → (fresh == 0) ≡ false
      → dispatch_of parts r.http_request ≡ served_by (proxied b)
      → Routed r g.proxies.forwarded (proxy_handler parts fresh b r g).1
  proxied_Routed r g b n d =
      elim ((proxy_to_service-Proxied parts.breaker lawful fresh b r (g.breakers b, g.proxies)
        n).0) [
          | Proxied.turned_down s f c ↦ Routed.answered_here _ f
          | Proxied.passed_on s f c ↦ Routed.forwarded_to _ b d f
        ]

  dispatched_Routed :
      (d : Dispatch) (r : ProxyRequest) (g : Gateway L B)
      → (fresh == 0) ≡ false
      → dispatch_of parts r.http_request ≡ d
      → Routed r g.proxies.forwarded (go_on parts fresh d r g).1
  dispatched_Routed (served_by health) r g n d = Routed.answered_here _ refl
  dispatched_Routed (served_by live) r g n d = Routed.answered_here _ refl
  dispatched_Routed (served_by ready) r g n d = Routed.answered_here _ refl
  dispatched_Routed (served_by not_found) r g n d = Routed.answered_here _ refl
  dispatched_Routed (served_by (proxied b)) r g n d = proxied_Routed r g b n d
  dispatched_Routed (redirected path) r g n d = Routed.answered_here _ refl
  dispatched_Routed unmatched r g n d = Routed.answered_here _ refl

  -- A request that the JWT middleware passed on, of a client that was allowed.
  passed_IsGuarded :
      (r : ProxyRequest) (g : Gateway L B) (h : Gateway L B) (passed : HttpRequest)
      → (allow parts.buckets now (client r.http_request) g.limiter).0 ≡ true
      → ((is_public_path parts.clean r.http_request.path ≡ true) × (passed ≡ r.http_request))
        ⊎ IsAuthenticated parts.clean parts.parse r.http_request passed
      → Routed (record r { http_request = passed }) g.proxies.forwarded h
      → IsGuarded r g h
  passed_IsGuarded r g h passed a p (Routed.answered_here _ f) = IsGuarded.kept_out h f
  passed_IsGuarded r g h passed a (inr t) (Routed.forwarded_to _ b d f) =
      IsGuarded.let_in h b passed a t
        (subst (λ q. dispatch_of parts q ≡ served_by (proxied b)) t.4 d) f
  passed_IsGuarded r g h passed a (inl t) (Routed.forwarded_to _ b d f) =
      let same : passed ≡ r.http_request = t.1 in
      let d' : dispatch_of parts r.http_request ≡ served_by (proxied b) =
        subst (λ q. dispatch_of parts q ≡ served_by (proxied b)) same d in
      IsGuarded.let_by h b a t.0
        (λ plain. absurd (cc (sym (private_lem r.http_request b plain d') ∙ t.0))) d'
        (subst
          (λ q.
            h.proxies.forwarded
            ≡ g.proxies.forwarded
              ++ (b, ensure_correlation_id fresh (record r { http_request = q })) ∷ [])
          same f)

  checked_IsGuarded :
      (r : ProxyRequest) (g : Gateway L B) (rl : RateLimiter L) (o : Outcome)
      → (fresh == 0) ≡ false
      → (allow parts.buckets now (client r.http_request) g.limiter).0 ≡ true
      → jwt_middleware parts.clean parts.parse r.http_request ≡ o
      → IsGuarded r g (when_authenticated parts fresh o r (record g { limiter = rl })).1
  unfolding route_request
  checked_IsGuarded r g rl (answered status text) n a o = IsGuarded.kept_out _ refl
  checked_IsGuarded r g rl (served passed) n a o =
      passed_IsGuarded r g _ passed a
        (jwt_middleware-IsAuthenticated parts.clean parts.parse r.http_request passed o)
        (dispatched_Routed (dispatch_of parts passed) (record r { http_request = passed })
          (record g { limiter = rl }) n refl)

  pub serve-IsGuarded :
      (r : ProxyRequest) (g : Gateway L B)
      → (fresh == 0) ≡ false
      → IsGuarded r g (serve parts fresh now r g).1
  unfolding serve rate_limit_middleware
  serve-IsGuarded r g n =
      let path : String = r.http_request.escaped_path in
      elim (Bool-cases
        (is_connect r.http_request || same_path (clean_path parts.clean path) path)) [
          | inr c ↦ rw c (IsGuarded.kept_out _ refl)
          | inl c ↦ elim (Bool-cases (same_path (parts.unescape path) "/metrics")) [
            | inl m ↦ rw (c, m) (IsGuarded.kept_out _ refl)
            | inr m ↦
                elim (Bool-cases (allow parts.buckets now (client r.http_request) g.limiter).0) [
                  | inl a ↦ rw (c, m, a) (checked_IsGuarded r g _ _ n a refl)
                  | inr a ↦ rw (c, m, a) (IsGuarded.kept_out _ refl)
                ]
          ]
        ]
