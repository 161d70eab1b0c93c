-- ===== src/Gateway/Server/Journey.antt =====
-- A request through the gateway to `Get` of the order service. uuid.Parse is a
-- parameter, as what the handler reads of the header X-User-ID and, behind the ServeMux of that
-- service, of the path.
use Prim.Native.String.{String}
use eventflow_commerce.Common.{
  ℕ, ◌≡◌, sym, ap, ◌∙◌, true, false, Bool, ◌==◌, Option, List, [], ◌∷◌, ◌++◌, length, length-append,
  arith,
}
use eventflow_commerce.Errors.{Result}
use eventflow_commerce.Resilience.{IsBreaker}
use eventflow_commerce.Order.Domain.{Order}
use eventflow_commerce.Order.Service.{Remote}
use eventflow_commerce.Order.Handler.{Raw, found}
use eventflow_commerce.Order.Reads.{Reader, show_order}
use eventflow_commerce.Order.Reads.Traffic.{Traffic, IsShown, show_order-IsShown}
use eventflow_commerce.Gateway.Middleware.{HttpRequest, Claims, parsed, token_of, with_identity}
use eventflow_commerce.Gateway.Proxy.{Backend, order_backend, ProxyRequest, ensure_correlation_id}
use eventflow_commerce.Gateway.Server.{Gateway, Parts, IsPlain, serve}
use eventflow_commerce.Gateway.Server.Guarded.{IsGuarded, serve-IsGuarded}

-- What stands last in a list is one thing.
last_eq {ℓ} : {A : Type ℓ} (xs : List A) (x y : A) → xs ++ x ∷ [] ≡ xs ++ y ∷ [] → x ≡ y
last_eq [] x y h = cc h
last_eq (z ∷ xs) x y h = last_eq xs x y (cc h)

not_longer {ℓ} : {A : Type ℓ} (xs : List A) (x : A) → xs ≡ xs ++ x ∷ [] → ⊥
not_longer xs x h = omega (arith, ap length h, length-append xs (x ∷ []))

module _ {L B : Type 0} (parts : Parts L B) (lawful : IsBreaker parts.breaker)
    (read_id : String → Raw ℕ) (read_path : String → Option ℕ) where
  sent_claims :
      (fresh now : ℕ) (r : ProxyRequest) (g h : Gateway L B) (b : Backend) (sent : ProxyRequest)
      → IsPlain parts r.http_request
      → IsGuarded parts lawful fresh now r g h
      → h.proxies.forwarded ≡ g.proxies.forwarded ++ (b, sent) ∷ []
      → (c : Claims) × (parts.parse (token_of r.http_request.authorization) ≡ parsed true c)
        × (sent.http_request ≡ with_identity c r.http_request)
  unfolding ensure_correlation_id
  sent_claims fresh now r g h b sent plain (IsGuarded.kept_out _ same) e =
      absurd (not_longer g.proxies.forwarded (b, sent) (sym same ∙ e))
  sent_claims fresh now r g h b sent plain (IsGuarded.let_in _ d passed a t _ f) e =
      let same : (d, ensure_correlation_id fresh (record r { http_request = passed })) ≡ (b, sent) =
        last_eq g.proxies.forwarded _ _ (sym f ∙ e) in
      (t.0, t.2, ap (λ (p : Backend × ProxyRequest). p.1.http_request) (sym same) ∙ t.4)
  sent_claims fresh now r g h b sent plain (IsGuarded.let_by _ d a p escaped _ f) e =
      absurd (escaped plain)

  -- When a request in whose path nothing is escaped, and whose method is not CONNECT, reaches the order
  -- service through the gateway, and Get, with a cache or without, shows an order for the forwarded
  -- request after any history of that service: then the request had a valid token, the order is of
  -- the customer that the token names, whatever identity the client claimed in its headers, it has
  -- the id in the path of the request, and the committed tables have it with the same customer and
  -- amount, at the shown version or a later one; if the circuit breakers keep to their documentation
  -- and the fresh identifier is not nil.
  pub serve-show_order :
      (replied : Remote → ℕ → Result (Unit {0})) (fresh now : ℕ) (r sent : ProxyRequest)
      (g : Gateway L B) (has_cache : Bool) (s : Reader) (o : Order)
      → Traffic replied s
      → (fresh == 0) ≡ false
      → IsPlain parts r.http_request
      → (serve parts fresh now r g).1.proxies.forwarded
        ≡ g.proxies.forwarded ++ (order_backend, sent) ∷ []
      → (show_order has_cache
          (read_id sent.http_request.user_id)
          (read_path sent.http_request.escaped_path)
          s).0
        ≡ found o
      → (c : Claims) × (parts.parse (token_of r.http_request.authorization) ≡ parsed true c)
        × IsShown
            (read_id c.claimed_id)
            (read_path r.http_request.escaped_path)
            o
            (show_order has_cache
              (read_id sent.http_request.user_id)
              (read_path sent.http_request.escaped_path)
              s).1.server.committed
  serve-show_order replied fresh now r sent g has_cache s o t n plain e h =
      let c =
        sent_claims fresh now r g (serve parts fresh now r g).1 order_backend sent plain
          (serve-IsGuarded parts lawful fresh now r g n) e in
      let shown =
        show_order-IsShown replied has_cache (read_id sent.http_request.user_id)
          (read_path sent.http_request.escaped_path) s o t h in
      (
        c.0,
        c.1,
        (
          ap (λ (q : HttpRequest). read_id q.user_id) (sym c.2) ∙ shown.0,
          ap (λ (q : HttpRequest). read_path q.escaped_path) (sym c.2) ∙ shown.1,
          shown.2,
        ),
      )
