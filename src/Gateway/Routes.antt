-- ===== src/Gateway/Routes.antt =====
-- services/api-gateway/internal/handler/router.go, `SetupRoutes`: the patterns of the router, and how
-- net/http.ServeMux chooses among them. A pattern that ends in a slash stands for every path below
-- it, another for itself; the longest wins. ServeMux works on the escaped path, and unescapes each
-- segment when it matches. The paths of the patterns are ASCII, so that characters
-- are bytes. path.Clean is a parameter, as in Middleware.
pub mod Reach
pub mod Private
use Prim.Native.Char.{code}
use Prim.Native.String.{String}
use eventflow_commerce.Common.{
  ℕ, suc, Bool, true, false, not, ◌&&◌, Option, none, some, List, [], ◌∷◌, ◌==◌, ltb, if◌then◌else◌,
}
use eventflow_commerce.Gateway.Proxy.{
  Backend, order_backend, payment_backend, inventory_backend, notification_backend,
}

-- What answers a request: `healthCheck`, `livenessCheck`, `readinessCheck`, `proxyToService` for a
-- service, or `notFoundHandler`.
pub data Target : Type 0 where
  health live ready : Target
  proxied : Backend → Target
  not_found : Target

-- `SetupRoutes`
abbrev pub routes : List (String × Target)
routes =
    ("/health", health)
    ∷ ("/health/live", live)
    ∷ ("/health/ready", ready)
    ∷ ("/api/v1/orders/", proxied order_backend)
    ∷ ("/api/v1/orders", proxied order_backend)
    ∷ ("/api/v1/payments/", proxied payment_backend)
    ∷ ("/api/v1/payments", proxied payment_backend)
    ∷ ("/api/v1/inventory/", proxied inventory_backend)
    ∷ ("/api/v1/inventory", proxied inventory_backend)
    ∷ ("/api/v1/products/", proxied inventory_backend)
    ∷ ("/api/v1/products", proxied inventory_backend)
    ∷ ("/api/v1/notifications/", proxied notification_backend)
    ∷ ("/api/v1/notifications", proxied notification_backend)
    ∷ ("/api/v1/", not_found)
    ∷ []

-- One text behind another.
abbrev pub glue : String → String → String
glue String.[] t = t
glue (String.◌∷◌ c s) t = String.◌∷◌ c (glue s t)

-- `strings.HasPrefix`
abbrev pub has_prefix : String → String → Bool
has_prefix s String.[] = true
has_prefix String.[] (String.◌∷◌ c p) = false
has_prefix (String.◌∷◌ a s) (String.◌∷◌ c p) = (code a == code c) && has_prefix s p

abbrev pub same_path : String → String → Bool
same_path String.[] String.[] = true
same_path String.[] (String.◌∷◌ c p) = false
same_path (String.◌∷◌ a s) String.[] = false
same_path (String.◌∷◌ a s) (String.◌∷◌ c p) = (code a == code c) && same_path s p

abbrev ends_from : ℕ → String → Bool
ends_from last String.[] = last == b'/'
ends_from last (String.◌∷◌ c s) = ends_from (code c) s

abbrev pub ends_in_slash : String → Bool
ends_in_slash s = ends_from 0 s

abbrev pub characters : String → ℕ
characters String.[] = 0
characters (String.◌∷◌ c s) = suc (characters s)

abbrev pub fits : String → String → Bool
fits path pattern =
    if ends_in_slash pattern then has_prefix path pattern else same_path path pattern

abbrev pub longer : Option (String × Target) → Option (String × Target) → Option (String × Target)
longer none r = r
longer (some r) none = some r
longer (some r) (some q) = if ltb (characters r.0) (characters q.0) then some q else some r

-- The most specific of the patterns that fit a path.
unfoldable pub pick : String → List (String × Target) → Option (String × Target)
pick path [] = none
pick path (r ∷ rs) = longer (if fits path r.0 then some r else none) (pick path rs)

abbrev pub is_pattern : String → List (String × Target) → Bool
is_pattern path [] = false
is_pattern path (r ∷ rs) = if same_path path r.0 then true else is_pattern path rs

-- How ServeMux goes on with a request.
pub data Dispatch : Type 0 where
  served_by : Target → Dispatch
  redirected : String → Dispatch
  unmatched : Dispatch

abbrev pub target_of : Option (String × Target) → Dispatch
target_of none = unmatched
target_of (some r) = served_by r.1

abbrev pub with_slash : String → String → String
with_slash p np = if ends_in_slash p && not (same_path np "/") then glue np "/" else np

abbrev pub absolute : String → String
absolute p = if has_prefix p "/" then p else glue "/" p

-- A path without its slash is sent to the pattern with it, unless it is a pattern itself.
abbrev pub lacks_slash : String → Bool
lacks_slash p = if is_pattern p routes then false else is_pattern (glue p "/") routes

module _ (clean : String → String) where
  -- `cleanPath` of net/http
  abbrev pub clean_path : String → String
  clean_path p = with_slash (absolute p) (clean (absolute p))

  -- `ServeMux.ServeHTTP` for the routes of the router, for a path whose segments `unescape` reads: it
  -- cleans and redirects the path as it stands, unless the method is CONNECT, and matches the
  -- unescaped segments.
  unfoldable pub dispatch_escaped : (String → String) → Bool → String → Dispatch
  dispatch_escaped unescape is_connect path =
      let p = if is_connect then path else clean_path path in
      if lacks_slash (unescape p)
      then redirected (glue p "/")
      else if same_path p path
      then target_of (pick (unescape p) routes)
      else redirected p

  -- The same for a path in which nothing is escaped.
  unfoldable pub dispatch : String → Dispatch
  dispatch path = dispatch_escaped (λ s. s) false path
