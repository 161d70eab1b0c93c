-- ===== src/Gateway/Routes/Reach.antt =====
-- Which service answers a path.
use Prim.Native.Char.{code}
use Prim.Native.String.{String}
use eventflow_commerce.Common.{◌≡◌, refl, ◌⊎◌, inl, inr, true, false, ==_refl}
use eventflow_commerce.Gateway.Proxy.{
  Backend, order_backend, payment_backend, inventory_backend, notification_backend,
}
use eventflow_commerce.Gateway.Routes.{
  proxied, served_by, same_path, glue, pick, clean_path, dispatch, dispatch_escaped, routes,
  target_of, lacks_slash,
}

-- The resources of the API, where they stand, and whose they are.
pub data Resource : Type 0 where
  orders payments inventory products notifications : Resource

abbrev pub collection : Resource → String
collection orders = "/api/v1/orders"
collection payments = "/api/v1/payments"
collection inventory = "/api/v1/inventory"
collection products = "/api/v1/products"
collection notifications = "/api/v1/notifications"

abbrev pub owner : Resource → Backend
owner orders = order_backend
owner payments = payment_backend
owner inventory = inventory_backend
owner products = inventory_backend
owner notifications = notification_backend

-- The collection of a resource, or a path below it.
abbrev pub IsUnder : Resource → String → Type 0
IsUnder r path =
    (path ≡ collection r) ⊎ ((rest : String) × (path ≡ glue (collection r) (glue "/" rest)))

pub same_path_refl : (s : String) → same_path s s ≡ true
same_path_refl String.[] = refl
same_path_refl (String.◌∷◌ c s) = rw (==_refl (code c)) (same_path_refl s)

below :
    (r : Resource) (rest : String)
    → (lacks_slash (glue (collection r) (glue "/" rest)) ≡ false)
      × (target_of (pick (glue (collection r) (glue "/" rest)) routes)
          ≡ served_by (proxied (owner r)))
unfolding pick
below orders String.[] = (refl, refl)
below orders (String.◌∷◌ c s) = (refl, refl)
below payments String.[] = (refl, refl)
below payments (String.◌∷◌ c s) = (refl, refl)
below inventory String.[] = (refl, refl)
below inventory (String.◌∷◌ c s) = (refl, refl)
below products String.[] = (refl, refl)
below products (String.◌∷◌ c s) = (refl, refl)
below notifications String.[] = (refl, refl)
below notifications (String.◌∷◌ c s) = (refl, refl)

at_collection :
    (r : Resource)
    → (lacks_slash (collection r) ≡ false)
      × (target_of (pick (collection r) routes) ≡ served_by (proxied (owner r)))
unfolding pick
at_collection orders = (refl, refl)
at_collection payments = (refl, refl)
at_collection inventory = (refl, refl)
at_collection products = (refl, refl)
at_collection notifications = (refl, refl)

under :
    (r : Resource) (path : String)
    → IsUnder r path
    → (lacks_slash path ≡ false) × (target_of (pick path routes) ≡ served_by (proxied (owner r)))
under r path (inl e) = rw e (at_collection r)
under r path (inr (rest, e)) = rw e (below r rest)

-- A clean path that is the collection of a resource, or below it, is answered by the service of that
-- resource, without a redirect.
pub dispatch-IsUnder :
    (clean : String → String) (r : Resource) (path : String)
    → clean_path clean path ≡ path
    → IsUnder r path
    → dispatch clean path ≡ served_by (proxied (owner r))
unfolding dispatch dispatch_escaped
dispatch-IsUnder clean r path still h =
    let u = under r path h in rw (still, u.0, same_path_refl path) u.1
