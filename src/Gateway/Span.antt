-- ===== src/Gateway/Span.antt =====
-- services/api-gateway/internal/handler/router.go, `SpanName` and `routePath`: the name of the span of a
-- request. The slash is ASCII, so that characters may stand for bytes.
use Prim.Native.Char.{code, Char}
use Prim.Native.String.{String}
use eventflow_commerce.Common.{
  ℕ, ◌≡◌, refl, ap, inl, inr, Bool, List, [], ◌∷◌, take, ◌==◌, if◌then◌else◌,
}
use eventflow_commerce.Gateway.Middleware.{HttpRequest}
use eventflow_commerce.Gateway.Routes.{glue}
use eventflow_commerce.Gateway.Routes.Reach.{
  Resource, orders, payments, inventory, products, notifications, collection, IsUnder,
}

abbrev is_slash : Char → Bool
is_slash c = code c == b'/'

trim_left : String → String
trim_left String.[] = String.[]
trim_left (String.◌∷◌ c s) = if is_slash c then trim_left s else String.◌∷◌ c s

-- A character before what is left of the rest.
abbrev keep : Char → String → String
keep c String.[] = if is_slash c then String.[] else String.◌∷◌ c String.[]
keep c (String.◌∷◌ d s) = String.◌∷◌ c (String.◌∷◌ d s)

trim_right : String → String
trim_right String.[] = String.[]
trim_right (String.◌∷◌ c s) = keep c (trim_right s)

abbrev put : Char → List String → List String
put c [] = String.◌∷◌ c String.[] ∷ []
put c (p ∷ ps) = String.◌∷◌ c p ∷ ps

-- `strings.Split(s, "/")`
split_slash : String → List String
split_slash String.[] = String.[] ∷ []
split_slash (String.◌∷◌ c s) =
    if is_slash c then String.[] ∷ split_slash s else put c (split_slash s)

-- `strings.Join(parts, "/")`
join_slash : List String → String
join_slash [] = String.[]
join_slash (p ∷ []) = p
join_slash (p ∷ q ∷ ps) = glue p (glue "/" (join_slash (q ∷ ps)))

abbrev max_route_segments : ℕ
max_route_segments = 3

-- `routePath`
unfoldable pub route_path : String → String
unfolding trim_left trim_right split_slash join_slash
route_path path =
    glue "/" (join_slash (take max_route_segments (split_slash (trim_right (trim_left path)))))

-- `SpanName`
unfoldable pub span_name : HttpRequest → String
span_name r = glue r.method (glue " " (route_path r.path))

below :
    (r : Resource) (rest kept : String)
    → trim_right rest ≡ kept
    → route_path (glue (collection r) (glue "/" rest)) ≡ collection r
unfolding route_path
below orders rest String.[] e = rw e refl
below orders rest (String.◌∷◌ c s) e = rw e refl
below payments rest String.[] e = rw e refl
below payments rest (String.◌∷◌ c s) e = rw e refl
below inventory rest String.[] e = rw e refl
below inventory rest (String.◌∷◌ c s) e = rw e refl
below products rest String.[] e = rw e refl
below products rest (String.◌∷◌ c s) e = rw e refl
below notifications rest String.[] e = rw e refl
below notifications rest (String.◌∷◌ c s) e = rw e refl

at_collection : (r : Resource) → route_path (collection r) ≡ collection r
unfolding route_path
at_collection orders = refl
at_collection payments = refl
at_collection inventory = refl
at_collection products = refl
at_collection notifications = refl

-- The span of a request to a resource, or to anything below it, is named after the method and the
-- resource alone: no identifier in the path gives another name.
pub span_name-IsUnder :
    (res : Resource) (r : HttpRequest)
    → IsUnder res r.path
    → span_name r ≡ glue r.method (glue " " (collection res))
unfolding span_name
span_name-IsUnder res r (inl e) = rw e (ap (λ p. glue r.method (glue " " p)) (at_collection res))
span_name-IsUnder res r (inr (rest, e)) =
    rw e (ap (λ p. glue r.method (glue " " p)) (below res rest (trim_right rest) refl))
