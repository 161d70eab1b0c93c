-- ===== src/Gateway/Middleware.antt =====
-- services/api-gateway/internal/handler/middleware.go: the public paths, the JWT middleware and the
-- address of the client. filepath.Clean and golang-jwt are parameters. A handler is what it does with
-- a request, so that a middleware maps requests to outcomes; metrics and logs are left out.
pub mod Identity
use Prim.Native.String.{String}
use Prim.Native.String.{◌++◌ as str_append}
use text.Mathlib.Text.{◌==◌, starts_with}
use eventflow_commerce.Common.{
  ℕ, zero, suc, Bool, true, false, ◌||◌, Option, none, some, List, [], ◌∷◌, any_row, if◌then◌else◌,
}
use eventflow_commerce.Order.Domain.{is_empty}

-- What the middleware reads and sets of a request: `path` is URL.Path, with its escapes decoded, and
-- `escaped_path` is URL.EscapedPath().
pub record HttpRequest : Type 0 where
  pub method : String
  pub path : String
  pub escaped_path : String
  pub authorization : String
  pub user_id : String
  pub user_email : String
  pub user_role : String
  pub forwarded_for : String
  pub real_ip : String
  pub remote_addr : String

-- `Claims`
pub record Claims : Type 0 where
  pub claimed_id : String
  pub claimed_email : String
  pub claimed_role : String

-- How `jwt.ParseWithClaims` comes back for a token, under the key and the method check of the code.
pub data Parsed : Type 0 where
  parse_error : Parsed
  parsed : Bool → Claims → Parsed

-- A request goes on to the next handler, or is answered with a status.
pub data Outcome : Type 0 where
  served : HttpRequest → Outcome
  answered : ℕ → String → Outcome

abbrev pub public_paths : List String
public_paths = "/health" ∷ "/metrics" ∷ "/health/live" ∷ "/health/ready" ∷ []

abbrev pub rooted : String → String
rooted path = if starts_with path "/" then path else str_append "/" path

-- `isPublicPath`, by what filepath.Clean does
unfoldable pub is_public_path : (String → String) → String → Bool
is_public_path clean path = any_row (λ p. rooted (clean path) == p) public_paths

abbrev pub drop_chars : ℕ → String → String
drop_chars zero s = s
drop_chars (suc n) String.[] = String.[]
drop_chars (suc n) (String.◌∷◌ c s) = drop_chars n s

-- The token behind `Bearer `.
abbrev pub token_of : String → String
token_of header = drop_chars 7 header

abbrev pub lacks_claim : Claims → Bool
lacks_claim c = is_empty c.claimed_id || is_empty c.claimed_email || is_empty c.claimed_role

-- The headers that are set for the services behind the gateway.
abbrev pub with_identity : Claims → HttpRequest → HttpRequest
with_identity c r = record r {
  user_id = c.claimed_id;
  user_email = c.claimed_email;
  user_role = c.claimed_role;
}

abbrev pub admitted_by : Parsed → HttpRequest → Outcome
admitted_by parse_error r = answered 401 "Invalid token"
admitted_by (parsed false c) r = answered 401 "Invalid token"
admitted_by (parsed true c) r =
    if lacks_claim c then answered 401 "Invalid token claims" else served (with_identity c r)

module _ (clean : String → String) (parse : String → Parsed) where
  -- `JWTMiddleware`
  unfoldable pub jwt_middleware : HttpRequest → Outcome
  jwt_middleware r =
      if is_public_path clean r.path
      then served r
      else if is_empty r.authorization
      then answered 401 "Missing Authorization header"
      else if starts_with r.authorization "Bearer "
      then admitted_by (parse (token_of r.authorization)) r
      else answered 401 "Invalid Authorization header format"
