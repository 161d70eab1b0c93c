-- ===== src/Gateway/Middleware/Identity.antt =====
-- What the services behind the gateway may conclude from the identity headers.
use Prim.Native.String.{String}
use text.Mathlib.Text.{starts_with}
use eventflow_commerce.Common.{◌≡◌, ◌⊎◌, refl, true, false, Bool-cases, inl, inr}
use eventflow_commerce.Gateway.Middleware.{
  HttpRequest, Claims, Parsed, parse_error, parsed, served, is_public_path, token_of, lacks_claim,
  with_identity, admitted_by, jwt_middleware,
}
use eventflow_commerce.Order.Domain.{is_empty}

module _ (clean : String → String) (parse : String → Parsed) where
  -- The token of a request is valid, and these are its claims.
  abbrev pub IsAuthenticated : HttpRequest → HttpRequest → Type 0
  IsAuthenticated r passed =
      (c : Claims) × (starts_with r.authorization "Bearer " ≡ true)
      × (parse (token_of r.authorization) ≡ parsed true c)
      × (lacks_claim c ≡ false)
      × (passed ≡ with_identity c r)

  admitted_by-served :
      (p : Parsed) (r passed : HttpRequest)
      → admitted_by p r ≡ served passed
      → (c : Claims) × (p ≡ parsed true c) × (lacks_claim c ≡ false) × (passed ≡ with_identity c r)
  admitted_by-served parse_error r passed = λ h. absurd (cc)
  admitted_by-served (parsed false c) r passed = λ h. absurd (cc)
  admitted_by-served (parsed true c) r passed = elim (Bool-cases (lacks_claim c)) [
    | inl e ↦ rw e (λ h. absurd (cc))
    | inr e ↦ rw e (λ h. (c, refl, e, cc))
  ]

  -- A request that the middleware passes on has a public path and is passed on as it came, or it has
  -- a valid token with all claims, and the identity headers that the services see are those claims,
  -- whatever the client sent in them.
  pub jwt_middleware-IsAuthenticated :
      (r passed : HttpRequest)
      → jwt_middleware clean parse r ≡ served passed
      → ((is_public_path clean r.path ≡ true) × (passed ≡ r)) ⊎ IsAuthenticated r passed
  unfolding jwt_middleware
  jwt_middleware-IsAuthenticated r passed = elim (Bool-cases (is_public_path clean r.path)) [
    | inl e ↦ rw e (λ h. inl (refl, cc))
    | inr e ↦ elim (Bool-cases (is_empty r.authorization)) [
      | inl f ↦ rw (e, f) (λ h. absurd (cc))
      | inr f ↦ elim (Bool-cases (starts_with r.authorization "Bearer ")) [
        | inl g ↦
            rw (e, f, g)
              (λ h.
                let a = admitted_by-served (parse (token_of r.authorization)) r passed h in
                inr (a.0, refl, a.1, a.2, a.3))
        | inr g ↦ rw (e, f, g) (λ h. absurd (cc))
      ]
    ]
  ]
