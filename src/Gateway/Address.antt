-- ===== src/Gateway/Address.antt =====
-- The address of a client: `getClientIPFromRequest` of services/api-gateway/internal/handler/middleware.go,
-- by which the rate limiter tells clients apart, and `getClientIP` and `setProxyHeaders` of router.go,
-- which tell the services. net.ParseIP and net.SplitHostPort are parameters.
use Prim.Native.Char.{code}
use Prim.Native.String.{String}
use eventflow_commerce.Common.{
  ℕ, ◌≡◌, ◌⊎◌, refl, sym, subst, inl, inr, Bool, Bool-cases, true, false, ◌&&◌, ◌||◌, Option, none,
  some, ◌==◌, leb, if◌then◌else◌,
}
use eventflow_commerce.Order.Domain.{is_empty}
use eventflow_commerce.Gateway.Middleware.{HttpRequest}

-- `unicode.IsSpace`
abbrev is_space : ℕ → Bool
is_space c =
    (leb 9 c && leb c 13)
    || (c == 32)
    || (c == 0x85)
    || (c == 0xA0)
    || (c == 0x1680)
    || (leb 0x2000 c && leb c 0x200a)
    || (c == 0x2028)
    || (c == 0x2029)
    || (c == 0x202f)
    || (c == 0x205f)
    || (c == 0x3000)

trim_left : String → String
trim_left String.[] = String.[]
trim_left (String.◌∷◌ c s) = if is_space (code c) then trim_left s else String.◌∷◌ c s

abbrev put_left : ℕ → String → String → String
put_left c whole rest = if is_empty rest && is_space c then String.[] else whole

trim_right : String → String
trim_right String.[] = String.[]
trim_right (String.◌∷◌ c s) = put_left (code c) (String.◌∷◌ c (trim_right s)) (trim_right s)

-- `strings.TrimSpace`
unfoldable pub trim_space : String → String
unfolding trim_left trim_right
trim_space s = trim_right (trim_left s)

-- The first part of `strings.Split(s, ",")`.
unfoldable pub before_comma : String → String
before_comma String.[] = String.[]
before_comma (String.◌∷◌ c s) = if code c == b',' then String.[] else String.◌∷◌ c (before_comma s)

abbrev or_here : Bool → Option String → (String → String) → Option String
or_here here (some rest) f = some (f rest)
or_here true none f = some String.[]
or_here false none f = none

-- What stands before the last colon, `none` without a colon.
unfoldable pub before_last_colon : String → Option String
before_last_colon String.[] = none
before_last_colon (String.◌∷◌ c s) =
    or_here (code c == b':') (before_last_colon s) (λ rest. String.◌∷◌ c rest)

abbrev pub first_forwarded : HttpRequest → String
first_forwarded r = trim_space (before_comma r.forwarded_for)

abbrev or_unknown : Option String → String
or_unknown none = "unknown"
or_unknown (some ip) = ip

-- `getClientIPFromRequest`
unfoldable pub get_client_ip_from_request : HttpRequest → String
get_client_ip_from_request r =
    if is_empty r.forwarded_for
    then (if is_empty r.real_ip then or_unknown (before_last_colon r.remote_addr) else r.real_ip)
    else first_forwarded r

-- The headers of a request to a service that `setProxyHeaders` sets, and its host.
pub record ProxyHeaders : Type 0 where
  pub sent_forwarded_for : String
  pub sent_real_ip : String
  pub forwarded_proto : String
  pub original_path : String
  pub forwarded_host : String
  pub host : String

module _ (is_valid_ip : String → Bool) (split_host_port : String → Option String) where
  abbrev if_valid : Option String → Option String
  if_valid none = none
  if_valid (some ip) = if is_valid_ip ip then some ip else none

  abbrev or_next : Option String → Option String → Option String
  or_next (some ip) next = some ip
  or_next none next = next

  abbrev given : String → String → Option String
  given header ip = if is_empty header then none else if_valid (some ip)

  -- `getClientIP`
  unfoldable pub get_client_ip : HttpRequest → String
  get_client_ip r = or_unknown (
      or_next (given r.forwarded_for (first_forwarded r)) (
        or_next (given r.real_ip r.real_ip) (
          or_next (if_valid (split_host_port r.remote_addr))
            (if_valid (before_last_colon r.remote_addr)))))

  -- `setProxyHeaders`, after the director of NewSingleHostReverseProxy has set the scheme of the URL
  -- to that of the service
  unfoldable pub set_proxy_headers : String → String → String → HttpRequest → ProxyHeaders
  set_proxy_headers scheme own_host target_host r =
      let ip = get_client_ip r in
      record {
        sent_forwarded_for = if is_empty ip then r.forwarded_for else ip;
        sent_real_ip =
            if is_empty ip then r.real_ip else if is_empty r.real_ip then ip else r.real_ip;
        forwarded_proto = if is_empty scheme then "http" else scheme;
        original_path = r.path;
        forwarded_host = own_host;
        host = target_host;
      }

  abbrev IsSound : Option String → Type 0
  IsSound o = (ip : String) → o ≡ some ip → is_valid_ip ip ≡ true

  if_valid-IsSound : (o : Option String) → IsSound (if_valid o)
  if_valid-IsSound none ip = λ h. absurd (cc h)
  if_valid-IsSound (some x) ip = elim (Bool-cases (is_valid_ip x)) [
    | inl e ↦ rw e (λ h. let same : x ≡ ip = cc h in subst (λ i. is_valid_ip i ≡ true) same e)
    | inr e ↦ rw e (λ h. absurd (cc h))
  ]

  given-IsSound : (header ip : String) → IsSound (given header ip)
  given-IsSound header ip = elim (Bool-cases (is_empty header)) [
    | inl e ↦ rw e (λ i h. absurd (cc h))
    | inr e ↦ rw e (if_valid-IsSound (some ip))
  ]

  next-IsSound : (o next : Option String) → IsSound o → IsSound next → IsSound (or_next o next)
  next-IsSound none next h k = k
  next-IsSound (some x) next h k = h

  or_unknown-lem :
      (o : Option String)
      → IsSound o
      → (or_unknown o ≡ "unknown") ⊎ (is_valid_ip (or_unknown o) ≡ true)
  or_unknown-lem none h = inl refl
  or_unknown-lem (some ip) h = inr (h ip refl)

  client_ip_lem :
      (r : HttpRequest) → (get_client_ip r ≡ "unknown") ⊎ (is_valid_ip (get_client_ip r) ≡ true)
  unfolding get_client_ip
  client_ip_lem r = or_unknown-lem _ (
      next-IsSound _ _ (given-IsSound r.forwarded_for (first_forwarded r)) (
        next-IsSound _ _ (given-IsSound r.real_ip r.real_ip) (
          next-IsSound _ _ (if_valid-IsSound (split_host_port r.remote_addr))
            (if_valid-IsSound (before_last_colon r.remote_addr)))))

  kept_ip :
      (ip header : String)
      → is_valid_ip "" ≡ false
      → (ip ≡ "unknown") ⊎ (is_valid_ip ip ≡ true)
      → (if is_empty ip then header else ip) ≡ ip
  kept_ip String.[] header n (inl e) = absurd (cc e)
  kept_ip String.[] header n (inr e) = absurd (cc (n, e))
  kept_ip (String.◌∷◌ c s) header n h = refl

  -- Whatever headers a client sends, `setProxyHeaders` sets X-Forwarded-For to one valid address or
  -- to "unknown", the original path to the path of the request and the host to that of the service,
  -- if the empty text is no valid address.
  pub set_proxy_headers_forwarded :
      (scheme own_host target_host : String) (r : HttpRequest)
      → is_valid_ip "" ≡ false
      → (((set_proxy_headers scheme own_host target_host r).sent_forwarded_for ≡ "unknown")
          ⊎ (is_valid_ip (set_proxy_headers scheme own_host target_host r).sent_forwarded_for
              ≡ true))
        × ((set_proxy_headers scheme own_host target_host r).original_path ≡ r.path)
        × ((set_proxy_headers scheme own_host target_host r).host ≡ target_host)
  unfolding set_proxy_headers
  set_proxy_headers_forwarded scheme own_host target_host r n =
      let h = client_ip_lem r in
      (
        subst (λ ip. (ip ≡ "unknown") ⊎ (is_valid_ip ip ≡ true))
            (sym (kept_ip (get_client_ip r) r.forwarded_for n h)) h,
        refl,
        refl,
      )
