-- ===== src/Gateway/Routes/Private.antt =====
-- No public path leads to a service.
use Prim.Native.Char.{code}
use Prim.Native.String.{String}
use Prim.Native.String.{◌++◌ as str_append}
use text.Mathlib.Text.{starts_with, ◌==◌ as text_eq}
use text.Mathlib.TextEquality.{eq_iff, Char-path}
use text.Mathlib.TextLemmas.{append_cancel_left}
use eventflow_commerce.Common.{
  ◌≡◌, refl, sym, ap, ◌∙◌, subst, ◌⊎◌, inl, inr, Bool, Bool-cases, true, false, not, ◌&&◌, ◌==◌,
  ==_iff, any_row,
}
use eventflow_commerce.Gateway.Middleware.{is_public_path, public_paths, rooted}
use eventflow_commerce.Gateway.Proxy.{Backend}
use eventflow_commerce.Gateway.Routes.{
  proxied, Dispatch, served_by, routes, has_prefix, same_path, ends_in_slash, glue, pick, target_of,
  clean_path, lacks_slash, dispatch_escaped,
}

abbrev is_backend : Dispatch → Bool
is_backend (served_by (proxied b)) = true
is_backend _ = false

-- The path, once clean, is answered by a service.
abbrev leads_on : String → Bool
leads_on path = is_backend (target_of (pick path routes))

rooted_is :
    (q whole tail : String)
    → str_append "/" tail ≡ whole
    → rooted q ≡ whole
    → (q ≡ whole) ⊎ (q ≡ tail)
rooted_is q whole tail e = elim (Bool-cases (starts_with q "/")) [
  | inl s ↦ rw s (λ h. inl h)
  | inr s ↦ rw s (λ h. inr (append_cancel_left "/" q tail (h ∙ sym e)))
]

-- Neither the path nor the path with a slash.
abbrev IsAside : String → Type 0
IsAside q = (leads_on q ≡ false) × (leads_on (glue q "/") ≡ false)

either-IsAside :
    (q whole tail : String) → IsAside whole → IsAside tail → (q ≡ whole) ⊎ (q ≡ tail) → IsAside q
either-IsAside q whole tail h k (inl e) = subst IsAside (sym e) h
either-IsAside q whole tail h k (inr e) = subst IsAside (sym e) k

public-IsAside : (q : String) → any_row (λ p. text_eq (rooted q) p) public_paths ≡ true → IsAside q
unfolding pick
public-IsAside q = elim (Bool-cases (text_eq (rooted q) "/health")) [
  | inl e ↦ λ h.
      either-IsAside q "/health" "health" (refl, refl) (refl, refl)
        (rooted_is q "/health" "health" refl ((eq_iff (rooted q) "/health").0 e))
  | inr a ↦ elim (Bool-cases (text_eq (rooted q) "/metrics")) [
    | inl e ↦ λ h.
        either-IsAside q "/metrics" "metrics" (refl, refl) (refl, refl)
          (rooted_is q "/metrics" "metrics" refl ((eq_iff (rooted q) "/metrics").0 e))
    | inr b ↦ elim (Bool-cases (text_eq (rooted q) "/health/live")) [
      | inl e ↦ λ h.
          either-IsAside q "/health/live" "health/live" (refl, refl) (refl, refl)
            (rooted_is q "/health/live" "health/live" refl ((eq_iff (rooted q) "/health/live").0 e))
      | inr c ↦ elim (Bool-cases (text_eq (rooted q) "/health/ready")) [
        | inl e ↦ λ h.
            either-IsAside q "/health/ready" "health/ready" (refl, refl) (refl, refl)
              (rooted_is q "/health/ready" "health/ready" refl
                ((eq_iff (rooted q) "/health/ready").0 e))
        | inr d ↦ rw (a, b, c, d) (λ h. absurd (cc h))
      ]
    ]
  ]
]

unrooted_aside : (path : String) → has_prefix path "/" ≡ false → leads_on path ≡ false
unfolding pick
unrooted_aside String.[] = λ h. refl
unrooted_aside (String.◌∷◌ c s) = elim (Bool-cases (code c == b'/')) [
  | inl e ↦ rw e (λ h. absurd (cc h))
  | inr e ↦ rw e (λ h. refl)
]

same_path_eq : (s t : String) → same_path s t ≡ true → s ≡ t
same_path_eq String.[] String.[] = λ h. refl
same_path_eq String.[] (String.◌∷◌ c t) = λ h. absurd (cc h)
same_path_eq (String.◌∷◌ a s) String.[] = λ h. absurd (cc h)
same_path_eq (String.◌∷◌ a s) (String.◌∷◌ c t) = elim (Bool-cases (code a == code c)) [
  | inl e ↦ rw e (λ h.
      let same : a ≡ c = Char-path a c ((==_iff (code a) (code c)).0 e) in
      ap (λ x. String.◌∷◌ x s) same ∙ ap (λ r. String.◌∷◌ c r) (same_path_eq s t h))
  | inr e ↦ rw e (λ h. absurd (cc h))
]

-- A clean path is the cleaned path, but for a slash at its end.
but_for_slash :
    (clean : String → String) (path : String)
    → has_prefix path "/" ≡ true
    → clean_path clean path ≡ path
    → (clean path ≡ path) ⊎ (glue (clean path) "/" ≡ path)
but_for_slash clean path r =
    elim (Bool-cases (ends_in_slash path && not (same_path (clean path) "/"))) [
      | inl e ↦ rw (r, e) (λ h. inr h)
      | inr e ↦ rw (r, e) (λ h. inl h)
    ]

clean_aside :
    (clean : String → String) (path : String)
    → is_public_path clean path ≡ true
    → clean_path clean path ≡ path
    → leads_on path ≡ false
unfolding is_public_path
clean_aside clean path h still = elim (Bool-cases (has_prefix path "/")) [
  | inl r ↦ elim (but_for_slash clean path r still) [
    | inl e ↦ subst (λ p. leads_on p ≡ false) e (public-IsAside (clean path) h).0
    | inr e ↦ subst (λ p. leads_on p ≡ false) e (public-IsAside (clean path) h).1
  ]
  | inr r ↦ unrooted_aside path r
]

-- A path in which nothing is escaped and that a service answers is not public, so that it needs a
-- token.
pub dispatch-private :
    (clean unescape : String → String) (path : String) (b : Backend)
    → unescape path ≡ path
    → dispatch_escaped clean unescape false path ≡ served_by (proxied b)
    → is_public_path clean path ≡ false
unfolding dispatch_escaped
dispatch-private clean unescape path b plain =
    elim (Bool-cases (lacks_slash (unescape (clean_path clean path)))) [
      | inl e ↦ rw e (λ h. absurd (cc h))
      | inr e ↦ elim (Bool-cases (same_path (clean_path clean path) path)) [
        | inl f ↦
            rw (e, f)
              (λ h. elim (Bool-cases (is_public_path clean path)) [
                | inl g ↦
                    let still : clean_path clean path ≡ path =
                      same_path_eq (clean_path clean path) path f in
                    let read : unescape (clean_path clean path) ≡ path =
                      ap unescape still ∙ plain in
                    let no : leads_on path ≡ false = clean_aside clean path g still in
                    let yes' : leads_on path ≡ true =
                      ap is_backend (ap (λ p. target_of (pick p routes)) (sym read) ∙ h) in
                    absurd (cc (sym no ∙ yes'))
                | inr g ↦ g
              ])
        | inr f ↦ rw (e, f) (λ h. absurd (cc h))
      ]
    ]
