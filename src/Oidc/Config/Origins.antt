-- ===== src/Oidc/Config/Origins.antt =====
-- The endpoints of an accepted configuration.
use my_auth.Equality.{pair_eq, list_eq, nat_eq}
use my_auth.Equality.{KeyEq, option_eq, nat_eq, list_eq, list_beq_iff, ◌==◌}
use my_auth.Text.{is_empty, strip, codes, Text}
use my_auth.Prelude.{
  ap, arith, ◌∙◌, sym, ◌||◌, [], none, not, ◌∷◌, false, Bool, All, List, Option, some, ◌≡◌,
}
use my_auth.Oidc.Url.{is_refused_url, origin, Origin, absolute_https_url}
use my_auth.Url.{Urls}
use my_auth.Oidc.Config.{endpoints, ProviderConfig, new_config, check_endpoint, check_endpoints}
use my_auth.Result.{
  raise_if, Error, configuration_error, ok, then_ok, bind_ok, guard_ok, ok_injective,
}

-- An endpoint that is given is an HTTPS URL of this origin.
abbrev pub IsAt : Urls → Origin → Option Text → Type 0
IsAt urls at none = Unit
IsAt urls at (some url) = (origin urls url ≡ ok at) × (absolute_https_url urls url false ≡ ok tt)

-- The issuer's origin has the scheme https, and it is the origin of every endpoint.
pub record HasOneOrigin (urls : Urls) (config : ProviderConfig) : Type 0 where
  pub at : Origin
  pub issuer_at : IsAt urls at (some config.issuer)
  pub endpoints_at : All (IsAt urls at) (endpoints config)
  pub secure : at.0 ≡ codes "https"

passed_equal :
    {K : Type 0} ⦃e : KeyEq K⦄ (a b : K) (x : Error) → raise_if (not (a == b)) x ≡ ok tt → a ≡ b
passed_equal ⦃e⦄ a b x h = ground (arith, e.beq_iff a b)

check_endpoint-IsAt :
    (urls : Urls) (at : Origin) (e : Option Text)
    → check_endpoint urls at e ≡ ok tt
    → IsAt urls at e
unfolding check_endpoint
check_endpoint-IsAt urls at none h = tt
check_endpoint-IsAt urls at (some url) h =
    let (a, h1) = then_ok (absolute_https_url urls url false) _ h in
    let (own, b, h2) = bind_ok (origin urls url) _ h1 in
    let same : own ≡ at = passed_equal own at configuration_error h2 in (rw (← same) b, a)

check_endpoints-IsAt :
    (urls : Urls) (at : Origin) (es : List (Option Text))
    → check_endpoints urls at es ≡ ok tt
    → All (IsAt urls at) es
unfolding check_endpoints
check_endpoints-IsAt urls at [] h = tt
check_endpoints-IsAt urls at (e ∷ es) h =
    let (a, h1) = then_ok (check_endpoint urls at e) _ h in
    (check_endpoint-IsAt urls at e a, check_endpoints-IsAt urls at es h1)

-- An accepted URL has the scheme https.
secure_origin :
    (urls : Urls) (url : Text) (allow_query : Bool) {at : Origin}
    → absolute_https_url urls url allow_query ≡ ok tt
    → origin urls url ≡ ok at
    → at.0 ≡ codes "https"
unfolding absolute_https_url origin
secure_origin urls url allow_query {at} h k =
    let (a, h1) = guard_ok (not (url == strip url) || is_empty url) configuration_error _ h in
    let (parts, b, h2) = bind_ok (urls.urlsplit url) _ h1 in
    let (c, h3) = guard_ok (is_refused_url parts allow_query) configuration_error _ h2 in
    let (again, d, k1) = bind_ok (urls.urlsplit url) _ k in
    let (port, e, k2) = bind_ok again.port _ k1 in
    let same : again ≡ parts = ok_injective (sym d ∙ b) in
    let https : parts.scheme ≡ codes "https" =
      (list_beq_iff parts.scheme (codes "https")).0 (ground arith) in
    sym (ap (λ o. o.0) (ok_injective k2)) ∙ ap (λ p. p.scheme) same ∙ https

-- In an accepted configuration every endpoint that is given is an HTTPS URL of the issuer's origin,
-- whose scheme is https.
pub new_config-HasOneOrigin :
    (urls : Urls) (given : ProviderConfig) {config : ProviderConfig}
    → new_config urls given ≡ ok config
    → HasOneOrigin urls config
unfolding new_config
new_config-HasOneOrigin urls given {config} h =
    let (a, h1) = then_ok (absolute_https_url urls given.issuer false) _ h in
    let (at, b, h2) = bind_ok (origin urls given.issuer) _ h1 in
    let (c, h3) = then_ok (check_endpoints urls at (endpoints given)) _ h2 in
    rw (← ok_injective h3) (record {
      at = at;
      issuer_at = (b, a);
      endpoints_at = check_endpoints-IsAt urls at (endpoints given) c;
      secure = secure_origin urls given.issuer false a b;
    })
