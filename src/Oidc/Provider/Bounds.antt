-- ===== src/Oidc/Provider/Bounds.antt =====
-- What a provider that was set up has: lifetimes within the limits, and every client under its
-- identifier.
use my_auth.Dict.Laws.{get-put}
use my_auth.Equality.{beq_self, list_beq_iff, option_eq, list_eq, nat_eq}
use my_auth.Result.{ok_injective, configuration_error, guard_ok, ok}
use my_auth.Prelude.{
  ap, nat_beq_iff, nat_beq, not, inr, inl, Option-cases, none, suc, ◌≢◌, arith, [], All, ◌+◌, ◌≤◌,
  ◌∷◌, some, List, true, length, ◌≡◌,
}
use my_auth.Oidc.Client.{OidcClient}
use my_auth.Text.{Text}
use my_auth.Oidc.Provider.{
  is_lifetime, Provider, query_client, client_map_from, new_provider, Settings,
}
use my_auth.Dict.{get, put, Dict}

length-put-le :
    (d : Dict Text OidcClient) (k : Text) (c : OidcClient) → length (put d k c) ≤ suc (length d)
unfolding put
length-put-le [] k c = omega arith
length-put-le ((j, x) ∷ d) k c = ground (arith, length-put-le d k c)

length-put-old :
    (d : Dict Text OidcClient) (k : Text) (c x : OidcClient)
    → get d k ≡ some x
    → length (put d k c) ≡ length d
unfolding put get
length-put-old [] k c x g = cc
length-put-old ((j, y) ∷ d) k c x g = ground (arith, length-put-old d k c x)

client_map_from-le :
    (d : Dict Text OidcClient) (cs : List OidcClient)
    → length (client_map_from d cs) ≤ length d + length cs
unfolding client_map_from
client_map_from-le d [] = omega arith
client_map_from-le d (c ∷ cs) =
    omega (arith, client_map_from-le (put d c.client_id c) cs, length-put-le d c.client_id c)

-- In a map that has as many entries as there are clients, the first one was new.
module _ (d : Dict Text OidcClient) (c : OidcClient) (cs : List OidcClient)
    (full : length (client_map_from d (c ∷ cs)) ≡ length d + suc (length cs)) where
  rest_full :
      length (client_map_from (put d c.client_id c) cs) ≡ length (put d c.client_id c) + length cs
  unfolding client_map_from
  rest_full =
      omega
        (arith, full, client_map_from-le (put d c.client_id c) cs, length-put-le d c.client_id c)

  first_new : get d c.client_id ≡ none
  unfolding client_map_from
  first_new = elim (Option-cases (get d c.client_id)) [
    | inl fresh ↦ fresh
    | inr (x, old) ↦ absurd (
        omega (
          arith,
          full,
          client_map_from-le (put d c.client_id c) cs,
          length-put-old d c.client_id c x old,
        ))
  ]

kept :
    (d : Dict Text OidcClient) (cs : List OidcClient) (k : Text) (x : OidcClient)
    → length (client_map_from d cs) ≡ length d + length cs
    → get d k ≡ some x
    → get (client_map_from d cs) k ≡ some x
unfolding client_map_from
kept d [] k x full g = g
kept d (c ∷ cs) k x full g =
    let fresh = first_new d c cs full in
    kept (put d c.client_id c) cs k x (rest_full d c cs full)
      (ground (arith, get-put d c.client_id k c, list_beq_iff c.client_id k))

registered :
    (d : Dict Text OidcClient) (cs : List OidcClient)
    → length (client_map_from d cs) ≡ length d + length cs
    → All (λ c. get (client_map_from d cs) c.client_id ≡ some c) cs
unfolding client_map_from
registered d [] full = tt
registered d (c ∷ cs) full = (
  kept (put d c.client_id c) cs c.client_id c (rest_full d c cs full)
      (ground (arith, get-put d c.client_id c.client_id c, beq_self c.client_id)),
  registered (put d c.client_id c) cs (rest_full d c cs full),
)

-- The lifetimes are within their limits, and there are clients, each found under its identifier.
pub record Configured {U Keys : Type 0} (settings : Settings U Keys) (p : Provider U Keys)
    : Type 0 where
  pub code_lifetime : is_lifetime 600 p.authorization_code_lifetime ≡ true
  pub access_lifetime : is_lifetime 3600 p.access_token_lifetime ≡ true
  pub id_lifetime : is_lifetime 3600 p.id_token_lifetime ≡ true
  pub clients_found : All (λ c. query_client p c.client_id ≡ some c) settings.clients
  pub has_clients : settings.clients ≢ []

-- A provider that was set up has an authorization code lifetime of 1 to 600 seconds and token
-- lifetimes of 1 to 3600; it has a client, and each given client is found under its identifier.
pub new_provider-Configured :
    {U Keys : Type 0} (settings : Settings U Keys) {p : Provider U Keys}
    → new_provider settings ≡ ok p
    → Configured settings p
unfolding new_provider query_client
new_provider-Configured settings {p} h =
    let clients = client_map_from [] settings.clients in
    let (a, h1) =
      guard_ok (not (is_lifetime 600 settings.authorization_code_lifetime)) configuration_error _
        h in
    let (b, h2) =
      guard_ok (not (is_lifetime 3600 settings.access_token_lifetime)) configuration_error _ h1 in
    let (c, h3) =
      guard_ok (not (is_lifetime 3600 settings.id_token_lifetime)) configuration_error _ h2 in
    let (d, h4) = guard_ok settings.allow_refresh_tokens configuration_error _ h3 in
    let (e, h5) =
      guard_ok (not (nat_beq (length clients) (length settings.clients))) configuration_error _
        h4 in
    let (f, h6) = guard_ok (nat_beq (length clients) 0) configuration_error _ h5 in
    let full : length clients ≡ length settings.clients =
      ground (arith, nat_beq_iff (length clients) (length settings.clients)) in
    rw (← ok_injective h6) (record {
      code_lifetime = ground arith;
      access_lifetime = ground arith;
      id_lifetime = ground arith;
      clients_found = registered [] settings.clients (omega (arith, full));
      has_clients =
          λ none_given. ground (arith, ap length none_given, nat_beq_iff (length clients) 0);
    })
