-- ===== src/Oidc/Provider/Released.antt =====
-- Which claims a provider releases: the subject's own, and of the others those that the scopes allow.
use my_auth.Equality.{list_beq_iff, list_beq}
use my_auth.Dict.Laws.{get-put}
use my_auth.Equality.{option_eq, nat_eq, list_eq, ◌==◌}
use my_auth.Oidc.Users.{ClaimValue, Claims}
use my_auth.Oidc.Scope.{scope_values, ScopeValue, member}
use my_auth.Text.{is_empty, codes, Text}
use my_auth.Prelude.{
  [], ◌∷◌, refl, inr, inl, none, ◌&&◌, arith, Bool-cases, false, if◌then◌else◌, ◌∙◌, some, ◌≡◌,
  Bool, select, any, List,
}
use my_auth.Dict.{put, get}
use my_auth.Oidc.Provider.{Provider, subject_for, claims_for, allowed_claims, released}
use my_auth.Result.{protocol_error, ok, bind_ok, ok_injective, guard_ok}

get-select :
    (p : Text → Bool) (d : Claims) (k : Text)
    → get (select (λ c. p c.0) d) k ≡ (if p k then get d k else none)
unfolding get select
get-select p [] k = ground arith
get-select p ((j, v) ∷ d) k = elim (Bool-cases (p j)) [
  | inl asked ↦ rw asked (ground (arith, get-select p d k, list_beq_iff j k))
  | inr missing ↦ rw missing (ground (arith, get-select p d k, list_beq_iff j k))
]

-- What is released of a user's claims: the subject, and under any other name what the adapter claims
-- if the scopes are those of an OpenID request that allow the name.
pub record Released (scopes : List Text) (subject : Text) (claims out : Claims) : Type 0 where
  pub own_subject : get out (codes "sub") ≡ some (ClaimValue.text subject)
  pub others :
      (k : Text)
      → (codes "sub" == k) ≡ false
      → get out k ≡ (
          if member (codes "openid") scopes && member k (allowed_claims scopes)
          then get claims k
          else none)
  pub no_email : member (codes "email") scopes ≡ false → get out (codes "email") ≡ none
  pub no_name : member (codes "profile") scopes ≡ false → get out (codes "name") ≡ none

released-others :
    (scopes : List Text) (subject : Text) (claims : Claims) (k : Text)
    → (codes "sub" == k) ≡ false
    → get (released scopes subject claims) k ≡ (
        if member (codes "openid") scopes && member k (allowed_claims scopes)
        then get claims k
        else none)
unfolding released get
released-others scopes subject claims k other = elim (Bool-cases (member (codes "openid") scopes)) [
  | inr missing ↦ rw (missing, other) refl
  | inl asked ↦
      rw
        (
          asked,
          get-select (λ n. member n (allowed_claims scopes))
              (put claims (codes "sub") (ClaimValue.text subject)) k,
          get-put claims (codes "sub") k (ClaimValue.text subject),
          other,
        )
        refl
]

released-subject :
    (scopes : List Text) (subject : Text) (claims : Claims)
    → get (released scopes subject claims) (codes "sub") ≡ some (ClaimValue.text subject)
unfolding released get allowed_claims any list_beq
released-subject scopes subject claims = elim (Bool-cases (member (codes "openid") scopes)) [
  | inr missing ↦ rw missing refl
  | inl asked ↦
      rw
        (
          asked,
          get-select (λ n. member n (allowed_claims scopes))
              (put claims (codes "sub") (ClaimValue.text subject)) (codes "sub"),
          get-put claims (codes "sub") (codes "sub") (ClaimValue.text subject),
        )
        refl
]

email_not_allowed :
    (scopes : List Text)
    → member (codes "email") scopes ≡ false
    → member (codes "email") (allowed_claims scopes) ≡ false
unfolding allowed_claims any list_beq
email_not_allowed scopes missing = elim (Bool-cases (member (codes "profile") scopes)) [
  | inl profile ↦ rw (missing, profile) refl
  | inr plain ↦ rw (missing, plain) refl
]

name_not_allowed :
    (scopes : List Text)
    → member (codes "profile") scopes ≡ false
    → member (codes "name") (allowed_claims scopes) ≡ false
unfolding allowed_claims any list_beq
name_not_allowed scopes missing = elim (Bool-cases (member (codes "email") scopes)) [
  | inl email ↦ rw (missing, email) refl
  | inr plain ↦ rw (missing, plain) refl
]

released-Released :
    (scopes : List Text) (subject : Text) (claims : Claims)
    → Released scopes subject claims (released scopes subject claims)
unfolding list_beq
released-Released scopes subject claims = record {
  own_subject = released-subject scopes subject claims;
  others = released-others scopes subject claims;
  no_email = λ missing.
      released-others scopes subject claims (codes "email") refl
      ∙ ground (arith, email_not_allowed scopes missing);
  no_name = λ missing.
      released-others scopes subject claims (codes "name") refl
      ∙ ground (arith, name_not_allowed scopes missing);
}

-- Released claims come from the adapter: it was asked for the claims and for the subject, which is not
-- empty and stands under `sub`; under any other name stands what it claims if the scopes contain
-- openid and allow the name, and nothing otherwise, so that email and name need their scopes.
pub claims_for-Released :
    {U Keys : Type 0} (p : Provider U Keys) (user : U) (scope : ScopeValue) {out : Claims}
    → claims_for p user scope ≡ ok out
    → (scopes : List Text) × (claims : Claims) × (subject : Text) × (scope_values scope ≡ ok scopes)
      × (p.users.claims user scopes ≡ ok claims)
      × (p.users.subject user ≡ ok subject)
      × (is_empty subject ≡ false)
      × Released scopes subject claims out
unfolding claims_for subject_for
claims_for-Released p user scope h =
    let (scopes, a, h1) = bind_ok (scope_values scope) _ h in
    let (claims, b, h2) = bind_ok (p.users.claims user scopes) _ h1 in
    let (subject, c, h3) = bind_ok (subject_for p user) _ h2 in
    let (own, d, c1) = bind_ok (p.users.subject user) _ c in
    let (full, c2) = guard_ok (is_empty own) protocol_error _ c1 in
    let same : own ≡ subject = ok_injective c2 in
    (
      scopes,
      claims,
      subject,
      a,
      b,
      rw (← same) d,
      rw (← same) full,
      rw (← ok_injective h3) (released-Released scopes subject claims),
    )
