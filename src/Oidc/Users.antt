-- ===== src/Oidc/Users.antt =====
-- my_auth/oidc.py, `OIDCUserAdapter` and its default functions: what the provider reads of a user of
-- the host.
use my_auth.Equality.{nat_eq, list_eq, option_eq}
use my_auth.Int.{ℤ}
use my_auth.Oidc.Scope.{member}
use my_auth.Text.{codes, is_empty, Text}
use my_auth.Dict.{Dict, put}
use my_auth.Prelude.{
  [], not, ◌∷◌, true, false, some, Option, List, none, Bool, if◌then◌else◌, String,
}
use my_auth.Result.{protocol_error, ok, err, Result, ◌>>=◌}

-- The value of an attribute: None, a text, a truth value, or another object, of which only the truth
-- is read.
pub data Attribute : Type 0 where
  null : Attribute
  text : Text → Attribute
  flag : Bool → Attribute
  object : Bool → Attribute

-- A user as the attributes that it has.
abbrev pub User : Type 0
User = Text → Option Attribute

-- getattr(user, name, default)
abbrev pub getattr : User → String → Attribute → Attribute
getattr user name default = elim (user (codes name)) [ none ↦ default | some a ↦ a ]

pub data ClaimValue : Type 0 where
  text : Text → ClaimValue
  flag : Bool → ClaimValue

abbrev pub Claims : Type 0
Claims = Dict Text ClaimValue

-- The function may raise, as a function of the host may.
pub record UserAdapter (U : Type 0) : Type 0 where
  pub subject : U → Result Text
  pub claims : U → List Text → Result Claims
  pub resolve : Option (Text → Result (Option U))
  pub active : U → Result Bool
  pub authentication_time : U → Result (Option ℤ)
  pub amr : U → Result (List Text)
  pub acr : U → Result (Option Text)

abbrev pub truth : Attribute → Bool
truth null = false
truth (Attribute.text s) = not (is_empty s)
truth (Attribute.flag b) = b
truth (object b) = b

-- The text of an attribute that is a non-empty `str`.
abbrev pub text_of : Attribute → Option Text
text_of null = none
text_of (Attribute.text s) = if is_empty s then none else some s
text_of (Attribute.flag b) = none
text_of (object b) = none

abbrev pub text_or_protocol_error : Option Text → Result Text
text_or_protocol_error none = err protocol_error
text_or_protocol_error (some s) = ok s

unfoldable pub default_user_subject : User → Result Text
default_user_subject user = text_or_protocol_error (text_of (getattr user "user_id" null))

-- A claim, if its scope is granted and the attribute is a non-empty text.
abbrev pub with_text : Bool → String → Option Text → Claims → Claims
with_text granted name none claims = claims
with_text granted name (some s) claims =
    if granted then put claims (codes name) (ClaimValue.text s) else claims

abbrev pub with_flag : String → Attribute → Claims → Claims
with_flag name null claims = claims
with_flag name (Attribute.text s) claims = claims
with_flag name (Attribute.flag b) claims = put claims (codes name) (ClaimValue.flag b)
with_flag name (object b) claims = claims

-- getattr(user, "display_name", None) or getattr(user, "name", None)
abbrev pub display_name : User → Attribute
display_name user =
    if truth (getattr user "display_name" null)
    then getattr user "display_name" null
    else getattr user "name" null

-- `email` and `email_verified`
unfoldable pub email_claims : User → Bool → Option Text → Claims → Claims
unfolding put
email_claims user granted none claims = claims
email_claims user granted (some email) claims =
    if granted
    then with_flag "email_verified" (getattr user "email_verified" null)
        (put claims (codes "email") (ClaimValue.text email))
    else claims

-- The claims of a subject, by the granted scopes.
unfoldable pub project_claims : User → List Text → Text → Claims
unfolding email_claims put
project_claims user scope subject =
    email_claims user (member (codes "email") scope) (text_of (getattr user "email" null)) (
      with_text (member (codes "profile") scope) "name" (text_of (display_name user))
        ((codes "sub", ClaimValue.text subject) ∷ []))

unfoldable pub default_user_claims : User → List Text → Result Claims
unfolding default_user_subject project_claims
default_user_claims user scope = do
  subject ← default_user_subject user
  ok (project_claims user scope subject)

unfoldable pub default_user_active : User → Bool
default_user_active user = truth (getattr user "is_active" (Attribute.flag true))

-- The adapter with its defaults.
unfoldable pub default_adapter : UserAdapter User
unfolding default_user_subject default_user_claims default_user_active
default_adapter = record {
  subject = default_user_subject;
  claims = default_user_claims;
  resolve = none;
  active = λ user. ok (default_user_active user);
  authentication_time = λ user. ok none;
  amr = λ user. ok (codes "webauthn" ∷ []);
  acr = λ user. ok none;
}
