-- ===== src/Oidc/Url.antt =====
-- my_auth/oidc.py, `_absolute_https_url` and `_origin`.
use my_auth.Url.{Parts, Urls}
use my_auth.Equality.{list_eq, nat_eq, option_eq, ◌==◌}
use my_auth.Text.{is_empty, codes, strip, Text}
use my_auth.Prelude.{
  ◌&&◌, zero, if◌then◌else◌, is_some, suc, none, ◌||◌, some, [], not, true, ℕ, Option, Bool,
}
use my_auth.Result.{value_error, configuration_error, err, raise_if, ok, Result, ◌>>=◌, ◌>>◌}

abbrev pub Origin : Type 0
Origin = Text × (Text × ℕ)

-- not value
abbrev pub is_blank : Option Text → Bool
is_blank none = true
is_blank (some s) = is_empty s

-- (value or "")
abbrev pub text_or_empty : Option Text → Text
text_or_empty none = []
text_or_empty (some s) = s

abbrev pub is_refused_url : Parts → Bool → Bool
is_refused_url parts allow_query =
    not (parts.scheme == codes "https")
    || is_blank parts.hostname
    || is_some parts.username
    || is_some parts.password
    || (not (is_empty parts.query) && not allow_query)
    || not (is_empty parts.fragment)

-- except ValueError as error: raise OIDCConfigurationError
abbrev pub port_checked : Result (Option ℕ) → Result (Unit {0})
port_checked (ok port) = ok tt
port_checked (err value_error) = err configuration_error
port_checked (err e) = err e

unfoldable pub absolute_https_url : Urls → Text → Bool → Result (Unit {0})
unfolding strip
absolute_https_url urls value allow_query = do
  raise_if (not (value == strip value) || is_empty value) configuration_error
  parts ← urls.urlsplit value
  raise_if (is_refused_url parts allow_query) configuration_error
  port_checked parts.port

-- parts.port or (443 if parts.scheme == "https" else 80)
abbrev pub port_or_default : Text → Option ℕ → ℕ
port_or_default scheme (some (suc port)) = suc port
port_or_default scheme (some zero) = if scheme == codes "https" then 443 else 80
port_or_default scheme none = if scheme == codes "https" then 443 else 80

unfoldable pub origin : Urls → Text → Result Origin
origin urls value = do
  parts ← urls.urlsplit value
  port ← parts.port
  ok (
    parts.scheme,
    (urls.casefold (text_or_empty parts.hostname), port_or_default parts.scheme port),
  )
