-- ===== src/Oidc/Tokens/Save.antt =====
-- my_auth/oidc.py, `MemoryTokenStore.save`: a token mapping is checked and stored as a record.
use my_auth.Dict.{put}
use my_auth.Equality.{list_eq, option_eq, nat_eq, ◌==◌}
use my_auth.Oidc.Client.{OidcClient}
use my_auth.Oidc.Scope.{join}
use my_auth.Exec.{Exec}
use my_auth.Int.{negsuc, pos, ℤ}
use my_auth.Text.{is_empty, codes, Text, Bytes, strip}
use my_auth.Prelude.{
  suc, false, ◌-◌, not, ltb, ◌&&◌, ◌+◌, leb, none, List, map, Bool, some, [], if◌then◌else◌, Option,
  ℕ,
}
use my_auth.Oidc.Tokens.{Tokens, token_key, TokenRecord}
use my_auth.Result.{type_error, value_error, raise_if, protocol_error, ok, err, Result, ◌>>=◌, ◌>>◌}
pub mod Laws

-- A value of the mapping: None, a text, a number with its `str` and its `int`, a list or tuple with
-- its `str` and those of its items, or another object with its `str`.
pub data TokenValue : Type 0 where
  null : TokenValue
  text : Text → TokenValue
  number : Text → Result ℤ → TokenValue
  sequence : Text → List Text → TokenValue
  object : Text → TokenValue

abbrev pub TokenMapping : Type 0
TokenMapping = Text → Option TokenValue

-- token.get(name)
abbrev pub value_of : Option TokenValue → TokenValue
value_of none = null
value_of (some v) = v

abbrev pub str : TokenValue → Text
str null = codes "None"
str (text s) = s
str (number s n) = s
str (sequence s items) = s
str (object s) = s

-- str(token.get("token_type", "Bearer"))
abbrev pub token_type_of : Option TokenValue → Text
token_type_of none = codes "Bearer"
token_type_of (some v) = str v

abbrev pub lower : ℕ → ℕ
lower c = if leb 65 c && leb c 90 then c + 32 else c

-- token_type.casefold() == "bearer": no other character folds to one of these letters.
abbrev pub is_bearer : Text → Bool
is_bearer s = map lower s == codes "bearer"

abbrev pub access_token_of : TokenValue → Result Text
access_token_of null = err protocol_error
access_token_of (text s) = if is_empty s then err protocol_error else ok s
access_token_of (number s n) = err protocol_error
access_token_of (sequence s items) = err protocol_error
access_token_of (object s) = err protocol_error

-- `_scope_string` of a text, list or tuple, and of None for anything else
abbrev pub scope_string : TokenValue → Text
scope_string null = []
scope_string (text s) = strip s
scope_string (number s n) = []
scope_string (sequence s items) = join items
scope_string (object s) = []

abbrev pub refresh_token_of : TokenValue → Result (Option Text)
refresh_token_of null = ok none
refresh_token_of (text s) = ok (some s)
refresh_token_of (number s n) = err protocol_error
refresh_token_of (sequence s items) = err protocol_error
refresh_token_of (object s) = err protocol_error

-- except (TypeError, ValueError) as error: raise OIDCProtocolError
abbrev pub as_protocol_error {ℓ} : {A : Type ℓ} → Result A → Result A
as_protocol_error (ok a) = ok a
as_protocol_error (err type_error) = err protocol_error
as_protocol_error (err value_error) = err protocol_error
as_protocol_error (err e) = err e

-- int(value) if isinstance(value, (str, int, float)), and whether it is one
abbrev pub int_of : (Text → Result ℤ) → TokenValue → Result (Option ℤ)
int_of int null = ok none
int_of int (text s) = do n ← int s; ok (some n)
int_of int (number s n) = do m ← n; ok (some m)
int_of int (sequence s items) = ok none
int_of int (object s) = ok none

-- now + seconds
abbrev pub after : ℕ → ℤ → ℤ
after now (pos n) = pos (now + n)
after now (negsuc n) = if ltb n now then pos (now - suc n) else negsuc (n - now)

abbrev pub or_now : ℕ → Option ℤ → ℤ
or_now now none = pos now
or_now now (some n) = n

abbrev pub after_or_now : ℕ → Option ℤ → ℤ
after_or_now now none = pos now
after_or_now now (some n) = after now n

-- The expiry by `expires_in`, or if that is None by `expires_at`.
unfoldable pub expires_at_of : (Text → Result ℤ) → ℕ → TokenValue → TokenValue → Result ℤ
expires_at_of int now null raw_expires_at = do
  n ← as_protocol_error (int_of int raw_expires_at)
  ok (or_now now n)
expires_at_of int now raw_expires raw_expires_at = do
  n ← as_protocol_error (int_of int raw_expires)
  ok (after_or_now now n)

-- expires_at <= now is refused
abbrev pub later_than : ℕ → ℤ → Result ℕ
later_than now (pos n) = if leb n now then err protocol_error else ok n
later_than now (negsuc n) = err protocol_error

module _ {User : Type 0} where
  unfoldable pub token_record :
      (Text → Result ℤ)
      → TokenMapping
      → Text
      → Text
      → ℕ
      → Option User
      → Option OidcClient
      → Result (TokenRecord User)
  unfolding strip join expires_at_of
  token_record int token client_id subject now user client = do
    access_token ← access_token_of (value_of (token (codes "access_token")))
    raise_if (not (is_bearer (token_type_of (token (codes "token_type"))))) protocol_error
    raw_expires_at ←
        expires_at_of int now (value_of (token (codes "expires_in")))
          (value_of (token (codes "expires_at")))
    expires_at ← later_than now raw_expires_at
    refresh_token ← refresh_token_of (value_of (token (codes "refresh_token")))
    ok (record {
      access_token = access_token;
      client_id = client_id;
      subject = subject;
      scope = scope_string (value_of (token (codes "scope")));
      expires_at = expires_at;
      token_type = codes "Bearer";
      refresh_token = refresh_token;
      refresh_expires_at = none;
      user = user;
      client = client;
      revoked = false;
    })

  abbrev pub store_record : TokenRecord User → Result Text → Exec (Tokens User) (TokenRecord User)
  store_record r (err e) s = (s, err e)
  store_record r (ok key) s = (put s key r, ok r)

  abbrev pub save_record :
      (Bytes → Bytes) → Result (TokenRecord User) → Exec (Tokens User) (TokenRecord User)
  save_record sha256 (err e) s = (s, err e)
  save_record sha256 (ok r) s = store_record r (token_key sha256 r.access_token) s

  unfoldable pub save :
      (Bytes → Bytes)
      → (Text → Result ℤ)
      → TokenMapping
      → Text
      → Text
      → ℕ
      → Option User
      → Option OidcClient
      → Exec (Tokens User) (TokenRecord User)
  unfolding token_record token_key
  save sha256 int token client_id subject now user client s =
      save_record sha256 (token_record int token client_id subject now user client) s
