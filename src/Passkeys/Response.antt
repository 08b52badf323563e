-- ===== src/Passkeys/Response.antt =====
-- my_auth/passkeys.py: what the service reads from the browser's credential response, a JSON value.
use my_auth.Equality.{option_eq, list_eq, nat_eq, ◌==◌}
use my_auth.Text.{is_empty, codes, Bytes, Text}
use my_auth.Prelude.{some, none, ◌∷◌, map, true, not, [], List, false, Option, Bool, if◌then◌else◌}
use my_auth.Result.{
  type_error, value_error, attribute_error, credential_not_found, err, raise_if, ok, Result, ◌>>=◌,
  ◌>>◌,
}
use my_auth.Passkeys.Models.{b64url_to_bytes}

-- A JSON value in Python. A number or a Boolean is given by its truth value and its `str()`.
mutual
  pub data Json : Type 0 where
    null : Json
    text : Text → Json
    scalar : (truth : Bool) (shown : Text) → Json
    array : Items → Json
    object : Fields → Json

  pub data Items : Type 0 where
    no_item : Items
    item : Json → Items → Items

  pub data Fields : Type 0 where
    no_field : Fields
    field : Text → Json → Fields → Fields

-- d.get(key), with None for what is not there
unfoldable pub get_field : Fields → Text → Json
get_field no_field key = null
get_field (field k v d) key = let rest = get_field d key in if k == key then v else rest

-- bool(value)
abbrev pub truth_of : Json → Bool
truth_of null = false
truth_of (text s) = not (is_empty s)
truth_of (scalar b shown) = b
truth_of (array no_item) = false
truth_of (array (item v vs)) = true
truth_of (object no_field) = false
truth_of (object (field k v d)) = true

-- a or b
abbrev pub or_else : Json → Json → Json
or_else a b = if truth_of a then a else b

-- What `credential` may be: a mapping, or the text of one.
pub data Response : Type 0 where
  mapping : Fields → Response
  encoded : Text → Response

-- `dict(credential)`, or the object that `json.loads` gives.
abbrev pub as_object : Json → Result Fields
as_object (object d) = ok d
as_object _ = err value_error

unfoldable pub credential_data : (Text → Result Json) → Response → Result Fields
credential_data json_loads (mapping d) = ok d
credential_data json_loads (encoded s) = json_loads s >>= as_object

-- credential.get("response") or {}; only a mapping has `.get`.
abbrev pub response_fields : Json → Result Fields
response_fields (object d) = ok d
response_fields null = ok no_field
response_fields (text s) = if is_empty s then ok no_field else err attribute_error
response_fields (scalar b shown) = if b then err attribute_error else ok no_field
response_fields (array no_item) = ok no_field
response_fields (array (item v vs)) = err attribute_error

-- b64url_to_bytes(value) if value else None, where only a text can be decoded
abbrev pub optional_bytes : Json → Result (Option Bytes)
optional_bytes (text s) =
    if is_empty s then ok none else do bytes ← b64url_to_bytes s; ok (some bytes)
optional_bytes v = if truth_of v then err type_error else ok none

unfoldable pub user_handle_from_response : Fields → Result (Option Bytes)
unfolding get_field b64url_to_bytes
user_handle_from_response credential = do
  response ← response_fields (get_field credential (codes "response"))
  optional_bytes (get_field response (codes "userHandle"))

unfoldable pub field_names : Fields → List Text
field_names no_field = []
field_names (field k v d) = k ∷ field_names d

module _ (repr : Json → Text) where
  -- str(value); `repr` shows arrays and objects.
  abbrev pub str_of : Json → Text
  str_of null = codes "None"
  str_of (text s) = s
  str_of (scalar b shown) = shown
  str_of v = repr v

  unfoldable pub credential_id_from_response : Fields → Result Bytes
  unfolding get_field b64url_to_bytes
  credential_id_from_response credential =
      let value =
        or_else (get_field credential (codes "rawId")) (get_field credential (codes "id")) in
      do raise_if (not (truth_of value)) credential_not_found; b64url_to_bytes (str_of value)

  unfoldable pub str_items : Items → List Text
  str_items no_item = []
  str_items (item v vs) = str_of v ∷ str_items vs

  -- [str(value) for value in values or []]: a text gives its characters, a mapping its keys.
  unfoldable pub transports_of : Json → Result (List Text)
  unfolding str_items field_names
  transports_of null = ok []
  transports_of (text s) = ok (map (λ c. c ∷ []) s)
  transports_of (scalar b shown) = if b then err type_error else ok []
  transports_of (array vs) = ok (str_items vs)
  transports_of (object d) = ok (field_names d)

  unfoldable pub transports_from_response : Fields → Result (List Text)
  unfolding get_field transports_of
  transports_from_response credential = do
    response ← response_fields (get_field credential (codes "response"))
    transports_of (get_field response (codes "transports"))
