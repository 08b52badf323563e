-- ===== src/Sql/Bind.antt =====
-- The values that the stores bind to the parameters of a statement, and how Python's sqlite3 takes
-- them: a text must be encodable in UTF-8, and an integer must fit a signed 64-bit word. The statements
-- list the values of which that is not plain: base64url, hexadecimal, ISO dates and JSON are ASCII.
use my_auth.Encoding.{utf8}
use my_auth.Result.{overflow_error, raise_if, Result-cases, is_ok, ok, Result}
use my_auth.Text.{Text}
use my_auth.Prelude.{
  leb, ap, arith, inr, true, inl, [], none, ◌∷◌, ℕ, some, All, ◌<◌, List, ◌≡◌, Option, refl,
}
use my_auth.Result.{◌>>=◌, ◌>>◌}

pub data Value : Type 0 where
  null : Value
  text : Text → Value
  integer : ℕ → Value

-- The parameter of a text that may be None.
abbrev pub optional : Option Text → Value
optional none = null
optional (some s) = text s

-- A text with a lone surrogate raises the UnicodeEncodeError of its encoding, and an integer from 2^63
-- on an OverflowError.
unfoldable pub bind_value : Value → Result (Unit {0})
bind_value null = ok tt
bind_value (text s) = do encoded ← utf8 s; ok tt
bind_value (integer n) = raise_if (leb (0x8000000000000000) n) overflow_error

unfoldable pub bind : List Value → Result (Unit {0})
unfolding bind_value
bind [] = ok tt
bind (v ∷ vs) = do bind_value v; bind vs

-- A SELECT with its parameters.
abbrev pub bound {ℓ} : {A : Type ℓ} → List Value → Result A → Result A
bound vs result = bind vs >> result

-- No lone surrogate.
abbrev pub IsEncodable : Text → Type 0
IsEncodable s = is_ok (utf8 s) ≡ true

-- The parameter takes the value.
abbrev pub CanBind : Value → Type 0
CanBind null = Unit
CanBind (text s) = IsEncodable s
CanBind (integer n) = n < 0x8000000000000000

bind_value-CanBind : (v : Value) → CanBind v → bind_value v ≡ ok tt
unfolding bind_value
bind_value-CanBind null h = refl
bind_value-CanBind (text s) h = elim (Result-cases (utf8 s)) [
  | inl (b, e) ↦ rw e refl
  | inr (x, e) ↦ absurd (ground (arith, ap is_ok e))
]
bind_value-CanBind (integer n) h = ground arith

-- Values that can be bound are.
pub bind-CanBind : (vs : List Value) → All CanBind vs → bind vs ≡ ok tt
unfolding bind
bind-CanBind [] h = refl
bind-CanBind (v ∷ vs) h = rw (bind_value-CanBind v h.0, bind-CanBind vs h.1) refl
