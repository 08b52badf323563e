-- ===== src/Base64.antt =====
-- `base64.urlsafe_b64encode` of the standard library, and `bytes.rstrip` of its padding.
pub mod Decode
pub mod Laws
use my_auth.Prelude.{[], ◌*◌, ◌-◌, ◌&&◌, ◌+◌, ◌%◌, nat_beq, ltb, ◌/◌, ◌∷◌, if◌then◌else◌, ℕ}
use my_auth.Text.{is_empty, Text, Bytes}

-- The digit for a value below 64: A-Z, a-z, 0-9, "-" and "_".
unfoldable pub digit : ℕ → ℕ
digit n =
    if ltb n 26
    then n + 65
    else if ltb n 52
    then n + 71
    else if ltb n 62
    then n - 4
    else if nat_beq n 62
    then 45
    else 95

-- Three bytes make four digits; "=" fills the last group.
unfoldable pub urlsafe_b64encode : Bytes → Text
unfolding digit
urlsafe_b64encode [] = []
urlsafe_b64encode (a ∷ []) = digit (a / 4) ∷ digit (a % 4 * 16) ∷ 61 ∷ 61 ∷ []
urlsafe_b64encode (a ∷ b ∷ []) =
    digit (a / 4) ∷ digit (a % 4 * 16 + b / 16) ∷ digit (b % 16 * 4) ∷ 61 ∷ []
urlsafe_b64encode (a ∷ b ∷ c ∷ rest) =
    digit (a / 4)
    ∷ digit (a % 4 * 16 + b / 16)
    ∷ digit (b % 16 * 4 + c / 64)
    ∷ digit (c % 64)
    ∷ urlsafe_b64encode rest

-- s.rstrip("=")
unfoldable pub rstrip_padding : Text → Text
rstrip_padding [] = []
rstrip_padding (c ∷ s) =
    let rest = rstrip_padding s in if nat_beq c 61 && is_empty rest then [] else c ∷ rest
