-- ===== src/Base64/Decode.antt =====
-- `base64.urlsafe_b64decode` of the standard library: CPython's `binascii.a2b_base64` after "-" and
-- "_" were translated. It skips what is no digit and stops where the padding completes a group.
use my_auth.Prelude.{
  zero, all, ◌||◌, ltb, suc, ◌-◌, ◌/◌, true, ◌&&◌, leb, nat_beq, [], ◌+◌, false, ◌%◌, if◌then◌else◌,
  Bool, ◌∷◌, ◌*◌, ℕ,
}
use my_auth.Result.{value_error, err, ok, Result}
use my_auth.Text.{Text, Bytes}

-- The value of a digit in either alphabet, and 64 for any other character.
unfoldable pub undigit : ℕ → ℕ
undigit c =
    if leb 65 c && leb c 90
    then c - 65
    else if leb 97 c && leb c 122
    then c - 71
    else if leb 48 c && leb c 57
    then c + 4
    else if nat_beq c 45 || nat_beq c 43
    then 62
    else if nat_beq c 95 || nat_beq c 47
    then 63
    else 64

-- How many digits of the current group were read, with the bits that they left over.
pub data Group : Type 0 where
  none_read : Group
  one_read two_read three_read : ℕ → Group

abbrev pub cons_byte : ℕ → Result Bytes → Result Bytes
cons_byte b (ok bs) = ok (b ∷ bs)
cons_byte b (err e) = err e

-- Whether one more "=" after so many completes the group.
abbrev pub completes : Group → ℕ → Bool
completes none_read pads = false
completes (one_read l) pads = false
completes (two_read l) pads = leb 1 pads
completes (three_read l) pads = true

-- The end of the input inside a group is a `binascii.Error`, which is a `ValueError`.
abbrev pub at_end : Group → Result Bytes
at_end none_read = ok []
at_end _ = err value_error

-- The group after a digit, and the byte that the digit completes.
abbrev pub feed : Group → ℕ → Group
feed none_read v = one_read v
feed (one_read l) v = two_read (v % 16)
feed (two_read l) v = three_read (v % 4)
feed (three_read l) v = none_read

abbrev pub emit : Group → ℕ → Result Bytes → Result Bytes
emit none_read v rest = rest
emit (one_read l) v rest = cons_byte (l * 4 + v / 16) rest
emit (two_read l) v rest = cons_byte (l * 16 + v / 4) rest
emit (three_read l) v rest = cons_byte (l * 64 + v) rest

unfoldable pub decode : Group → ℕ → Text → Result Bytes
unfolding undigit
decode g pads [] = at_end g
decode g pads (c ∷ s) = elim (nat_beq c 61) [
  | true ↦ elim (completes g pads) [ true ↦ ok [] | false ↦ decode g (suc pads) s ]
  | false ↦ elim (ltb (undigit c) 64) [
    | true ↦ emit g (undigit c) (decode (feed g (undigit c)) 0 s)
    | false ↦ decode g pads s
  ]
]

-- "=" * n
unfoldable pub equals : ℕ → Text
equals zero = []
equals (suc n) = 61 ∷ equals n

-- "=" * (-n % 4)
unfoldable pub padding : ℕ → Text
unfolding equals
padding n = equals ((4 - n % 4) % 4)

-- base64.urlsafe_b64decode(s.encode("ascii")); the encoding raises a `ValueError` too.
unfoldable pub urlsafe_b64decode : Text → Result Bytes
unfolding decode
urlsafe_b64decode s = if all (λ c. ltb c 128) s then decode none_read 0 s else err value_error
