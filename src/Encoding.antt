-- ===== src/Encoding.antt =====
-- `str.encode()`, `bytes.hex()` and the `str` of a number, of the standard library.
use my_auth.Prelude.{
  zero, suc, arith, ◌≡◌, ℕ, ◌+◌, ◌/◌, ◌%◌, ◌&&◌, [], ◌∷◌, ◌++◌, ltb, leb, if◌then◌else◌,
}
use my_auth.Result.{Error, Result, ok, err, value_error, ◌>>=◌}
use my_auth.Text.{Text, Bytes}

-- One character in UTF-8; a lone surrogate is a `UnicodeEncodeError`, which is a `ValueError`.
unfoldable pub utf8_char : ℕ → Result Bytes
utf8_char c =
    if ltb c 0x80
    then ok (c ∷ [])
    else if ltb c 0x800
    then ok ((0xC0 + c / 0x40) ∷ (0x80 + c % 0x40) ∷ [])
    else if leb 0xD800 c && ltb c 0xE000
    then err value_error
    else if ltb c 0x10000
    then ok ((0xE0 + c / 0x1000) ∷ (0x80 + c / 0x40 % 0x40) ∷ (0x80 + c % 0x40) ∷ [])
    else ok (
        (0xF0 + c / 0x40000)
        ∷ (0x80 + c / 0x1000 % 0x40)
        ∷ (0x80 + c / 0x40 % 0x40)
        ∷ (0x80 + c % 0x40)
        ∷ [])

-- s.encode("utf-8")
unfoldable pub utf8 : Text → Result Bytes
unfolding utf8_char
utf8 [] = ok []
utf8 (c ∷ s) = do b ← utf8_char c; rest ← utf8 s; ok (b ++ rest)

hex_digit : ℕ → ℕ
hex_digit n = if ltb n 10 then n + 48 else n + 87

-- digest.hexdigest()
unfoldable pub hex : Bytes → Text
unfolding hex_digit
hex [] = []
hex (b ∷ bs) = hex_digit (b / 16) ∷ hex_digit (b % 16) ∷ hex bs

utf8_char-error : (c : ℕ) {x : Error} → utf8_char c ≡ err x → x ≡ value_error
unfolding utf8_char
utf8_char-error c {x} h = ground arith

-- The only exception of the encoding is the `ValueError` of a lone surrogate.
pub utf8-error : (s : Text) {x : Error} → utf8 s ≡ err x → x ≡ value_error
unfolding utf8
utf8-error [] h = cc
utf8-error (c ∷ s) {x} h = ground (arith, utf8_char-error c {x = x}, utf8-error s {x = x})

-- str(n): `fuel` bounds the number of digits.
unfoldable pub digits : ℕ → ℕ → Text
digits zero n = []
digits (suc fuel) n =
    let rest = digits fuel (n / 10) in
    if ltb n 10 then (n + 48) ∷ [] else rest ++ (n % 10 + 48) ∷ []

abbrev pub decimal : ℕ → Text
decimal n = digits (suc n) n
