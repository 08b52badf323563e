-- ===== src/Base64/Laws.antt =====
-- Decoding what was encoded without its padding gives the bytes back.
use my_auth.Result.{Result, ok}
use my_auth.Prelude.{
  Bool, all, ◌%◌, ◌*◌, zero, suc, ◌/◌, ◌∙◌, [], ap, length, ◌++◌, ◌+◌, arith, refl, true, false,
  nat_beq, ltb, ◌∷◌, ◌≡◌, ◌<◌, All, ℕ,
}
use my_auth.Text.{Text, Bytes}
use my_auth.Base64.{digit, urlsafe_b64encode, rstrip_padding}
use my_auth.Base64.Decode.{
  urlsafe_b64decode, cons_byte, equals, undigit, decode, emit, feed, Group, none_read, one_read,
  two_read, three_read, padding,
}

digit_lem :
    (n : ℕ)
    → n < 64
    → (undigit (digit n) ≡ n) × (nat_beq (digit n) 61 ≡ false) × (ltb (digit n) 128 ≡ true)
unfolding digit undigit
digit_lem n h = (ground arith, ground arith, ground arith)

decode-step :
    (g : Group) (pads c v : ℕ) (s : Text)
    → nat_beq c 61 ≡ false
    → undigit c ≡ v
    → v < 64
    → decode g pads (c ∷ s) ≡ emit g v (decode (feed g v) 0 s)
unfolding decode
decode-step g pads c v s plain e h = ground arith

decode-digit :
    (g : Group) (pads n : ℕ) (s : Text)
    → n < 64
    → decode g pads (digit n ∷ s) ≡ emit g n (decode (feed g n) 0 s)
decode-digit g pads n s h =
    let (back, plain, ascii) = digit_lem n h in decode-step g pads (digit n) n s plain back h

rstrip-digit :
    (n : ℕ) (s : Text) → n < 64 → rstrip_padding (digit n ∷ s) ≡ digit n ∷ rstrip_padding s
unfolding rstrip_padding
rstrip-digit n s h = rw ((digit_lem n h).1) refl

abbrev pub AreBytes : Bytes → Type 0
AreBytes bs = All (λ b. b < 256) bs

-- An encoding without its padding.
abbrev pub unpadded : Bytes → Text
unpadded bs = rstrip_padding (urlsafe_b64encode bs)

padding-suc : (n : ℕ) → padding (suc (suc (suc (suc n)))) ≡ padding n
unfolding padding
padding-suc n = ap equals (omega arith)

-- What the digits of a whole group, of three of them, and of two of them decode to.
decode-two :
    (w x : ℕ) (s : Text)
    → w < 64
    → x < 64
    → decode none_read 0 (digit w ∷ digit x ∷ s)
      ≡ cons_byte (w * 4 + x / 16) (decode (two_read (x % 16)) 0 s)
decode-two w x s hw hx =
    decode-digit none_read 0 w (digit x ∷ s) hw ∙ decode-digit (one_read w) 0 x s hx

decode-three :
    (w x y : ℕ) (s : Text)
    → w < 64
    → x < 64
    → y < 64
    → decode none_read 0 (digit w ∷ digit x ∷ digit y ∷ s)
      ≡ cons_byte
          (w * 4 + x / 16)
          (cons_byte (x % 16 * 16 + y / 4) (decode (three_read (y % 4)) 0 s))
decode-three w x y s hw hx hy =
    decode-two w x (digit y ∷ s) hw hx
    ∙ ap (cons_byte (w * 4 + x / 16)) (decode-digit (two_read (x % 16)) 0 y s hy)

decode-four :
    (w x y z : ℕ) (s : Text)
    → w < 64
    → x < 64
    → y < 64
    → z < 64
    → decode none_read 0 (digit w ∷ digit x ∷ digit y ∷ digit z ∷ s)
      ≡ cons_byte
          (w * 4 + x / 16)
          (cons_byte (x % 16 * 16 + y / 4) (cons_byte (y % 4 * 64 + z) (decode none_read 0 s)))
decode-four w x y z s hw hx hy hz =
    decode-three w x y (digit z ∷ s) hw hx hy
    ∙ ap (λ r. cons_byte (w * 4 + x / 16) (cons_byte (x % 16 * 16 + y / 4) r))
        (decode-digit (three_read (y % 4)) 0 z s hz)

rstrip-equals : (n : ℕ) → rstrip_padding (equals n) ≡ []
unfolding rstrip_padding equals
rstrip-equals zero = refl
rstrip-equals (suc n) = ground (arith, rstrip-equals n)

unpadded-two :
    (w x : ℕ)
    → w < 64
    → x < 64
    → rstrip_padding (digit w ∷ digit x ∷ 61 ∷ 61 ∷ []) ≡ digit w ∷ digit x ∷ []
unfolding equals
unpadded-two w x hw hx =
    rstrip-digit w _ hw
    ∙ ap (◌∷◌ (digit w)) (rstrip-digit x _ hx ∙ ap (◌∷◌ (digit x)) (rstrip-equals 2))

unpadded-three :
    (w x y : ℕ)
    → w < 64
    → x < 64
    → y < 64
    → rstrip_padding (digit w ∷ digit x ∷ digit y ∷ 61 ∷ []) ≡ digit w ∷ digit x ∷ digit y ∷ []
unfolding equals
unpadded-three w x y hw hx hy =
    rstrip-digit w _ hw
    ∙ ap (◌∷◌ (digit w)) (
        rstrip-digit x _ hx
        ∙ ap (◌∷◌ (digit x)) (rstrip-digit y _ hy ∙ ap (◌∷◌ (digit y)) (rstrip-equals 1)))

unpadded-four :
    (w x y z : ℕ) (s : Text)
    → w < 64
    → x < 64
    → y < 64
    → z < 64
    → rstrip_padding (digit w ∷ digit x ∷ digit y ∷ digit z ∷ s)
      ≡ digit w ∷ digit x ∷ digit y ∷ digit z ∷ rstrip_padding s
unpadded-four w x y z s hw hx hy hz =
    rstrip-digit w _ hw
    ∙ ap (◌∷◌ (digit w)) (
        rstrip-digit x _ hx
        ∙ ap (◌∷◌ (digit x)) (rstrip-digit y _ hy ∙ ap (◌∷◌ (digit y)) (rstrip-digit z s hz)))

-- A text with the padding that its length asks for.
abbrev pub padded : Text → Text
padded s = s ++ padding (length s)

padded-four : (a b c d : ℕ) (s : Text) → padded (a ∷ b ∷ c ∷ d ∷ s) ≡ a ∷ b ∷ c ∷ d ∷ padded s
padded-four a b c d s = ap (λ p. a ∷ b ∷ c ∷ d ∷ s ++ p) (padding-suc (length s))

padding_ends :
    (decode none_read 0 (padding 0) ≡ ok [])
    × ((l : ℕ) → decode (two_read l) 0 (padding 2) ≡ ok [])
    × ((l : ℕ) → decode (three_read l) 0 (padding 3) ≡ ok [])
unfolding decode padding equals
padding_ends = (refl, λ l. refl, λ l. refl)

one_byte :
    (a : ℕ) (r : Result Bytes) → r ≡ ok [] → cons_byte (a / 4 * 4 + a % 4 * 16 / 16) r ≡ ok (a ∷ [])
one_byte a r e = rw e (ap (λ x. ok (x ∷ [])) (omega arith))

two_bytes :
    (a b : ℕ) (r : Result Bytes)
    → b < 256
    → r ≡ ok []
    → cons_byte
        (a / 4 * 4 + (a % 4 * 16 + b / 16) / 16)
        (cons_byte ((a % 4 * 16 + b / 16) % 16 * 16 + b % 16 * 4 / 4) r)
      ≡ ok (a ∷ b ∷ [])
two_bytes a b r h e =
    let first : a / 4 * 4 + (a % 4 * 16 + b / 16) / 16 ≡ a = omega (arith, h) in
    let second : (a % 4 * 16 + b / 16) % 16 * 16 + b % 16 * 4 / 4 ≡ b = omega (arith, h) in
    rw (e, first, second) refl

three_bytes :
    (a b c : ℕ) (r : Result Bytes) (rest : Bytes)
    → b < 256
    → c < 256
    → r ≡ ok rest
    → cons_byte (a / 4 * 4 + (a % 4 * 16 + b / 16) / 16) (
        cons_byte
          ((a % 4 * 16 + b / 16) % 16 * 16 + (b % 16 * 4 + c / 64) / 4)
          (cons_byte ((b % 16 * 4 + c / 64) % 4 * 64 + c % 64) r))
      ≡ ok (a ∷ b ∷ c ∷ rest)
three_bytes a b c r rest hb hc e =
    let first : a / 4 * 4 + (a % 4 * 16 + b / 16) / 16 ≡ a = omega (arith, hb) in
    let second : (a % 4 * 16 + b / 16) % 16 * 16 + (b % 16 * 4 + c / 64) / 4 ≡ b =
      omega (arith, hb, hc) in
    let third : (b % 16 * 4 + c / 64) % 4 * 64 + c % 64 ≡ c = omega (arith, hc) in
    rw (e, first, second, third) refl

decode-unpadded : (bs : Bytes) → AreBytes bs → decode none_read 0 (padded (unpadded bs)) ≡ ok bs
unfolding urlsafe_b64encode equals
decode-unpadded [] h = ap (λ s. decode none_read 0 (padded s)) (rstrip-equals 0) ∙ padding_ends.0
decode-unpadded (a ∷ []) h =
    let w : a / 4 < 64 = omega (arith, h.0) in
    let x : a % 4 * 16 < 64 = omega arith in
    ap (λ s. decode none_read 0 (padded s)) (unpadded-two (a / 4) (a % 4 * 16) w x)
    ∙ decode-two (a / 4) (a % 4 * 16) (padding 2) w x
    ∙ one_byte a _ (padding_ends.1 (a % 4 * 16 % 16))
decode-unpadded (a ∷ b ∷ []) h =
    let w : a / 4 < 64 = omega (arith, h.0) in
    let x : a % 4 * 16 + b / 16 < 64 = omega (arith, h.1.0) in
    let y : b % 16 * 4 < 64 = omega arith in
    ap (λ s. decode none_read 0 (padded s))
      (unpadded-three (a / 4) (a % 4 * 16 + b / 16) (b % 16 * 4) w x y)
    ∙ decode-three (a / 4) (a % 4 * 16 + b / 16) (b % 16 * 4) (padding 3) w x y
    ∙ two_bytes a b _ h.1.0 (padding_ends.2 (b % 16 * 4 % 4))
decode-unpadded (a ∷ b ∷ c ∷ rest) h =
    let w : a / 4 < 64 = omega (arith, h.0) in
    let x : a % 4 * 16 + b / 16 < 64 = omega (arith, h.1.0) in
    let y : b % 16 * 4 + c / 64 < 64 = omega (arith, h.1.1.0) in
    let z : c % 64 < 64 = omega arith in
    ap (λ s. decode none_read 0 (padded s))
      (unpadded-four (a / 4) (a % 4 * 16 + b / 16) (b % 16 * 4 + c / 64) (c % 64)
        (urlsafe_b64encode rest) w x y z)
    ∙ ap (decode none_read 0) (
        padded-four (digit (a / 4)) (digit (a % 4 * 16 + b / 16)) (digit (b % 16 * 4 + c / 64))
          (digit (c % 64)) (unpadded rest))
    ∙ decode-four (a / 4) (a % 4 * 16 + b / 16) (b % 16 * 4 + c / 64) (c % 64)
        (padded (unpadded rest)) w x y z
    ∙ three_bytes a b c _ rest h.1.0 h.1.1.0 (decode-unpadded rest h.1.1.1)

abbrev is_ascii : ℕ → Bool
is_ascii c = ltb c 128

digit-ascii : (n : ℕ) → is_ascii (digit n) ≡ true
unfolding digit
digit-ascii n = ground arith

encode-ascii : (bs : Bytes) → all is_ascii (urlsafe_b64encode bs) ≡ true
unfolding urlsafe_b64encode all
encode-ascii [] = refl
encode-ascii (a ∷ []) = rw (digit-ascii (a / 4), digit-ascii (a % 4 * 16)) refl
encode-ascii (a ∷ b ∷ []) =
    rw (digit-ascii (a / 4), digit-ascii (a % 4 * 16 + b / 16), digit-ascii (b % 16 * 4)) refl
encode-ascii (a ∷ b ∷ c ∷ rest) =
    rw
      (
        digit-ascii (a / 4),
        digit-ascii (a % 4 * 16 + b / 16),
        digit-ascii (b % 16 * 4 + c / 64),
        digit-ascii (c % 64),
      )
      (encode-ascii rest)

rstrip-ascii : (s : Text) → all is_ascii s ≡ true → all is_ascii (rstrip_padding s) ≡ true
unfolding rstrip_padding all
rstrip-ascii [] h = refl
rstrip-ascii (c ∷ s) h = ground (arith, rstrip-ascii s)

equals-ascii : (n : ℕ) → all is_ascii (equals n) ≡ true
unfolding equals all
equals-ascii zero = refl
equals-ascii (suc n) = equals-ascii n

all-append :
    (s t : Text) → all is_ascii s ≡ true → all is_ascii t ≡ true → all is_ascii (s ++ t) ≡ true
unfolding all
all-append [] t h k = k
all-append (c ∷ s) t h k = ground (arith, all-append s t)

-- Bytes that are encoded, without the padding, and decoded again with the padding are the bytes.
pub urlsafe_b64decode-urlsafe_b64encode :
    (bs : Bytes) → AreBytes bs → urlsafe_b64decode (padded (unpadded bs)) ≡ ok bs
unfolding urlsafe_b64decode padding
urlsafe_b64decode-urlsafe_b64encode bs h =
    let ascii : all is_ascii (padded (unpadded bs)) ≡ true =
      all-append (unpadded bs) (padding (length (unpadded bs)))
        (rstrip-ascii (urlsafe_b64encode bs) (encode-ascii bs)) (equals-ascii _) in
    rw ascii (decode-unpadded bs h)
