-- ===== src/Oidc/Codes/Once.antt =====
-- Over every run of calls of the memory code store a code is consumed at most as often as it was
-- saved.
use my_auth.Dict.Laws.{get-remove, get-put}
use my_auth.Oidc.Code.Redeem.{redeem}
use my_auth.Equality.{list_beq_iff, option_eq, nat_eq, ◌==◌, list_eq}
use my_auth.Dict.{get, keys_where}
use my_auth.Result.{err, ok, is_ok, Result}
use my_auth.Prelude.{
  refl, none, false, ◌&&◌, some, arith, ◌∷◌, ◌+◌, ◌≡◌, Option, List, Bool, if◌then◌else◌, ◌≤◌, ℕ,
  [],
}
use my_auth.Text.{Text, Bytes}
use my_auth.Oidc.Code.{AuthorizationCode}
use my_auth.Oidc.Codes
use my_auth.Oidc.Codes.{Store, cleanup, get_code, consume_found, consume_redeemed, is_stale}
use my_auth.Dict.Sweep.{stored, stored-remove_all}

pub data Call (User : Type 0) : Type 0 where
  save : (code : AuthorizationCode User) (now : ℕ) → Call User
  lookup : (value client_id : Text) (now : ℕ) → Call User
  consume : (value client_id redirect_uri code_verifier : Text) (now : ℕ) → Call User
  has_nonce : (client_id nonce : Text) (current : ℕ) → Call User

module _ {User : Type 0} (sha256 : Bytes → Bytes) where
  -- The state after a call, whether it saved a code of the value, and whether it consumed one.
  unfoldable pub call : Text → Call User → Store User → Store User × Bool × Bool
  call v (Call.save code now) s =
      let (t, r) = Codes.save code now s in (t, is_ok r && code.value == v, false)
  call v (Call.lookup value client_id now) s = ((get_code value client_id now s).0, false, false)
  call v (Call.consume value client_id redirect_uri code_verifier now) s =
      let (t, r) = Codes.consume sha256 value client_id redirect_uri code_verifier now s in
      (t, false, is_ok r && value == v)
  call v (Call.has_nonce client_id nonce current) s =
      ((Codes.has_nonce client_id nonce current s).0, false, false)

  unfoldable pub saves : Text → List (Call User) → Store User → ℕ
  unfolding call
  saves v [] s = 0
  saves v (c ∷ cs) s =
      let (t, saved, consumed) = call v c s in (if saved then 1 else 0) + saves v cs t

  unfoldable pub consumptions : Text → List (Call User) → Store User → ℕ
  unfolding call
  consumptions v [] s = 0
  consumptions v (c ∷ cs) s =
      let (t, saved, consumed) = call v c s in (if consumed then 1 else 0) + consumptions v cs t

  stored-cleanup :
      (v : Text) (now : ℕ) (s : Store User) → stored v (cleanup now s).codes ≤ stored v s.codes
  unfolding cleanup
  stored-cleanup v now s = stored-remove_all (keys_where (is_stale now) s.codes) s.codes v

  consume_redeemed-counts :
      (v value : Text) (s : Store User) (c d : AuthorizationCode User) (r : Result Text)
      → get s.codes value ≡ some c
      → let (t, answer) = consume_redeemed value s (d, r) in
        (if is_ok answer && value == v then 1 else 0) + stored v t.codes ≤ stored v s.codes
  unfolding consume_redeemed
  consume_redeemed-counts v value s c d (ok subject) found =
      ground (arith, get-remove s.codes value v, list_beq_iff value v)
  consume_redeemed-counts v value s c d (err x) found =
      ground (arith, get-put s.codes value v d, list_beq_iff value v)

  consume_found-counts :
      (v value client_id redirect_uri code_verifier : Text) (now : ℕ) (s : Store User)
      (found : Option (AuthorizationCode User))
      → get s.codes value ≡ found
      → let (t, answer) =
          consume_found sha256 value client_id redirect_uri code_verifier now found s in
        (if is_ok answer && value == v then 1 else 0) + stored v t.codes ≤ stored v s.codes
  unfolding consume_found
  consume_found-counts v value client_id redirect_uri code_verifier now s none e = omega arith
  consume_found-counts v value client_id redirect_uri code_verifier now s (some c) e =
      let (d, r) = redeem sha256 client_id redirect_uri code_verifier now c in
      consume_redeemed-counts v value s c d r e

  save-counts :
      (v : Text) (code : AuthorizationCode User) (now : ℕ) (s : Store User)
      → let (t, answer) = Codes.save code now s in
        stored v t.codes ≤ (if is_ok answer && code.value == v then 1 else 0) + stored v s.codes
  unfolding Codes.save
  save-counts v code now s =
      ground (arith, get-put (cleanup now s).codes code.value v code, stored-cleanup v now s)

  call-counts :
      (v : Text) (c : Call User) (s : Store User)
      → let (t, saved, consumed) = call v c s in
        (if consumed then 1 else 0) + stored v t.codes ≤ (if saved then 1 else 0) + stored v s.codes
  unfolding call get_code Codes.consume Codes.has_nonce
  call-counts v (Call.save code now) s = omega (arith, save-counts v code now s)
  call-counts v (Call.lookup value client_id now) s = omega (arith, stored-cleanup v now s)
  call-counts v (Call.consume value client_id redirect_uri code_verifier now) s =
      let step =
        consume_found-counts v value client_id redirect_uri code_verifier now (cleanup now s)
          (get (cleanup now s).codes value) refl in
      omega (arith, step, stored-cleanup v now s)
  call-counts v (Call.has_nonce client_id nonce current) s = ground arith

  counts :
      (v : Text) (calls : List (Call User)) (s : Store User)
      → consumptions v calls s ≤ saves v calls s + stored v s.codes
  unfolding consumptions saves
  counts v [] s = omega arith
  counts v (c ∷ cs) s = omega (arith, call-counts v c s, counts v cs (call v c s).0)

abbrev pub empty : {User : Type 0} → Store User
empty = record { codes = []; nonce_expiry = [] }

-- From an empty store, whatever calls are made and in whatever order, also by other clients and with
-- other verifiers: no code is consumed more often than it was saved.
pub consumptions-le-saves :
    {User : Type 0} (sha256 : Bytes → Bytes) (calls : List (Call User)) (v : Text)
    → consumptions sha256 v calls empty ≤ saves sha256 v calls empty
unfolding get
consumptions-le-saves sha256 calls v = omega (arith, counts sha256 v calls empty)
