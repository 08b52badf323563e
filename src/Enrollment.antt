-- ===== src/Enrollment.antt =====
-- my_auth/enrollment.py: the capability records, their validation, and the hash of a token.
pub mod Lifecycle
pub mod Memory
pub mod Sqlite
use my_auth.Prelude.{
  ℕ, suc, ◌≤◌, ◌≡◌, Bool, true, false, not, ◌&&◌, ◌||◌, Option, none, some, List, [], ◌∷◌, ◌++◌,
  arith, is_none, is_some, leb,
}
use my_auth.Equality.{◌==◌, list_eq, nat_eq}
use my_auth.Text.{Text, Bytes, codes, is_empty, strip}
use my_auth.Int.{ℤ, Instant, is_nonpositive, add_seconds}
use my_auth.Encoding.{utf8-error, utf8, hex}
use my_auth.Result.{
  Error, Result, ok, err, value_error, capability_not_found, ◌>>=◌, ◌>>◌, raise_if,
}

abbrev pub invitation : Text
invitation = codes "invitation"

abbrev pub account_recovery : Text
account_recovery = codes "account_recovery"

pub record EnrollmentCapability : Type 0 where
  pub capability_id : Text
  pub purpose : Text
  pub subject : Text
  pub expires_at : Instant
  pub issued_by : Option Text
  pub claimed_flow_id : Option Text
  pub claimed_at : Option Instant
  pub consumed_at : Option Instant
  pub revoked_at : Option Instant

pub record IssuedEnrollmentCapability : Type 0 where
  pub capability : EnrollmentCapability
  pub token : Text

-- What the host's `now()` returns: a datetime with a time zone, as the instant that it names, or
-- one without.
pub data Reading : Type 0 where
  aware : Instant → Reading
  naive : Instant → Reading

unfoldable pub now_utc : Reading → Result Instant
now_utc (aware t) = ok t
now_utc (naive t) = err value_error

unfoldable pub is_purpose : Text → Bool
is_purpose purpose = purpose == invitation || purpose == account_recovery

-- `x != x.strip()` or empty
unfoldable pub is_untrimmed : Text → Bool
is_untrimmed s = is_empty s || not (s == strip s)

bad_issuer : Option Text → Bool
unfolding is_untrimmed
bad_issuer none = false
bad_issuer (some issuer) = is_untrimmed issuer

unfoldable pub validate_issue : Text → Text → ℤ → Option Text → Result (Unit {0})
unfolding is_untrimmed is_purpose bad_issuer
validate_issue subject purpose ttl_seconds issued_by = do
  raise_if (is_untrimmed subject) value_error
  raise_if (not (is_purpose purpose)) value_error
  raise_if (is_nonpositive ttl_seconds) value_error
  raise_if (bad_issuer issued_by) value_error

unfoldable pub validate_claim : Text → Text → Text → Result (Unit {0})
unfolding is_purpose
validate_claim token flow_id expected_purpose = do
  raise_if (is_empty token || is_empty flow_id) capability_not_found
  raise_if (not (is_purpose expected_purpose)) value_error

-- The prefix of the hashed message, `b"my-auth:enrollment-capability:v1\0"`.
abbrev pub hash_prefix : Bytes
hash_prefix = codes "my-auth:enrollment-capability:v1" ++ 0 ∷ []

-- `hashlib.sha256(...).digest()` is a parameter: what is proved holds for every function.
module _ (sha256 : Bytes → Bytes) where
  unfoldable pub token_hash : Text → Result Text
  token_hash token = do encoded ← utf8 token; ok (hex (sha256 (hash_prefix ++ encoded)))

  -- `token` and `capability_id` are the two values of `secrets.token_urlsafe`.
  unfoldable pub new_issued :
      Text
      → Text
      → ℤ
      → Option Text
      → Instant
      → Text
      → Text
      → Result (IssuedEnrollmentCapability × Text)
  unfolding token_hash
  new_issued subject purpose ttl_seconds issued_by now token capability_id = do
    expires_at ← add_seconds now ttl_seconds
    digest ← token_hash token
    ok (
      record {
        capability = record {
          capability_id = capability_id;
          purpose = purpose;
          subject = subject;
          expires_at = expires_at;
          issued_by = issued_by;
          claimed_flow_id = none;
          claimed_at = none;
          consumed_at = none;
          revoked_at = none;
        };
        token = token;
      },
      digest,
    )

-- record.claimed_flow_id not in {None, flow_id}
abbrev pub held_by_other : Text → Option Text → Bool
held_by_other flow_id none = false
held_by_other flow_id (some holder) = not (holder == flow_id)

-- The tests of the two stores on a record that a token or a flow has found.
unfoldable pub is_spent : Instant → EnrollmentCapability → Bool
is_spent now c = leb c.expires_at now || is_some c.consumed_at || is_some c.revoked_at

unfoldable pub is_unclaimable : Text → Text → Instant → EnrollmentCapability → Bool
unfolding is_spent
is_unclaimable flow_id expected_purpose now c =
    not (c.purpose == expected_purpose) || is_spent now c || held_by_other flow_id c.claimed_flow_id

unfoldable pub is_closed : EnrollmentCapability → Bool
is_closed c = is_some c.consumed_at || is_some c.revoked_at

pub token_hash-error :
    (sha256 : Bytes → Bytes) (token : Text) {x : Error}
    → token_hash sha256 token ≡ err x
    → x ≡ value_error
unfolding token_hash
token_hash-error sha256 token {x} h = ground (arith, utf8-error token {x = x})

pub now_utc-error : (reading : Reading) {x : Error} → now_utc reading ≡ err x → x ≡ value_error
unfolding now_utc
now_utc-error (aware t) h = cc
now_utc-error (naive t) h = cc
