-- ===== src/Passkeys/Models.antt =====
-- my_auth/passkey_models.py: the values that the passkey stores and the service exchange.
use my_auth.Base64.Decode.{urlsafe_b64decode, padding}
use my_auth.Base64.Laws.{urlsafe_b64decode-urlsafe_b64encode, AreBytes}
use my_auth.Base64.{rstrip_padding, urlsafe_b64encode}
use my_auth.Int.{Instant}
use my_auth.Result.{value_error, raise_if, ok, Result}
use my_auth.Text.{is_empty, codes, Bytes, Text}
use my_auth.Equality.{
  beq_self, option_beq_iff, list_beq_iff, list_eq, nat_eq, option_eq, ◌==◌, KeyEq,
}
use my_auth.Prelude.{
  inr, ap, ◌∙◌, sym, inl, Bool-cases, length, ◌++◌, ◌||◌, not, none, arith, refl, List, ◌&&◌, ◌↔◌,
  some, true, ℕ, false, Bool, ◌≡◌, Option,
}
use my_auth.Result.{◌>>=◌, ◌>>◌}

unfoldable pub bytes_to_b64url : Bytes → Text
unfolding urlsafe_b64encode rstrip_padding
bytes_to_b64url value = rstrip_padding (urlsafe_b64encode value)

unfoldable pub b64url_to_bytes : Text → Result Bytes
unfolding padding urlsafe_b64decode
b64url_to_bytes value = urlsafe_b64decode (value ++ padding (length value))

-- A list of numbers below 256 is what its base64url text, which has no padding, decodes to.
pub b64url_to_bytes-bytes_to_b64url :
    (value : Bytes) → AreBytes value → b64url_to_bytes (bytes_to_b64url value) ≡ ok value
unfolding b64url_to_bytes bytes_to_b64url
b64url_to_bytes-bytes_to_b64url value h = urlsafe_b64decode-urlsafe_b64encode value h

pub data ChallengeKind : Type 0 where
  registration authentication : ChallengeKind

pub data RegistrationKind : Type 0 where
  self_registration invitation additional_credential recovery : RegistrationKind

pub record PasskeyUser : Type 0 where
  pub user_id : Text
  pub user_handle : Bytes
  pub name : Text
  pub display_name : Option Text

pub record PasskeyCredential : Type 0 where
  pub credential_id : Bytes
  pub user_id : Text
  pub public_key : Bytes
  pub sign_count : ℕ
  pub transports : List Text
  pub device_type : Option Text
  pub backed_up : Option Bool
  pub label : Option Text
  pub created_at : Instant

pub record RegistrationContext : Type 0 where
  pub kind : RegistrationKind
  pub user : PasskeyUser
  pub capability_id : Option Text

pub record ChallengeRecord : Type 0 where
  pub challenge : Bytes
  pub kind : ChallengeKind
  pub key : Text
  pub expires_at : Instant
  pub user : Option PasskeyUser
  pub registration_kind : Option RegistrationKind
  pub capability_id : Option Text

pub record AuthenticationResult : Type 0 where
  pub user : PasskeyUser
  pub credential : PasskeyCredential

pub record VerifiedRegistration : Type 0 where
  pub user : PasskeyUser
  pub credential : PasskeyCredential
  pub context : Option RegistrationContext

abbrev pub kind_beq : ChallengeKind → ChallengeKind → Bool
kind_beq registration registration = true
kind_beq authentication authentication = true
kind_beq _ _ = false

pub kind_beq_iff : (a b : ChallengeKind) → (kind_beq a b ≡ true) ↔ (a ≡ b)
kind_beq_iff registration registration = (λ h. refl, λ h. refl)
kind_beq_iff registration authentication = (λ h. cc, λ h. cc)
kind_beq_iff authentication registration = (λ h. cc, λ h. cc)
kind_beq_iff authentication authentication = (λ h. refl, λ h. refl)

instance abbrev pub kind_eq : KeyEq ChallengeKind
kind_eq = record { beq = kind_beq; beq_iff = kind_beq_iff }

-- The `==` that the dataclass generates: field by field.
unfoldable pub user_beq : PasskeyUser → PasskeyUser → Bool
user_beq a b =
    a.user_id == b.user_id
    && a.user_handle == b.user_handle
    && a.name == b.name
    && a.display_name == b.display_name

pub user_beq_iff : (a b : PasskeyUser) → (user_beq a b ≡ true) ↔ (a ≡ b)
unfolding user_beq
user_beq_iff a b = (
  λ h. ground (
    arith,
    list_beq_iff a.user_id b.user_id,
    list_beq_iff a.user_handle b.user_handle,
    list_beq_iff a.name b.name,
    option_beq_iff a.display_name b.display_name,
  ),
  λ h. ground (
    arith,
    list_beq_iff a.user_id b.user_id,
    list_beq_iff a.user_handle b.user_handle,
    list_beq_iff a.name b.name,
    option_beq_iff a.display_name b.display_name,
  ),
)

instance abbrev pub user_eq : KeyEq PasskeyUser
user_eq = record { beq = user_beq; beq_iff = user_beq_iff }

-- `not capability_id`: absent or empty
abbrev pub lacks_capability : Option Text → Bool
lacks_capability none = true
lacks_capability (some id) = is_empty id

-- kind in {"invitation", "recovery"}
abbrev pub needs_capability : RegistrationKind → Bool
needs_capability self_registration = false
needs_capability invitation = true
needs_capability additional_credential = false
needs_capability recovery = true

-- The constructor with its `__post_init__`.
unfoldable pub new_context :
    RegistrationKind → PasskeyUser → Option Text → Result RegistrationContext
new_context kind user capability_id = do
  raise_if (needs_capability kind && lacks_capability capability_id) value_error
  raise_if (not (needs_capability kind) && not (lacks_capability capability_id)) value_error
  ok (record { kind = kind; user = user; capability_id = capability_id })

abbrev expected_purpose : RegistrationKind → Text
expected_purpose invitation = codes "invitation"
expected_purpose _ = codes "account_recovery"

unfoldable pub registration_context_from_capability :
    RegistrationKind → PasskeyUser → Text → Text → Text → Result RegistrationContext
unfolding new_context
registration_context_from_capability kind user capability_id capability_subject capability_purpose =
    do
      raise_if
          (not (capability_subject == user.user_id)
            || not (capability_purpose == expected_purpose kind))
          value_error
      new_context kind user (some capability_id)

-- `ChallengeRecord.registration_context`
unfoldable pub registration_context : ChallengeRecord → Result (Option RegistrationContext)
unfolding new_context
registration_context r = elim r.user [
  | none ↦ ok none
  | some user ↦ elim r.registration_kind [
    | none ↦ ok none
    | some kind ↦ do context ← new_context kind user r.capability_id; ok (some context)
  ]
]

-- Different bytes have different base64url texts.
pub bytes_to_b64url-beq :
    (a b : Bytes) → AreBytes a → AreBytes b → (bytes_to_b64url a == bytes_to_b64url b) ≡ (a == b)
bytes_to_b64url-beq a b h k = elim (Bool-cases (bytes_to_b64url a == bytes_to_b64url b)) [
  | inl same ↦
      let e : bytes_to_b64url a ≡ bytes_to_b64url b =
        (list_beq_iff (bytes_to_b64url a) (bytes_to_b64url b)).0 same in
      let back : ok a ≡ ok b =
        sym (b64url_to_bytes-bytes_to_b64url a h)
        ∙ ap b64url_to_bytes e
        ∙ b64url_to_bytes-bytes_to_b64url b k in
      let equal : a ≡ b = ground arith in rw same (sym (rw equal (beq_self b)))
  | inr other ↦ elim (Bool-cases (a == b)) [
    | inr apart ↦ rw (other, apart) refl
    | inl equal ↦
        let e : a ≡ b = (list_beq_iff a b).0 equal in
        absurd (ground (arith, beq_self (bytes_to_b64url b), ap bytes_to_b64url e))
  ]
]
