-- ===== src/Passkeys/Stores/Memory.antt =====
-- The memory stores of my_auth/passkey_memory.py as the stores of a service.
use my_auth.Prelude.{◌≢◌, false, Bool}
use my_auth.Equality.{pair_beq}
use my_auth.Passkeys.Models.{kind_beq_iff}
use my_auth.Equality.{list_beq_iff, ◌==◌, option_eq, list_eq, pair_eq, nat_eq, beq_self}
use my_auth.Dict.Laws.{get-put, get-remove}
use my_auth.Result.{ok, Result-cases}
use my_auth.Dict.{put, get}
use my_auth.Int.{add_seconds, ℤ, Instant}
use my_auth.Passkeys.Models.{
  registration, kind_eq, RegistrationContext, PasskeyUser, ChallengeRecord, ChallengeKind,
}
use my_auth.Text.{Bytes, Text}
use my_auth.Prelude.{
  refl, leb, Bool-cases, inr, inl, arith, Option-cases, some, Option, ap, sym, ◌≡◌,
}
use my_auth.Passkeys.Credentials.Login.{compare_and_set-LoggedIn}
use my_auth.Passkeys.Stores.{KeepsGone, CountsLogins, ChallengeStore, CredentialStore, IsOneTime}
use my_auth.Exec.{bind_ok as exec_ok}
use my_auth.Passkeys.Challenges
use my_auth.Passkeys.Challenges.{Key, Records, unexpired, new_record, context_user}
use my_auth.Passkeys.Credentials
use my_auth.Passkeys.Credentials.{Store}
use my_auth.Passkeys.Challenges.Laws.{pop-pop}

abbrev pub memory_challenges : ChallengeStore Records
memory_challenges = record { save = Challenges.save; pop = Challenges.pop }

abbrev pub memory_credentials : CredentialStore Store
memory_credentials = record {
  save_registration = Credentials.save_registration;
  get_user = Credentials.get_user;
  get_user_by_handle = Credentials.get_user_by_handle;
  list_credentials_for_user = Credentials.list_credentials_for_user;
  get_credential = Credentials.get_credential;
  compare_and_set_credential_after_login = Credentials.compare_and_set_credential_after_login;
  update_credential_label = Credentials.update_credential_label;
  delete_credential = Credentials.delete_credential;
}

-- What a saved challenge is, and where.
saved :
    (key : Text) (kind : ChallengeKind) (challenge : Bytes) (ttl : ℤ) (user : Option PasskeyUser)
    (context : Option RegistrationContext) (now : Instant) (s t : Records) (r : ChallengeRecord)
    → Challenges.save key kind challenge ttl user context now s ≡ (t, ok r)
    → (owner : Option PasskeyUser) × (ends : Instant) × (context_user kind user context ≡ ok owner)
      × (r ≡ new_record key kind challenge ends owner context)
      × (t ≡ put s (key, kind) r)
unfolding Challenges.save
saved key kind challenge ttl user context now s t r h =
    let (owner, a, h1) = exec_ok s (context_user kind user context) _ h in
    let (ends, b, h2) = exec_ok s (add_seconds now ttl) _ h1 in
    let same : new_record key kind challenge ends owner context ≡ r = ground arith in
    (owner, ends, a, sym same, rw (← same) (sym (ap (λ p. p.0) h2)))

popped :
    (key : Text) (kind : ChallengeKind) (now : Instant) (s t : Records) (r : ChallengeRecord)
    → Challenges.pop key kind now s ≡ (t, ok r)
    → get s (key, kind) ≡ some r
unfolding Challenges.pop unexpired
popped key kind now s t r h = elim (Option-cases (get s (key, kind))) [
  | inl e ↦ absurd (ground arith)
  | inr (q, e) ↦ elim (Bool-cases (leb q.expires_at now)) [
    | inl over ↦ absurd (ground arith)
    | inr live ↦ ground arith
  ]
]

-- The memory challenge store hands out what was saved, and hands it out once.
pub memory_challenges-IsOneTime : IsOneTime memory_challenges
unfolding new_record context_user
memory_challenges-IsOneTime = record {
  pop-pop = λ key kind now later s t r h.
      let e : t ≡ (Challenges.pop key kind now s).0 = sym (ap (λ p. p.0) h) in
      rw (e, pop-pop key kind now later s) refl;
  pop-save = λ key kind challenge ttl user context now later s t u r q h k.
      let (owner, ends, a, b, c) = saved key kind challenge ttl user context now s t r h in
      let found : get t (key, kind) ≡ some q = popped key kind later t u q k in
      ground (arith, get-put s (key, kind) (key, kind) r, beq_self {A = Key} (key, kind));
  save-record = λ key challenge ttl user context now s t r h.
      let (owner, ends, a, b, c) =
        saved key registration challenge ttl user (some context) now s t r h in
      (ground arith, ground arith, ground arith, ground arith);
}

abbrev same_key : Key → Key → Bool
same_key a b = a == b

other_key :
    (key other : Text) (kind other_kind : ChallengeKind)
    → (other ≡ key → other_kind ≢ kind)
    → same_key (other, other_kind) (key, kind) ≡ false
unfolding pair_beq
other_key key other kind other_kind apart = elim (Bool-cases (other == key)) [
  | inr elsewhere ↦ rw elsewhere refl
  | inl same ↦ elim (Bool-cases (other_kind == kind)) [
    | inr differs ↦ rw (same, differs) refl
    | inl equal ↦
        absurd (apart ((list_beq_iff other key).0 same) ((kind_beq_iff other_kind kind).0 equal))
  ]
]

-- A save writes nothing under another key or kind.
get-save_other :
    (key other : Text) (kind other_kind : ChallengeKind) (challenge : Bytes) (ttl : ℤ)
    (user : Option PasskeyUser) (context : Option RegistrationContext) (now : Instant) (s : Records)
    → (other ≡ key → other_kind ≢ kind)
    → get (Challenges.save other other_kind challenge ttl user context now s).0 (key, kind)
      ≡ get s (key, kind)
unfolding Challenges.save
get-save_other key other kind other_kind challenge ttl user context now s apart =
    elim (Result-cases (context_user other_kind user context)) [
      | inr (x, e) ↦ rw e refl
      | inl (owner, e) ↦ elim (Result-cases (add_seconds now ttl)) [
        | inr (x, f) ↦ rw (e, f) refl
        | inl (ends, f) ↦
            let r = new_record other other_kind challenge ends owner context in
            rw
              (
                e,
                f,
                get-put s (other, other_kind) (key, kind) r,
                other_key key other kind other_kind apart,
              )
              refl
      ]
    ]

-- A popped challenge of the memory store is gone until it is saved again.
pub memory_challenges-KeepsGone : KeepsGone memory_challenges
unfolding Challenges.pop unexpired
memory_challenges-KeepsGone = record {
  pop-gone = λ key kind now s t r h later.
      let e : t ≡ (Challenges.pop key kind now s).0 = sym (ap (λ p. p.0) h) in
      rw (e, pop-pop key kind now later s) refl;
  gone-pop = λ key other kind other_kind now s gone later.
      elim (Bool-cases (same_key (other, other_kind) (key, kind))) [
        | inl same ↦ rw (get-remove s (other, other_kind) (key, kind), same) refl
        | inr apart ↦ rw (get-remove s (other, other_kind) (key, kind), apart) (gone later)
      ];
  gone-save = λ key other kind other_kind challenge ttl user context now s apart gone later.
      rw (get-save_other key other kind other_kind challenge ttl user context now s apart)
        (gone later);
}

-- The memory credential store counts the logins.
pub memory_credentials-CountsLogins : CountsLogins memory_credentials
memory_credentials-CountsLogins id expected new device_type backed_up s t d h =
    let done = compare_and_set-LoggedIn id expected new device_type backed_up s h in
    record {
      before = done.before;
      found = done.found;
      current = done.current;
      counts_up = done.counts_up;
      updated = done.updated;
      read_back = done.stored;
    }
