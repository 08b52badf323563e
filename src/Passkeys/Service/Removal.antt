-- ===== src/Passkeys/Service/Removal.antt =====
-- What the removal of a credential does when it succeeds and when it does not.
use my_auth.Dict.Laws.{get-remove}
use my_auth.Equality.{beq_self, nat_eq, list_beq_iff, option_eq, list_eq, ◌==◌}
use my_auth.Dict.{get}
use my_auth.Passkeys.Models.{PasskeyCredential}
use my_auth.Result.{mutation_denied, credential_not_found, err, ok, Error}
use my_auth.Prelude.{
  refl, leb, ◌&&◌, ◌≤◌, inl, inr, true, suc, arith, not, Bool-cases, false, ◌⊎◌, none, some, Option,
  ◌≡◌, Bool,
}
use my_auth.Text.{Bytes, Text}
use my_auth.Passkeys.Credentials.{
  is_owned_by, delete_credential, Store, get_credential, count_credentials, delete_found,
  without_credential,
}
use my_auth.Passkeys.Credentials.Step.{IsWf}
use my_auth.Passkeys.Service.{remove_credential, removal_error}
use my_auth.Dict.Count.{count_if-remove}

-- How the store's deletion answers, by what it found.
data Deletion (user_id : Text) (id : Bytes) (guarded : Bool) (s : Store)
    (found : Option PasskeyCredential) (answer : Store × Bool) : Type 0 where
  absent : found ≡ none → answer ≡ (s, false) → Deletion user_id id guarded s found answer
  foreign :
      (c : PasskeyCredential)
      → found ≡ some c
      → (c.user_id == user_id) ≡ false
      → answer ≡ (s, false)
      → Deletion user_id id guarded s found answer
  last :
      (c : PasskeyCredential)
      → found ≡ some c
      → (c.user_id == user_id) ≡ true
      → guarded ≡ true
      → count_credentials user_id s ≤ 1
      → answer ≡ (s, false)
      → Deletion user_id id guarded s found answer
  done :
      (c : PasskeyCredential)
      → found ≡ some c
      → (c.user_id == user_id) ≡ true
      → (guarded ≡ true → 2 ≤ count_credentials user_id s)
      → answer ≡ (without_credential s id, true)
      → Deletion user_id id guarded s found answer

delete_found-Deletion :
    (user_id : Text) (id : Bytes) (guarded : Bool) (s : Store) (found : Option PasskeyCredential)
    → Deletion user_id id guarded s found (delete_found id (some user_id) guarded found s)
unfolding delete_found
delete_found-Deletion user_id id guarded s none = Deletion.absent refl refl
delete_found-Deletion user_id id guarded s (some c) = elim (Bool-cases (c.user_id == user_id)) [
  | inr other ↦ rw other (Deletion.foreign c refl other refl)
  | inl own ↦
      let e : c.user_id ≡ user_id = (list_beq_iff c.user_id user_id).0 own in
      elim (Bool-cases (guarded && leb (count_credentials c.user_id s) 1)) [
        | inl stop ↦
            let few : count_credentials user_id s ≤ 1 = rw (← e) (ground arith) in
            rw (own, stop) (Deletion.last c refl own (ground arith) few refl)
        | inr go ↦
            let many : (guarded ≡ true → 2 ≤ count_credentials user_id s) =
              rw (← e) (λ g. ground arith) in
            rw (own, go) (Deletion.done c refl own many refl)
      ]
]

-- What holds when a credential was removed.
pub record Removed (user_id : Text) (id : Bytes) (allow_final : Bool) (s t : Store) : Type 0 where
  pub before : PasskeyCredential
  pub found : get_credential id s ≡ some before
  pub owner : before.user_id ≡ user_id
  pub gone : get_credential id t ≡ none
  pub others : (j : Bytes) → (id == j) ≡ false → get_credential j t ≡ get_credential j s
  pub fewer : suc (count_credentials user_id t) ≡ count_credentials user_id s
  pub remaining : allow_final ≡ false → 1 ≤ count_credentials user_id t

removed :
    (user_id : Text) (id : Bytes) (allow_final : Bool) (s : Store) (c : PasskeyCredential)
    → IsWf s
    → get s.credentials id ≡ some c
    → (c.user_id == user_id) ≡ true
    → (not allow_final ≡ true → 2 ≤ count_credentials user_id s)
    → Removed user_id id allow_final s (without_credential s id)
unfolding get_credential count_credentials
removed user_id id allow_final s c w found own many =
    let less = count_if-remove (is_owned_by user_id) s.credentials id c w.unique found in
    record {
      before = c;
      found = found;
      owner = (list_beq_iff c.user_id user_id).0 own;
      gone = rw (get-remove s.credentials id id, beq_self id) refl;
      others = λ j apart. rw (get-remove s.credentials id j, apart) refl;
      fewer = ground arith;
      remaining = λ a. ground arith;
    }

-- From a well-formed store: a removal that succeeds has found a credential of this user and takes it
-- out, no other credential changes, the user has one credential less and, unless the final one may
-- go, at least one is left.
pub remove_credential-Removed :
    (user_id : Text) (id : Bytes) (allow_final : Bool) (s : Store) {t : Store}
    → IsWf s
    → remove_credential user_id id allow_final s ≡ (t, ok tt)
    → Removed user_id id allow_final s t
unfolding remove_credential delete_credential
remove_credential-Removed user_id id allow_final s {t} w h =
    by_deletion (delete_found-Deletion user_id id (not allow_final) s (get s.credentials id))
  where
    by_deletion :
        Deletion user_id id
          (not allow_final)
          s
          (get s.credentials id)
          (delete_found id (some user_id) (not allow_final) (get s.credentials id) s)
        → Removed user_id id allow_final s t
    by_deletion (Deletion.absent e a) = absurd (ground arith)
    by_deletion (Deletion.foreign c e own a) = absurd (ground arith)
    by_deletion (Deletion.last c e own g few a) = absurd (ground arith)
    by_deletion (Deletion.done c e own many a) =
        let same_t : without_credential s id ≡ t = ground arith in
        rw (← same_t) (removed user_id id allow_final s c w e own many)

-- Why a removal was refused.
pub data Refused (user_id : Text) (id : Bytes) (allow_final : Bool) (s : Store)
    : Error → Type 0 where
  unknown :
      (get_credential id s ≡ none)
        ⊎ ((c : PasskeyCredential) × (get_credential id s ≡ some c)
            × ((c.user_id == user_id) ≡ false))
      → Refused user_id id allow_final s credential_not_found
  final :
      (c : PasskeyCredential)
      → get_credential id s ≡ some c
      → (c.user_id == user_id) ≡ true
      → allow_final ≡ false
      → count_credentials user_id s ≤ 1
      → Refused user_id id allow_final s mutation_denied

-- A removal that raises leaves the store as it was. It says that the credential is unknown when there
-- is none or it is another user's, and that the removal is denied only for the user's last credential
-- where the final one may not go.
pub remove_credential-Refused :
    (user_id : Text) (id : Bytes) (allow_final : Bool) (s : Store) {t : Store} {x : Error}
    → remove_credential user_id id allow_final s ≡ (t, err x)
    → (t ≡ s) × Refused user_id id allow_final s x
unfolding remove_credential delete_credential removal_error get_credential
remove_credential-Refused user_id id allow_final s {t} {x} h =
    by_deletion (delete_found-Deletion user_id id (not allow_final) s (get s.credentials id))
  where
    by_deletion :
        Deletion user_id id
          (not allow_final)
          s
          (get s.credentials id)
          (delete_found id (some user_id) (not allow_final) (get s.credentials id) s)
        → (t ≡ s) × Refused user_id id allow_final s x
    by_deletion (Deletion.absent e a) =
        let which : credential_not_found ≡ x = ground arith in
        (ground arith, rw (← which) (Refused.unknown (inl e)))
    by_deletion (Deletion.foreign c e own a) =
        let which : credential_not_found ≡ x = ground arith in
        (ground arith, rw (← which) (Refused.unknown (inr (c, e, own))))
    by_deletion (Deletion.last c e own g few a) =
        let which : mutation_denied ≡ x = ground arith in
        (ground arith, rw (← which) (Refused.final c e own (ground arith) few))
    by_deletion (Deletion.done c e own many a) = absurd (ground arith)
