-- ===== src/Passkeys/Service/Labels.antt =====
-- The labels of credentials after their normalisation.
use my_auth.Dict.Laws.{get-put}
use my_auth.Equality.{beq_self, list_beq_iff, nat_eq, option_eq, list_eq, ◌==◌}
use my_auth.Dict.{get}
use my_auth.Result.{value_error, err, Result-cases, ok}
use my_auth.Passkeys.Models.{PasskeyCredential}
use my_auth.Text.{strip-strip, strip, is_empty, Text, Bytes}
use my_auth.Prelude.{
  ltb, refl, if◌then◌else◌, ◌≤◌, none, [], Option-cases, length, sym, ◌∷◌, inl, false, inr,
  Bool-cases, arith, some, ◌≡◌, Option,
}
use my_auth.Passkeys.Credentials.{
  update_credential_label, Store, get_credential, update_label_found, with_credential,
}
use my_auth.Passkeys.Service.{normalize_credential_label, label_credential, or_none}

or_none-some : (s : Text) {l : Text} → or_none s ≡ some l → (l ≡ s) × (is_empty l ≡ false)
or_none-some [] h = absurd (ground arith)
or_none-some (c ∷ s) {l} h = let same : c ∷ s ≡ l = ground arith in (sym same, rw (← same) refl)

-- A label that is stored is not empty, has no space at its ends and at most 80 characters, and
-- normalising it again gives it back.
pub normalize_credential_label-some :
    (label : Option Text) {l : Text}
    → normalize_credential_label label ≡ ok (some l)
    → (is_empty l ≡ false)
      × (strip l ≡ l)
      × (length l ≤ 80)
      × (normalize_credential_label (some l) ≡ ok (some l))
unfolding normalize_credential_label
normalize_credential_label-some none h = absurd (ground arith)
normalize_credential_label-some (some label) {l} h =
    elim (Bool-cases (ltb 80 (length (strip label)))) [
      | inl long ↦ absurd (ground arith)
      | inr short ↦
          let kept : or_none (strip label) ≡ some l = ground arith in
          let (same, full) = or_none-some (strip label) kept in
          let trimmed : strip l ≡ l = rw same (strip-strip label) in
          let fits : length l ≤ 80 = rw same (ground arith) in
          (full, trimmed, fits, rw trimmed (again l full fits))
    ]
  where
    again :
        (l : Text)
        → is_empty l ≡ false
        → length l ≤ 80
        → (if ltb 80 (length l) then err value_error else ok (or_none l)) ≡ ok (some l)
    again [] full fits = absurd (ground arith)
    again (c ∷ s) full fits = ground arith

label_found :
    (id : Bytes) (user_id : Text) (label : Option Text) (found : Option PasskeyCredential)
    (s : Store) {t : Store} {d : PasskeyCredential}
    → get s.credentials id ≡ found
    → update_label_found id user_id label found s ≡ (t, some d)
    → (c : PasskeyCredential) × (get s.credentials id ≡ some c)
      × (c.user_id ≡ user_id)
      × (d ≡ record c { label = label })
      × (t ≡ with_credential s id (record c { label = label }))
unfolding update_label_found
label_found id user_id label none s e h = absurd (ground arith)
label_found id user_id label (some c) s {t} {d} e h = elim (Bool-cases (c.user_id == user_id)) [
  | inr other ↦ absurd (ground arith)
  | inl own ↦ (c, e, (list_beq_iff c.user_id user_id).0 own, ground arith, ground arith)
]

-- What holds when a credential was labelled.
pub record Labelled (user_id : Text) (id : Bytes) (label : Option Text) (s t : Store)
    (d : PasskeyCredential) : Type 0 where
  pub before : PasskeyCredential
  pub found : get_credential id s ≡ some before
  pub owner : before.user_id ≡ user_id
  pub normalized : normalize_credential_label label ≡ ok d.label
  pub updated : d ≡ record before { label = d.label }
  pub stored : get_credential id t ≡ some d
  pub others : (j : Bytes) → (id == j) ≡ false → get_credential j t ≡ get_credential j s

labelled :
    (user_id : Text) (id : Bytes) (label l : Option Text) (s t : Store) (c d : PasskeyCredential)
    → normalize_credential_label label ≡ ok l
    → get s.credentials id ≡ some c
    → c.user_id ≡ user_id
    → d ≡ record c { label = l }
    → t ≡ with_credential s id (record c { label = l })
    → Labelled user_id id label s t d
unfolding get_credential
labelled user_id id label l s t c d e found owner e_d e_t =
    rw (e_t, e_d)
      (record {
        before = c;
        found = found;
        owner = owner;
        normalized = e;
        updated = refl;
        stored = rw (get-put s.credentials id id (record c { label = l }), beq_self id) refl;
        others = λ j apart. rw (get-put s.credentials id j (record c { label = l }), apart) refl;
      })

-- A labelling that succeeds has found a credential of this user, and writes the normalised label to
-- it and nothing else.
pub label_credential-Labelled :
    (user_id : Text) (id : Bytes) (label : Option Text) (s : Store) {t : Store}
    {d : PasskeyCredential}
    → label_credential user_id id label s ≡ (t, ok d)
    → Labelled user_id id label s t d
unfolding label_credential update_credential_label get_credential
label_credential-Labelled user_id id label s {t} {d} h =
    elim (Result-cases (normalize_credential_label label)) [
      | inr (x, e) ↦ absurd (ground arith)
      | inl (l, e) ↦
          let answer = update_label_found id user_id l (get s.credentials id) s in
          elim (Option-cases answer.1) [
            | inl nothing ↦ absurd (ground arith)
            | inr (x, something) ↦
                let whole : answer ≡ (t, some d) = ground arith in
                let (c, found, owner, e_d, e_t) = label_found id user_id l _ s refl whole in
                labelled user_id id label l s t c d e found owner e_d e_t
          ]
    ]
