-- ===== src/Passkeys/Credentials/Invariant.antt =====
-- Every step of the memory credential store keeps it well formed.
use my_auth.Equality.{KeyEq, beq_self, list_eq, nat_eq, ◌==◌, option_eq, list_beq_iff}
use my_auth.Dict.Laws.{get-remove, get-set_default, get-put}
use my_auth.Dict.Unique.{remove-IsUnique, put-IsUnique, set_default-IsUnique}
use my_auth.Dict.{put, get}
use my_auth.Prelude.{
  none, Option, sym, Option-cases, inr, ap, inl, Bool-cases, arith, false, ◌≡◌, some,
}
use my_auth.Text.{Bytes, Text}
use my_auth.Passkeys.Models.{user_eq, PasskeyCredential, PasskeyUser}
use my_auth.Passkeys.Credentials.{
  differs_from, Store, with_registration, with_credential, without_credential,
}
use my_auth.Passkeys.Credentials.Step.{same, registered, changed, deleted, IsWf, Step, Evolves}

pub same_value {ℓ} :
    {K : Type ℓ} ⦃e : KeyEq K⦄ (a b : K) (found : Option K)
    → found ≡ some b
    → differs_from a found ≡ false
    → b ≡ a
same_value ⦃e⦄ a b none g h = cc
same_value ⦃e⦄ a b (some c) g h = ground (arith, e.beq_iff c a)

module _ (s : Store) (w : IsWf s) where
  module _ (u : PasskeyUser) (c : PasskeyCredential) (own : c.user_id ≡ u.user_id)
      (known : differs_from u (get s.users u.user_id) ≡ false)
      (handled : differs_from u.user_id (get s.users_by_handle u.user_handle) ≡ false) where
    registered-users_keyed :
        (i : Text) (v : PasskeyUser)
        → get (put s.users u.user_id u) i ≡ some v
        → (v.user_id ≡ i)
          × (get (put s.users_by_handle u.user_handle u.user_id) v.user_handle ≡ some i)
    registered-users_keyed i v h = elim (Bool-cases (u.user_id == i)) [
      | inl here ↦ ground (
        arith,
        list_beq_iff u.user_id i,
        get-put s.users u.user_id i u,
        beq_self u.user_handle,
        get-put s.users_by_handle u.user_handle v.user_handle u.user_id,
      )
      | inr there ↦
          let old : get s.users i ≡ some v = ground (arith, get-put s.users u.user_id i u) in
          let keyed = w.users_keyed i v old in
          (
            keyed.0,
            rw (get-put s.users_by_handle u.user_handle v.user_handle u.user_id)
                (elim (Bool-cases (u.user_handle == v.user_handle)) [
                  | inl clash ↦
                      let e : u.user_handle ≡ v.user_handle =
                        (list_beq_iff u.user_handle v.user_handle).0 clash in
                      let same : i ≡ u.user_id =
                        same_value u.user_id i (get s.users_by_handle u.user_handle) (rw e keyed.1)
                          handled in
                      absurd (ground (arith, list_beq_iff u.user_id i))
                  | inr apart ↦ rw apart keyed.1
                ]),
          )
    ]

    pub kept_user :
        (i : Text) (v : PasskeyUser)
        → get s.users i ≡ some v
        → get (put s.users u.user_id u) i ≡ some v
    kept_user i v h = rw (get-put s.users u.user_id i u) (elim (Bool-cases (u.user_id == i)) [
      | inl here ↦
          let e : u.user_id ≡ i = (list_beq_iff u.user_id i).0 here in
          rw here (ap some (sym (same_value u v (get s.users u.user_id) (rw e h) known)))
      | inr there ↦ rw there h
    ])

    pub registered-IsWf : IsWf (with_registration s u c)
    registered-IsWf = record {
      unique = set_default-IsUnique s.credentials c.credential_id c w.unique;
      users_keyed = registered-users_keyed;
      handles_keyed = λ h i g. elim (Bool-cases (u.user_handle == h)) [
        | inl here ↦
            let e : u.user_handle ≡ h = (list_beq_iff u.user_handle h).0 here in
            let j : u.user_id ≡ i =
              ground (arith, get-put s.users_by_handle u.user_handle h u.user_id) in
            (u, ground (arith, get-put s.users u.user_id i u, list_beq_iff u.user_id i), e)
        | inr there ↦
            let old : get s.users_by_handle h ≡ some i =
              ground (arith, get-put s.users_by_handle u.user_handle h u.user_id) in
            let (v, f, e) = w.handles_keyed h i old in (v, kept_user i v f, e)
      ];
      credentials_keyed = λ i d g. elim (Option-cases (get s.credentials i)) [
        | inl fresh ↦ ground (
          arith,
          get-set_default s.credentials c.credential_id i c,
          list_beq_iff c.credential_id i,
        )
        | inr (x, old) ↦
            w.credentials_keyed i d
              (ground (arith, get-set_default s.credentials c.credential_id i c))
      ];
      owned = λ i d g. elim (Option-cases (get s.credentials i)) [
        | inl fresh ↦ (
          u,
          ground (
            arith,
            get-set_default s.credentials c.credential_id i c,
            list_beq_iff c.credential_id i,
            get-put s.users u.user_id d.user_id u,
            beq_self u.user_id,
          ),
        )
        | inr (x, old) ↦
            let (v, f) =
              w.owned i d (ground (arith, get-set_default s.credentials c.credential_id i c)) in
            (v, kept_user d.user_id v f)
      ];
    }

  pub changed-IsWf :
      (i : Bytes) (c d : PasskeyCredential)
      → get s.credentials i ≡ some c
      → Evolves c d
      → IsWf (with_credential s i d)
  changed-IsWf i c d found e = record {
    unique = put-IsUnique s.credentials i d w.unique;
    users_keyed = w.users_keyed;
    handles_keyed = w.handles_keyed;
    credentials_keyed = λ j x g. ground (
      arith,
      get-put s.credentials i j d,
      list_beq_iff i j,
      w.credentials_keyed i c found,
      w.credentials_keyed j x,
      e.same_id,
    );
    owned = λ j x g. elim (Bool-cases (i == j)) [
      | inl here ↦
          let x_d : d ≡ x = ground (arith, get-put s.credentials i j d) in
          rw (← x_d, e.same_owner) (w.owned i c found)
      | inr there ↦ w.owned j x (ground (arith, get-put s.credentials i j d))
    ];
  }

  pub deleted-IsWf : (i : Bytes) → IsWf (without_credential s i)
  deleted-IsWf i = record {
    unique = remove-IsUnique s.credentials i w.unique;
    users_keyed = w.users_keyed;
    handles_keyed = w.handles_keyed;
    credentials_keyed =
        λ j x g. w.credentials_keyed j x (ground (arith, get-remove s.credentials i j));
    owned = λ j x g. w.owned j x (ground (arith, get-remove s.credentials i j));
  }

pub Step-IsWf : (removes : Option Bytes) (s t : Store) → IsWf s → Step removes s t → IsWf t
Step-IsWf removes s t w (same e) = rw e w
Step-IsWf removes s t w (registered u c own known handled ours e) =
    rw e (registered-IsWf s w u c own known handled)
Step-IsWf removes s t w (changed i c d found ev e) = rw e (changed-IsWf s w i c d found ev)
Step-IsWf removes s t w (deleted i c found named e) = rw e (deleted-IsWf s w i)
