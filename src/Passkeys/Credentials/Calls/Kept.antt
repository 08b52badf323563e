-- ===== src/Passkeys/Credentials/Calls/Kept.antt =====
-- What runs of calls of the memory credential store do not change: users, the identity of
-- credentials, and a user's last credential.
use my_auth.Equality.{list_beq_iff, ◌==◌, option_eq, list_eq, nat_eq}
use my_auth.Passkeys.Credentials.Invariant.{kept_user}
use my_auth.Dict.Laws.{get-remove, get-put, get-set_default}
use my_auth.Dict.{get}
use my_auth.Prelude.{
  ap, inr, inl, Bool-cases, [], ◌∷◌, some, ◌≡◌, ◌≢◌, refl, ◌∙◌, All, arith, Option, List,
}
use my_auth.Text.{Text, Bytes}
use my_auth.Passkeys.Models.{PasskeyUser, PasskeyCredential}
use my_auth.Passkeys.Credentials.Calls.{removes, Call, call, run, call-Step, run-IsWf}
use my_auth.Passkeys.Credentials.Step.{IsWf, Step, Evolves}
use my_auth.Passkeys.Credentials.{Store, get_credential, get_user}
use my_auth.Passkeys.Credentials.Step.{same, registered, changed, deleted}

Step-user :
    (removed : Option Bytes) (s t : Store) (i : Text) (v : PasskeyUser)
    → IsWf s
    → Step removed s t
    → get s.users i ≡ some v
    → get t.users i ≡ some v
Step-user removed s t i v w (same e) h = rw e h
Step-user removed s t i v w (registered u c own known handled ours e) h =
    rw e (kept_user s w u c own known handled i v h)
Step-user removed s t i v w (changed j c d found ev e) h = rw e h
Step-user removed s t i v w (deleted j c found named e) h = rw e h

-- A stored user stays stored, with the same handle and names, over every run of calls.
pub run-users :
    (calls : List Call) (s : Store) (i : Text) (v : PasskeyUser)
    → IsWf s
    → get_user i s ≡ some v
    → get_user i (run calls s) ≡ some v
unfolding run get_user
run-users [] s i v w h = h
run-users (c ∷ cs) s i v w h =
    run-users cs (call c s) i v (run-IsWf (c ∷ []) s w)
      (Step-user (removes c) s (call c s) i v w (call-Step c s) h)

Evolves-refl : (c : PasskeyCredential) → Evolves c c
Evolves-refl c = record {
  same_id = refl;
  same_owner = refl;
  same_key = refl;
  counts_up = omega arith;
}

Evolves-trans : (c d e : PasskeyCredential) → Evolves c d → Evolves d e → Evolves c e
Evolves-trans c d e f g = record {
  same_id = g.same_id ∙ f.same_id;
  same_owner = g.same_owner ∙ f.same_owner;
  same_key = g.same_key ∙ f.same_key;
  counts_up = omega (arith, f.counts_up, g.counts_up);
}

-- The credential under an identifier has evolved from an earlier one.
pub record EvolvedIn (i : Bytes) (c : PasskeyCredential) (t : Store) : Type 0 where
  pub now : PasskeyCredential
  pub found : get_credential i t ≡ some now
  pub evolved : Evolves c now

module _ (removed : Option Bytes) (s t : Store) where
  Step-EvolvedIn :
      (i : Bytes) (c : PasskeyCredential)
      → removed ≢ some i
      → Step removed s t
      → get s.credentials i ≡ some c
      → EvolvedIn i c t
  unfolding get_credential
  Step-EvolvedIn i c other (same e) h =
      rw e (record { now = c; found = h; evolved = Evolves-refl c })
  Step-EvolvedIn i c other (registered u d own known handled ours e) h = rw e (record {
    now = c;
    found = ground (arith, get-set_default s.credentials d.credential_id i d);
    evolved = Evolves-refl c;
  })
  Step-EvolvedIn i c other (changed j d x found ev e) h = elim (Bool-cases (j == i)) [
    | inl here ↦
        let same_c : d ≡ c = ground (arith, list_beq_iff j i) in
        rw e (record {
          now = x;
          found = ground (arith, get-put s.credentials j i x);
          evolved = rw (← same_c) ev;
        })
    | inr there ↦ rw e (record {
      now = c;
      found = ground (arith, get-put s.credentials j i x);
      evolved = Evolves-refl c;
    })
  ]
  Step-EvolvedIn i c other (deleted j d found named e) h = elim (Bool-cases (j == i)) [
    | inl here ↦ absurd (other (named ∙ ap some ((list_beq_iff j i).0 here)))
    | inr there ↦ rw e (record {
      now = c;
      found = ground (arith, get-remove s.credentials j i);
      evolved = Evolves-refl c;
    })
  ]

-- No call of a run deletes the credential.
abbrev pub Keeps : Bytes → List Call → Type 0
Keeps i calls = All (λ c. removes c ≢ some i) calls

-- Over every run of calls none of which deletes it, a stored credential keeps its identifier, its
-- owner and its public key, and its signature counter never goes down.
pub run-EvolvedIn :
    (calls : List Call) (s : Store) (i : Bytes) (c : PasskeyCredential)
    → Keeps i calls
    → get_credential i s ≡ some c
    → EvolvedIn i c (run calls s)
unfolding run get_credential
run-EvolvedIn [] s i c keep h = record { now = c; found = h; evolved = Evolves-refl c }
run-EvolvedIn (d ∷ ds) s i c keep h =
    let next = Step-EvolvedIn (removes d) s (call d s) i c keep.0 (call-Step d s) h in
    let later = run-EvolvedIn ds (call d s) i next.now keep.1 next.found in
    record {
      now = later.now;
      found = later.found;
      evolved = Evolves-trans c next.now later.now next.evolved later.evolved;
    }
