-- ===== src/Enrollment/Memory/Once.antt =====
-- Over every run of calls of the memory store: a consumed or revoked capability is final, and no
-- capability is consumed twice.
use my_auth.Enrollment.Memory.Claim.{consume-Consumed, Consumed}
use my_auth.Int.{Instant}
use my_auth.Result.{Result-cases, ok}
use my_auth.Enrollment.Lifecycle.{Change-open}
use my_auth.Equality.{beq_self, ◌==◌, nat_eq, list_eq, option_eq, list_beq_iff}
use my_auth.Dict.Laws.{get-put}
use my_auth.Dict.{get}
use my_auth.Prelude.{
  none, Bool-cases, inr, inl, ◌≤◌, refl, false, ◌+◌, if◌then◌else◌, ap, ◌∙◌, [], true, arith, some,
  ◌≡◌, Option, ℕ, All, ◌∷◌, ◌≢◌, List, Bool,
}
use my_auth.Text.{Bytes, Text}
use my_auth.Enrollment.Memory
use my_auth.Enrollment.Memory.{Records}
use my_auth.Enrollment.Memory.Step.{Step, IsWf, Step-IsWf, consume-Step}
use my_auth.Enrollment.Memory.Calls.{Call, Reply, issued_id, call, run, call-Step}
use my_auth.Enrollment.{now_utc, naive, aware, is_spent, is_closed, EnrollmentCapability}

-- No call of the list issues a capability under this identifier.
abbrev pub NeverReissued : Text → List Call → Type 0
NeverReissued id = All (λ c. issued_id c ≢ some id)

-- The record under an identifier has been consumed or revoked.
pub record IsFinal (id digest : Text) (c : EnrollmentCapability) (s : Records) : Type 0 where
  pub wf : IsWf s
  pub stored : get s id ≡ some (digest, c)
  pub closed : is_closed c ≡ true

Step-IsFinal :
    (id digest : Text) (c : EnrollmentCapability) (issues : Option Text) (s t : Records)
    → issues ≢ some id
    → Step issues s t
    → IsFinal id digest c s
    → IsFinal id digest c t
Step-IsFinal id digest c issues s t other st f = record {
  wf = Step-IsWf issues s t f.wf st;
  stored = kept st;
  closed = f.closed;
}
  where
    kept : Step issues s t → get t id ≡ some (digest, c)
    kept (Step.same e) = rw e f.stored
    kept (Step.change j g a b found ch e) = rw e (
        ground
          (arith, f.stored, f.closed, get-put s j id (g, b), list_beq_iff j id, Change-open a b ch))
    kept (Step.fresh g a named unspent unclaimed pair e) = rw e (
        ground (
          arith,
          f.stored,
          get-put s a.capability_id id (g, a),
          list_beq_iff a.capability_id id,
          λ (p : a.capability_id ≡ id). other (named ∙ ap some p),
        ))

module _ (sha256 : Bytes → Bytes) where
  call-IsFinal :
      (id digest : Text) (c : EnrollmentCapability) (k : Call) (s : Records)
      → issued_id k ≢ some id
      → IsFinal id digest c s
      → IsFinal id digest c (call sha256 k s).0
  call-IsFinal id digest c k s other f =
      Step-IsFinal id digest c (issued_id k) s _ other (call-Step sha256 k s f.wf) f

  -- Once a capability is consumed or revoked, its record never changes again, whatever calls follow,
  -- as long as none issues a capability under the same identifier.
  pub run-IsFinal :
      (calls : List Call) (id digest : Text) (c : EnrollmentCapability) (s : Records)
      → NeverReissued id calls
      → IsFinal id digest c s
      → IsFinal id digest c (run sha256 calls s)
  unfolding run
  run-IsFinal [] id digest c s fresh f = f
  run-IsFinal (k ∷ ks) id digest c s fresh f =
      run-IsFinal ks id digest c (call sha256 k s).0 fresh.1
        (call-IsFinal id digest c k s fresh.0 f)

-- The call was a `consume` that returned the capability of this identifier.
unfoldable pub consumes : Text → Call → Reply → Bool
consumes id (Call.consume flow_id reading) (Reply.capability (ok c)) = c.capability_id == id
consumes id _ _ = false

module _ (sha256 : Bytes → Bytes) where
  -- How many calls of a run consume a capability.
  unfoldable pub consumptions : Text → List Call → Records → ℕ
  unfolding consumes call
  consumptions id [] s = 0
  consumptions id (k ∷ ks) s =
      let (t, r) = call sha256 k s in (if consumes id k r then 1 else 0) + consumptions id ks t

-- What a consuming call tells: the record was open before, and is final after.
record Consumes (id : Text) (s t : Records) : Type 0 where
  digest : Text
  before : EnrollmentCapability
  after : EnrollmentCapability
  found : get s id ≡ some (digest, before)
  open_before : is_closed before ≡ false
  final : IsFinal id digest after t

module _ (sha256 : Bytes → Bytes) where
  consume-Consumes :
      (id flow_id : Text) (now : Instant) (s : Records) (c : EnrollmentCapability)
      → IsWf s
      → (Memory.consume flow_id (aware now) s).1 ≡ ok c
      → c.capability_id ≡ id
      → Consumes id s (Memory.consume flow_id (aware now) s).0
  unfolding is_spent is_closed
  consume-Consumes id flow_id now s c w h e = record {
    digest = k.digest;
    before = k.before;
    after = c;
    found = rw (← e) k.found;
    open_before = ground (arith, k.unspent);
    final = record {
      wf = Step-IsWf none s _ w (consume-Step flow_id (aware now) s w);
      stored = rw (k.after, e) (ground (arith, get-put s id id (k.digest, c), beq_self id));
      closed = ground (arith, k.result);
    };
  }
    where
      k : Consumed flow_id now s (Memory.consume flow_id (aware now) s).0 c
      k = consume-Consumed flow_id now s w h

  call-Consumes :
      (id : Text) (k : Call) (s : Records)
      → IsWf s
      → consumes id k (call sha256 k s).1 ≡ true
      → Consumes id s (call sha256 k s).0
  unfolding call consumes Memory.consume now_utc
  call-Consumes id (Call.consume flow_id (aware now)) s w h =
      elim (Result-cases (Memory.consume flow_id (aware now) s).1) [
        | inl (c, e) ↦ consume-Consumes id flow_id now s c w e ((list_beq_iff _ _).0 (rw e at h))
        | inr (x, e) ↦ cc
      ]
  call-Consumes id (Call.consume flow_id (naive t)) s w h = cc
  call-Consumes id _ s w h = cc

  none_after_final :
      (calls : List Call) (id digest : Text) (c : EnrollmentCapability) (s : Records)
      → NeverReissued id calls
      → IsFinal id digest c s
      → consumptions sha256 id calls s ≡ 0
  unfolding consumptions
  none_after_final [] id digest c s fresh f = refl
  none_after_final (k ∷ ks) id digest c s fresh f =
      elim (Bool-cases (consumes id k (call sha256 k s).1)) [
        | inl again ↦
            let o : Consumes id s (call sha256 k s).0 = call-Consumes id k s f.wf again in
            absurd (ground (arith, f.stored, f.closed, o.found, o.open_before))
        | inr other ↦ rw other (
            omega (
              arith,
              none_after_final ks id digest c (call sha256 k s).0 fresh.1
                  (call-IsFinal sha256 id digest c k s fresh.0 f),
            ))
      ]

  -- Whatever calls are made on a well-formed store, in whatever order, at most one of them consumes
  -- a given capability, as long as none issues another one under its identifier.
  pub consumed_once :
      (calls : List Call) (id : Text) (s : Records)
      → NeverReissued id calls
      → IsWf s
      → consumptions sha256 id calls s ≤ 1
  unfolding consumptions
  consumed_once [] id s fresh w = omega arith
  consumed_once (k ∷ ks) id s fresh w = elim (Bool-cases (consumes id k (call sha256 k s).1)) [
    | inl first ↦
        let o : Consumes id s (call sha256 k s).0 = call-Consumes id k s w first in
        rw first (omega (arith, none_after_final ks id o.digest o.after _ fresh.1 o.final))
    | inr other ↦ rw other (
        omega (
          arith,
          consumed_once ks id (call sha256 k s).0 fresh.1
              (Step-IsWf (issued_id k) s _ w (call-Step sha256 k s w)),
        ))
  ]
