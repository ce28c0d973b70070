-- ===== src/Credit/Idempotency.antt =====
-- What the key of a call stands for in reservation/service.go (`mutate`): repeats, conflicting requests
-- and calls that fail.
use fo_c.Base.{
  ℕ, ◌≡◌, ◌⊎◌, refl, ◌∙◌, inl, inr, true, false, some, Result, ok, err, arith, Option-cases,
  Bool-cases, ◌==◌, ⊤, is_some, not,
}
use fo_c.Credit.Types.{
  produced, insufficient, Operation, Error, idempotency_conflict, Reservation, OperationKey,
  Payload, MutationResult,
}
use fo_c.Credit.Store.{
  Commit, succeeds, fails, lost, conclude, save_operation, eqb_key, ◌>>◌, Store, Action, within,
}
use fo_c.Credit.Ensures.{Ensures, Ensures-map, >>=-Ensures}
use fo_c.Credit.Service.{
  recorded, Env, Library, mutate, mutate_tx, replay, first_call, describe, answer,
}
use fo_c.Credit.Keeps.{within-keeps, answer_same, replay-same, describe-same}

eqb_key_refl : (k : OperationKey) → eqb_key k k ≡ true
eqb_key_refl k = ground arith

within-ok :
    {A : Type 0} (Q : A → Store → Type 0) (commit : Commit) (s : Store)
    → (r : Result Error (A × Store)) (a : A) (t : Store) → conclude commit s r ≡ (ok a, t)
    → Ensures Q r
    → Q a t
within-ok Q succeeds s (ok (b, u)) a t e h = ground (arith, e, h)
within-ok Q (fails x) s (ok (b, u)) a t e h = absurd (ground (arith, e))
within-ok Q (lost x) s (ok (b, u)) a t e h = absurd (ground (arith, e))
within-ok Q succeeds s (err x) a t e h = absurd (ground (arith, e))
within-ok Q (fails y) s (err x) a t e h = absurd (ground (arith, e))
within-ok Q (lost y) s (err x) a t e h = absurd (ground (arith, e))

answer-ok :
    (x : Result Error MutationResult × Store) (r : Reservation) (t : Store)
    → answer x ≡ (ok r, t)
    → x ≡ (ok (produced r), t)
answer-ok (ok (produced q), s) r t e = ground (arith, e)
answer-ok (ok insufficient, s) r t e = absurd (ground (arith, e))
answer-ok (err y, s) r t e = absurd (ground (arith, e))

-- The operation of a key, with the hash of its request.
pub record IsRecorded (k : OperationKey) (hash : ℕ) (s : Store) : Type 0 where
  pub op : Operation
  pub known : s.operations k ≡ some op
  pub same_request : op.request_hash ≡ hash

holds_trivially : {A : Type 0} (r : Result Error (A × Store)) → Ensures (λ _ v. ⊤) r
holds_trivially (ok (a, s)) = tt
holds_trivially (err e) = tt

save-IsRecorded :
    (k : OperationKey) (hash : ℕ) (op : Operation) (s : Store)
    → op.request_hash ≡ hash
    → Ensures (λ _ v. IsRecorded k hash v) (save_operation k op s)
unfolding save_operation
save-IsRecorded k hash op s h = elim (Bool-cases (is_some (s.operations k))) [
  | inl taken ↦ rw (taken, Ensures) tt
  | inr free ↦
      rw (free, Ensures) (record { op = op; known = rw (eqb_key_refl k) refl; same_request = h })
]

first_call-IsRecorded :
    (now : ℕ) (k : OperationKey) (hash : ℕ) (apply : Action MutationResult) (s : Store)
    → Ensures (λ _ v. IsRecorded k hash v) (first_call now k hash apply s)
unfolding first_call
first_call-IsRecorded now k hash apply s =
    >>=-Ensures (λ _ v. ⊤) (λ _ v. IsRecorded k hash v) apply
      (λ out. save_operation k (recorded now hash out) >> describe out) s
      (holds_trivially (apply s))
      (λ out t _.
        >>=-Ensures (λ _ v. IsRecorded k hash v) (λ _ v. IsRecorded k hash v)
          (save_operation k (recorded now hash out)) (λ _. describe out) t
          (save-IsRecorded k hash (recorded now hash out) t refl)
          (λ _ v q. Ensures-map (describe out v) (λ _ w e. rw e q) (describe-same out v)))

replay-IsRecorded :
    (k : OperationKey) (hash : ℕ) (op : Operation) (s : Store)
    → s.operations k ≡ some op
    → Ensures (λ _ v. IsRecorded k hash v) (replay k hash op s)
unfolding replay
replay-IsRecorded k hash op s old = elim (Bool-cases (not (op.request_hash == hash))) [
  | inl differs ↦ rw (differs, Ensures) tt
  | inr same ↦
      Ensures-map (replay k hash op s)
        (λ _ v e. record { op = op; known = rw e old; same_request = ground (arith, same) })
        (replay-same k hash op s)
]

mutate_tx-IsRecorded :
    (now : ℕ) (k : OperationKey) (hash : ℕ) (apply : Action MutationResult) (s : Store)
    → Ensures (λ _ v. IsRecorded k hash v) (mutate_tx now k hash apply s)
unfolding mutate_tx
mutate_tx-IsRecorded now k hash apply s = elim (Option-cases (s.operations k)) [
  | inl new ↦ rw (new, Ensures) (first_call-IsRecorded now k hash apply s)
  | inr (op, old) ↦ rw (old, Ensures) (replay-IsRecorded k hash op s old)
]

-- A call that succeeds leaves its key recorded with the hash of its request.
mutate-IsRecorded :
    (l : Library) (env : Env) (k : OperationKey) (payload : Payload) (apply : Action MutationResult)
    (s t : Store) (r : Reservation)
    → mutate l env k payload apply s ≡ (ok r, t)
    → IsRecorded k (l.request_hash payload) t
unfolding mutate within
mutate-IsRecorded l env k payload apply s t r e =
    within-ok (λ _ v. IsRecorded k (l.request_hash payload) v) env.commit s
      (mutate_tx env.now k (l.request_hash payload) apply s) (produced r) t
      (answer-ok (conclude env.commit s (mutate_tx env.now k (l.request_hash payload) apply s)) r t
        e)
      (mutate_tx-IsRecorded env.now k (l.request_hash payload) apply s)

known-same :
    (now : ℕ) (k : OperationKey) (hash : ℕ) (apply : Action MutationResult) (s : Store)
    (op : Operation)
    → s.operations k ≡ some op
    → Ensures (λ _ v. v ≡ s) (mutate_tx now k hash apply s)
unfolding mutate_tx
known-same now k hash apply s op old = rw (old, Ensures) (replay-same k hash op s)

recorded-once :
    (l : Library) (later : Env) (k : OperationKey) (other : Payload)
    (repeated : Action MutationResult) (t : Store) (hash : ℕ)
    → IsRecorded k hash t
    → (mutate l later k other repeated t).1 ≡ t
unfolding mutate
recorded-once l later k other repeated t hash known =
    answer_same (within later.commit (mutate_tx later.now k (l.request_hash other) repeated) t)
    ∙ within-keeps (λ v. v ≡ t) later.commit (mutate_tx later.now k (l.request_hash other) repeated)
        t refl (known-same later.now k (l.request_hash other) repeated t known.op known.known)

-- Once a call has succeeded, any call under its key leaves every table as it is, whatever the call's
-- request, its own work and the outcome of its commit.
pub mutate-once :
    (l : Library) (env later : Env) (k : OperationKey) (payload other : Payload)
    (apply repeated : Action MutationResult) (s t : Store) (r : Reservation)
    → mutate l env k payload apply s ≡ (ok r, t)
    → (mutate l later k other repeated t).1 ≡ t
mutate-once l env later k payload other apply repeated s t r e =
    recorded-once l later k other repeated t (l.request_hash payload)
      (mutate-IsRecorded l env k payload apply s t r e)

-- Once a call has succeeded, a call under its key whose request has another hash is refused with an
-- idempotency conflict and leaves every table as it is.
pub mutate-conflict :
    (l : Library) (env later : Env) (k : OperationKey) (payload other : Payload)
    (apply repeated : Action MutationResult) (s t : Store) (r : Reservation)
    → mutate l env k payload apply s ≡ (ok r, t)
    → (l.request_hash payload == l.request_hash other) ≡ false
    → mutate l later k other repeated t ≡ (err idempotency_conflict, t)
unfolding mutate mutate_tx replay within
mutate-conflict l env later k payload other apply repeated s t r e differs =
    let known = mutate-IsRecorded l env k payload apply s t r e in
    ground (arith, known.known, known.same_request, differs)

-- What a unit of work leaves: every table as it was, or what its action ensures.
within-either :
    (P : Store → Type 0) (commit : Commit) (s : Store) (r : Result Error (MutationResult × Store))
    → Ensures (λ _ v. P v) r
    → ((answer (conclude commit s r)).1 ≡ s) ⊎ P (answer (conclude commit s r)).1
within-either P succeeds s (ok (produced q, t)) h = inr h
within-either P succeeds s (ok (insufficient, t)) h = inr h
within-either P (fails e) s (ok (a, t)) h = inl refl
within-either P (lost e) s (ok (a, t)) h = inr h
within-either P succeeds s (err e) h = inl refl
within-either P (fails x) s (err e) h = inl refl
within-either P (lost x) s (err e) h = inl refl

-- Whatever a call returns, also where its commit took place and the answer was lost, it left either
-- every table as it was, or its key recorded with the hash of its request; in the latter case any
-- later call under the key, whatever its request and its own work, leaves every table as it is.
pub mutate-atomic :
    (l : Library) (env later : Env) (k : OperationKey) (payload other : Payload)
    (apply repeated : Action MutationResult) (s : Store)
    → ((mutate l env k payload apply s).1 ≡ s)
      ⊎ (IsRecorded k (l.request_hash payload) (mutate l env k payload apply s).1
          × ((mutate l later k other repeated (mutate l env k payload apply s).1).1
              ≡ (mutate l env k payload apply s).1))
unfolding mutate within
mutate-atomic l env later k payload other apply repeated s =
    elim (within-either (IsRecorded k (l.request_hash payload)) env.commit s
      (mutate_tx env.now k (l.request_hash payload) apply s)
      (mutate_tx-IsRecorded env.now k (l.request_hash payload) apply s)) [
        | inl same ↦ inl same
        | inr known ↦
            inr (known, recorded-once l later k other repeated _ (l.request_hash payload) known)
      ]
