-- ===== src/Credit/Keeps.antt =====
-- What a unit of work and `mutate` keep: its action's postcondition, and what a replay leaves.
use fo_c.Base.{
  ℕ, ◌≡◌, refl, inl, inr, Option, some, Result, ok, err, arith, if◌then◌else◌, Option-cases,
}
use fo_c.Credit.Types.{
  produced, insufficient, Operation, Error, Reservation, OperationKey, Payload, MutationResult,
}
use fo_c.Credit.Store.{
  Commit, succeeds, fails, lost, conclude, save_operation, eqb_key, ◌>>◌, Store, Action, within,
  pure,
}
use fo_c.Credit.Ensures.{Ensures, Ensures-map, >>=-Ensures}
use fo_c.Credit.Service.{
  recorded, with_adjustment, Env, Library, mutate, mutate_tx, replay, first_call, describe, answer,
}

-- A unit of work keeps what its action keeps; where it is rolled back it changes nothing.
conclude-keeps :
    {A : Type 0} (P : Store → Type 0) (commit : Commit) (s : Store)
    → (r : Result Error (A × Store)) → P s
    → Ensures (λ _ v. P v) r
    → P (conclude commit s r).1
conclude-keeps P succeeds s (ok (a, t)) p h = h
conclude-keeps P (fails e) s (ok (a, t)) p h = p
conclude-keeps P (lost e) s (ok (a, t)) p h = h
conclude-keeps P succeeds s (err e) p h = p
conclude-keeps P (fails x) s (err e) p h = p
conclude-keeps P (lost x) s (err e) p h = p

pub within-keeps :
    {A : Type 0} (P : Store → Type 0) (commit : Commit) (m : Action A) (s : Store)
    → P s
    → Ensures (λ _ v. P v) (m s)
    → P (within commit m s).1
unfolding within
within-keeps P commit m s p h = conclude-keeps P commit s (m s) p h

pub answer_same : (x : Result Error MutationResult × Store) → (answer x).1 ≡ x.1
answer_same (ok (produced r), s) = refl
answer_same (ok insufficient, s) = refl
answer_same (err e, s) = refl

pub with_adjustment-same :
    (r : Reservation) (s : Store) → Ensures (λ _ v. v ≡ s) (with_adjustment r s)
unfolding with_adjustment
with_adjustment-same r s = ground arith

pub describe-same : (out : MutationResult) (s : Store) → Ensures (λ _ v. v ≡ s) (describe out s)
describe-same (produced r) s =
    >>=-Ensures (λ _ v. v ≡ s) (λ _ v. v ≡ s) (with_adjustment r) (λ r'. pure (produced r')) s
      (with_adjustment-same r s) (λ _ v h. h)
describe-same insufficient s = refl

-- A replay changes nothing.
pub replay-same :
    (k : OperationKey) (hash : ℕ) (op : Operation) (s : Store)
    → Ensures (λ _ v. v ≡ s) (replay k hash op s)
unfolding replay
replay-same k hash op s = ground arith

-- A property of the tables that the operations table does not bear on.
abbrev pub IgnoresOperations : (Store → Type 0) → Type 0
IgnoresOperations P =
    (s : Store) (ops : OperationKey → Option Operation) → P s → P (record s { operations = ops })

module _ (P : Store → Type 0) (ignores : IgnoresOperations P) where
  save-keeps :
      (k : OperationKey) (op : Operation) (s : Store)
      → P s
      → Ensures (λ _ v. P v) (save_operation k op s)
  unfolding save_operation
  save-keeps k op s p =
      ground (arith, ignores s (λ j. if eqb_key j k then some op else s.operations j))

  first_call-keeps :
      (now : ℕ) (k : OperationKey) (hash : ℕ) (apply : Action MutationResult) (s : Store)
      → Ensures (λ _ v. P v) (apply s)
      → Ensures (λ _ v. P v) (first_call now k hash apply s)
  unfolding first_call
  first_call-keeps now k hash apply s h =
      >>=-Ensures (λ _ v. P v) (λ _ v. P v) apply
        (λ out. save_operation k (recorded now hash out) >> describe out) s h
        (λ out t p.
          >>=-Ensures (λ _ v. P v) (λ _ v. P v) (save_operation k (recorded now hash out))
            (λ _. describe out) t (save-keeps k (recorded now hash out) t p)
            (λ _ v q. Ensures-map (describe out v) (λ _ w e. rw e q) (describe-same out v)))

  mutate_tx-keeps :
      (now : ℕ) (k : OperationKey) (hash : ℕ) (apply : Action MutationResult) (s : Store)
      → P s
      → Ensures (λ _ v. P v) (apply s)
      → Ensures (λ _ v. P v) (mutate_tx now k hash apply s)
  unfolding mutate_tx
  mutate_tx-keeps now k hash apply s p h = elim (Option-cases (s.operations k)) [
    | inl new ↦ rw (new, Ensures) (first_call-keeps now k hash apply s h)
    | inr (op, old) ↦
        rw (old, Ensures)
          (Ensures-map (replay k hash op s) (λ _ v e. rw e p) (replay-same k hash op s))
  ]

  -- Running an action once for each key keeps what the action keeps.
  pub mutate-keeps :
      (l : Library) (env : Env) (k : OperationKey) (payload : Payload)
      (apply : Action MutationResult) (s : Store)
      → P s
      → Ensures (λ _ v. P v) (apply s)
      → P (mutate l env k payload apply s).1
  unfolding mutate
  mutate-keeps l env k payload apply s p h = rw answer_same (
      within-keeps P env.commit (mutate_tx env.now k (l.request_hash payload) apply) s p
        (mutate_tx-keeps env.now k (l.request_hash payload) apply s p h))
