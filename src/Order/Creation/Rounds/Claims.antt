-- ===== src/Order/Creation/Rounds/Claims.antt =====
-- What a claim does about an abort, and what a transaction that succeeded ensures.
use fo_c.Base.{
  ℕ, ◌≡◌, refl, sym, ap, ◌∙◌, Bool, true, false, Option, none, some, Result, ok, err, arith,
  if◌then◌else◌,
}
use mathlib.Core.Path.{subst}
use fo_c.Base.Dict.{lookup}
use fo_c.Base.Transaction.{Ensures, >>=-Ensures, if-Ensures, from_result, pure, ◌>>=◌}
use fo_c.Order.Types.{Order}
use fo_c.Order.Workflow.{Failure, abort_pending, CreationWorkflow}
use fo_c.Order.Store.{Tables, Tx, Work, begin, conclude, within, lock_order, lock_row}
use fo_c.Order.Store.Creations.{try_lock_creation_order, lock_creation, save_creation, remember}
use fo_c.Order.Store.Laws.Creations.{
  Saved, save_creation-Saved, lock_order-Locks, lock_creation-Locks,
}
use fo_c.Order.Creation.{claim_of, save_claim, claim_locked, claim, is_not_found}
use fo_c.Order.Creation.Linked.{some_injective}

-- The stored workflow of an order is one whose abort is pending.
abbrev pub Aborting : Tables → ℕ → Type 0
Aborting s id = (w : CreationWorkflow) × (s.creations id ≡ some w) × (w.phase ≡ abort_pending)

same_ok : {A : Type 0} {a b : A} → ◌≡◌ {A = Result Failure A} (ok a) (ok b) → a ≡ b
same_ok e = cc

no_ok : {A : Type 0} {x : Failure} {a : A} → ◌≡◌ {A = Result Failure A} (err x) (ok a) → ⊥
no_ok e = cc

-- What a transaction that succeeded ensures.
pub within-Ensures :
    {A : Type 0} (Q : A → Tx → Type 0) (commit : Option Failure) (f : Work A) (s : Tables)
    → Ensures Q (f (begin s))
    → (a : A) (s' : Tables) → within commit f s ≡ (ok a, s')
    → (t : Tx) × (t.tables ≡ s') × Q a t
unfolding within
within-Ensures {A} Q commit f s h = go commit (f (begin s)) h
  where
    go :
        (commit : Option Failure) (r : Result Failure (A × Tx))
        → Ensures Q r
        → (a : A) (s' : Tables) → conclude commit s r ≡ (ok a, s')
        → (t : Tx) × (t.tables ≡ s') × Q a t
    go none (ok (b, t)) h a s' e =
        (t, ap (λ p. p.1) e, subst (λ c. Q c t) (same_ok (ap (λ p. p.0) e)) h)
    go none (err x) h a s' e = absurd (no_ok (ap (λ p. p.0) e))
    go (some x) (ok (b, t)) h a s' e = absurd (no_ok (ap (λ p. p.0) e))
    go (some x) (err y) h a s' e = absurd (no_ok (ap (λ p. p.0) e))

-- The claim of a workflow whose abort is pending leaves it so.
claimed-aborting :
    (now : ℕ) (o : Order) (w v : CreationWorkflow)
    → w.phase ≡ abort_pending
    → claim_of now o w ≡ ok (some v)
    → v.phase ≡ abort_pending
unfolding claim_of
claimed-aborting now o w v pending h = ground arith

abbrev pub ClaimsAbort : Option CreationWorkflow → Tx → Type 0
ClaimsAbort r t = (v : CreationWorkflow) → r ≡ some v → v.phase ≡ abort_pending

save_claim-ClaimsAbort :
    (n now : ℕ) (o : Order) (w : CreationWorkflow) (t : Tx)
    → w.phase ≡ abort_pending
    → (r : Result Failure (Option CreationWorkflow)) → claim_of now o w ≡ r
    → Ensures ClaimsAbort ((from_result r >>= save_claim n) t)
save_claim-ClaimsAbort n now o w t pending (err e) h = tt
save_claim-ClaimsAbort n now o w t pending (ok none) h = λ v e. absurd (cc)
save_claim-ClaimsAbort n now o w t pending (ok (some v)) h =
    >>=-Ensures (λ u t'. Saved v n t t') ClaimsAbort (save_creation v n) (λ u. pure (some v)) t
      (save_creation-Saved v n t)
      (λ u t' saved u' e.
        ap (λ q. q.phase) (sym (same_some e)) ∙ claimed-aborting now o w v pending h)
  where
    same_some : {a b : CreationWorkflow} → some a ≡ some b → a ≡ b
    same_some e = cc

module _ (s : Tables) (id now : ℕ) (aborting : Aborting s id) where
  claim_locked-ClaimsAbort :
      (o : Order) → Ensures ClaimsAbort (claim_locked id now o (lock_row o (begin s)))
  unfolding claim_locked
  claim_locked-ClaimsAbort o =
      let t = lock_row o (begin s) in
      let (w, found, pending) = aborting in
      >>=-Ensures (λ v t'. (s.creations id ≡ some v) × (t' ≡ remember v t)) ClaimsAbort
        (lock_creation id) (λ v. from_result (claim_of now o v) >>= save_claim v.generation) t
        (lock_creation-Locks id t)
        (λ v t' (at, e).
          save_claim-ClaimsAbort v.generation now o v t'
            (ap (λ q. q.phase) (some_injective (sym at ∙ found)) ∙ pending) (claim_of now o v) refl)

  pub claim-ClaimsAbort :
      (contended : Bool) → Ensures ClaimsAbort (claim contended id now (begin s))
  unfolding claim try_lock_creation_order
  claim-ClaimsAbort true = λ v e. absurd (cc)
  claim-ClaimsAbort false = go (lock_order id (begin s)) (lock_order-Locks id (begin s))
    where
      nothing : ClaimsAbort none (begin s)
      nothing v e = absurd (cc)

      go :
          (r : Result Failure (Order × Tx))
          → Ensures (λ o t. (lookup id s.orders ≡ some o) × (t ≡ lock_row o (begin s))) r
          → Ensures ClaimsAbort (elim r [
            | err e ↦ if is_not_found e then ok (none, begin s) else err e
            | ok (o, t') ↦ claim_locked id now o t'
          ])
      go (err e) h = if-Ensures ClaimsAbort (is_not_found e) (ok (none, begin s)) (err e) nothing tt
      go (ok (o, t)) (found, e) =
          subst (λ q. Ensures ClaimsAbort (claim_locked id now o q)) (sym e)
            (claim_locked-ClaimsAbort o)
