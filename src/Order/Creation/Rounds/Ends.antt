-- ===== src/Order/Creation/Rounds/Ends.antt =====
-- How `ProcessCreation` ends, and the transactions of its passes.
use fo_c.Base.{ℕ, suc, ◌≡◌, refl, ap, Bool, true, false, Option, none, some, Result, ok, err, ⊤}
use mathlib.Core.Path.{subst}
use fo_c.Order.Types.{Texts}
use fo_c.Order.Workflow.{Failure, CreationRejection, abort_pending, CreationWorkflow}
use fo_c.Order.Store.{Tables, within}
use fo_c.Order.Creation.{Observation, claim, settle}
use fo_c.Order.Creation.Process.{
  CreationCredit, Turn, observe, finish, continue, Answer, step, after_step, process,
}
use fo_c.Order.Creation.Linked.{Linked}
use fo_c.Order.Creation.Follows.{Advances}
use fo_c.Order.Creation.Steps.Claims.{within-Advances, claim-Advances}
use fo_c.Order.Creation.Run.{
  Run, done, next, claim_step, settle_step, run_trans, run-Advances, empty, empty-Linked,
}
use fo_c.Order.Creation.Rounds.Claims.{Aborting, ClaimsAbort, within-Ensures, claim-ClaimsAbort}
use fo_c.Order.Creation.Rounds.Settlements.{settle-StoresAbort, settle-Ends}

true_not_false : true ≡ false → ⊥
true_not_false h = cc

module _ {C : Type 0} (credit : CreationCredit C) (x : Texts)
    (message : CreationRejection → ℕ) where
  finish-Run :
      (turn : Turn) (id : ℕ) (claimed : CreationWorkflow) (s : Tables) (o : Observation × C)
      → Run s (finish credit x message turn id claimed s o).1.0
  finish-Run turn id claimed s (seen, c) =
      next (settle_step x message id turn.settled_at turn.jitter claimed seen turn.settle_commit)
        done

  -- Each pass is a run of transactions.
  pub step-Run :
      (turn : Turn) (id : ℕ) (s : Tables) (c : C) → Run s (step credit x message turn id (s, c)).1.0
  unfolding step
  step-Run turn id s c =
      go (within turn.claim_commit (claim turn.contended id turn.claimed_at) s)
        (next (claim_step turn.contended id turn.claimed_at turn.claim_commit) done)
    where
      go :
          (r : Result Failure (Option CreationWorkflow) × Tables)
          → Run s r.1
          → Run s (continue credit x message turn id r c).1.0
      go (err e, t) run = run
      go (ok none, t) run = run
      go (ok (some claimed), t) run =
          run_trans run (finish-Run turn id claimed t (observe credit x message claimed c))

  finish-StoresAbort :
      (turn : Turn) (id : ℕ) (claimed : CreationWorkflow) (s : Tables) (o : Observation × C)
      → Linked s
      → (finish credit x message turn id claimed s o).0 ≡ ok true
      → Aborting (finish credit x message turn id claimed s o).1.0 id
  finish-StoresAbort turn id claimed s (seen, c) linked again =
      let f = settle x message id turn.settled_at turn.jitter claimed seen in
      let (t, tables, stores) =
        within-Ensures (λ b t. b ≡ true → Aborting t.tables id) turn.settle_commit f s
          (settle-StoresAbort x message s linked id turn.settled_at turn.jitter claimed seen) true
          (within turn.settle_commit f s).1
          (ap (λ r. (r, (within turn.settle_commit f s).1)) again) in
      subst (λ q. Aborting q id) tables (stores refl)

  finish-Ends :
      (turn : Turn) (id : ℕ) (claimed : CreationWorkflow) (s : Tables) (o : Observation × C)
      → Linked s
      → claimed.phase ≡ abort_pending
      → (finish credit x message turn id claimed s o).0 ≡ ok true
      → ⊥
  finish-Ends turn id claimed s (seen, c) linked pending again =
      let f = settle x message id turn.settled_at turn.jitter claimed seen in
      let (t, tables, ends) =
        within-Ensures (λ b t. b ≡ false) turn.settle_commit f s
          (settle-Ends x message s linked id turn.settled_at turn.jitter claimed seen pending) true
          (within turn.settle_commit f s).1
          (ap (λ r. (r, (within turn.settle_commit f s).1)) again) in
      true_not_false ends

  -- A pass that calls itself again has stored an abort.
  step-StoresAbort :
      (turn : Turn) (id : ℕ) (s : Tables) (c : C)
      → Linked s
      → (step credit x message turn id (s, c)).0 ≡ ok true
      → Aborting (step credit x message turn id (s, c)).1.0 id
  unfolding step
  step-StoresAbort turn id s c linked again =
      go (within turn.claim_commit (claim turn.contended id turn.claimed_at) s)
        (within-Advances turn.claim_commit (claim turn.contended id turn.claimed_at) s linked
          (claim-Advances s linked turn.contended id turn.claimed_at))
        again
    where
      go :
          (r : Result Failure (Option CreationWorkflow) × Tables)
          → Advances s r.1
          → (continue credit x message turn id r c).0 ≡ ok true
          → Aborting (continue credit x message turn id r c).1.0 id
      go (err e, t) h again = absurd (cc)
      go (ok none, t) h again = absurd (cc)
      go (ok (some claimed), t) h again =
          finish-StoresAbort turn id claimed t (observe credit x message claimed c) h.linked again

  -- A pass over a pending abort does not.
  step-Ends :
      (turn : Turn) (id : ℕ) (s : Tables) (c : C)
      → Linked s
      → Aborting s id
      → (step credit x message turn id (s, c)).0 ≡ ok true
      → ⊥
  unfolding step
  step-Ends turn id s c linked aborting again =
      go (within turn.claim_commit (claim turn.contended id turn.claimed_at) s) refl
        (within-Advances turn.claim_commit (claim turn.contended id turn.claimed_at) s linked
          (claim-Advances s linked turn.contended id turn.claimed_at))
        again
    where
      go :
          (r : Result Failure (Option CreationWorkflow) × Tables)
          → within turn.claim_commit (claim turn.contended id turn.claimed_at) s ≡ r
          → Advances s r.1
          → (continue credit x message turn id r c).0 ≡ ok true
          → ⊥
      go (err e, t) claims h again = cc
      go (ok none, t) claims h again = cc
      go (ok (some claimed), t) claims h again =
          let (u, tables, aborts) =
            within-Ensures ClaimsAbort turn.claim_commit (claim turn.contended id turn.claimed_at) s
              (claim-ClaimsAbort s id turn.claimed_at aborting turn.contended) (some claimed) t
              claims in
          finish-Ends turn id claimed t (observe credit x message claimed c) h.linked
            (aborts claimed refl) again

  abbrev returned : Result Failure Bool → Result Failure ⊤
  returned (err e) = err e
  returned (ok b) = ok tt

  -- A pass that does not call itself again is the last one.
  last_step :
      (again : Tables × C → Answer C) (p : Result Failure Bool × (Tables × C))
      → (p.0 ≡ ok true → ⊥)
      → after_step credit x message again p ≡ (some (returned p.0), p.1)
  last_step again (err e, w) last = refl
  last_step again (ok false, w) last = refl
  last_step again (ok true, w) last = absurd (last refl)

  -- Over a pending abort one pass is enough.
  process-Aborting :
      (turns : ℕ → Turn) (id : ℕ) (s : Tables) (c : C)
      → Linked s
      → Aborting s id
      → (n : ℕ)
      → process credit x message (suc n) turns id (s, c) ≡ (
        some (returned (step credit x message (turns 0) id (s, c)).0),
        (step credit x message (turns 0) id (s, c)).1,
      )
  unfolding process
  process-Aborting turns id s c linked aborting n =
      last_step (process credit x message n (λ k. turns (suc k)) id)
        (step credit x message (turns 0) id (s, c)) (step-Ends (turns 0) id s c linked aborting)

  -- On any reachable tables and whatever Credit answers, `ProcessCreation` ends after two passes at
  -- most: every fuel from two on gives the same answer, and what it leaves is reached by a run of
  -- transactions.
  pub process-terminates :
      (turns : ℕ → Turn) (id : ℕ) (s : Tables) (c : C)
      → Run empty s
      → (r : Result Failure ⊤) × (w : Tables × C) × ((n : ℕ)
          → process credit x message (suc (suc n)) turns id (s, c) ≡ (some r, w))
        × Run s w.0
  unfolding process
  process-terminates turns id s c reached =
      go (step credit x message (turns 0) id (s, c)) (step-Run (turns 0) id s c)
        (step-StoresAbort (turns 0) id s c linked)
    where
      linked : Linked s
      linked = (run-Advances empty s empty-Linked reached).linked

      later : ℕ → Turn
      later k = turns (suc k)

      go :
          (p : Result Failure Bool × (Tables × C))
          → Run s p.1.0
          → (p.0 ≡ ok true → Aborting p.1.0 id)
          → (r : Result Failure ⊤) × (w : Tables × C) × ((n : ℕ)
              → after_step credit x message (process credit x message (suc n) later id) p
                ≡ (some r, w))
            × Run s w.0
      go (err e, w) run stores = (err e, w, λ n. refl, run)
      go (ok false, w) run stores = (ok tt, w, λ n. refl, run)
      go (ok true, (t, d)) run stores =
          let second = step credit x message (later 0) id (t, d) in
          (
            returned second.0,
            second.1,
            process-Aborting later id t d (run-Advances s t linked run).linked (stores refl),
            run_trans run (step-Run (later 0) id t d),
          )
