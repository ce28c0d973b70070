-- ===== src/Order/Creation/Fencing.antt =====
-- Settlements for a claim that is no longer current.
use fo_c.Base.{
  ◌≢◌, ◌<◌, ℕ, ◌≤◌, ◌≡◌, refl, sym, ap, ◌∙◌, true, false, Option, none, some, Result, ok, err,
  arith, leb,
}
use fo_c.Base.Transaction.{Ensures}
use fo_c.Order.Types.{Texts}
use fo_c.Order.Workflow.{
  Failure, CreationRejection, eqb_phase, CreationPhase, is_resolved_phase, CreationWorkflow,
}
use fo_c.Order.Store.{Tables, Tx, Work, begin, conclude, within}
use fo_c.Order.Creation.{Observation, is_superseded, settle}
use fo_c.Order.Creation.Linked.{some_injective}
use fo_c.Order.Creation.Settlement.{settle-Ensures}
use fo_c.Order.Creation.Run.{Run, run_trans, run-Advances, run-Follows, empty, empty-Linked}

within-same :
    {A : Type 0} (commit : Option Failure) (f : Work A) (s : Tables)
    → Ensures (λ a t. t.tables ≡ s) (f (begin s))
    → (within commit f s).1 ≡ s
unfolding within
within-same {A} commit f s h = go commit (f (begin s)) h
  where
    go :
        (commit : Option Failure) (r : Result Failure (A × Tx))
        → Ensures (λ a t. t.tables ≡ s) r
        → (conclude commit s r).1 ≡ s
    go none (ok (a, t)) h = h
    go none (err e) h = refl
    go (some e) (ok (a, t)) h = refl
    go (some e) (err e') h = refl

-- Why a claim on the workflow `w` is no longer current.
pub data Supersedes (now : ℕ) (claimed w : CreationWorkflow) : Type 0 where
  other_workflow : w.id ≢ claimed.id → Supersedes now claimed w
  other_generation : w.generation ≢ claimed.generation → Supersedes now claimed w
  other_phase : w.phase ≢ claimed.phase → Supersedes now claimed w
  resolved : is_resolved_phase w.phase ≡ true → Supersedes now claimed w
  lease_over : w.lease_until ≤ now → Supersedes now claimed w

eqb_phase-same : (p q : CreationPhase) → eqb_phase p q ≡ true → p ≡ q
eqb_phase-same p q h = ground arith

is_current-same :
    (now : ℕ) (claimed w : CreationWorkflow)
    → is_superseded now claimed w ≡ false
    → (w.id ≡ claimed.id)
      × (w.generation ≡ claimed.generation)
      × (w.phase ≡ claimed.phase)
      × (is_resolved_phase w.phase ≡ false)
      × (leb w.lease_until now ≡ false)
is_current-same now claimed w h = (
  ground arith,
  ground arith,
  eqb_phase-same w.phase claimed.phase (ground arith),
  ground arith,
  ground arith,
)

Supersedes-current :
    (now : ℕ) (claimed w : CreationWorkflow)
    → Supersedes now claimed w
    → is_superseded now claimed w ≡ false
    → ⊥
Supersedes-current now claimed w (other_workflow apart) h =
    apart ((is_current-same now claimed w h).0)
Supersedes-current now claimed w (other_generation apart) h =
    apart ((is_current-same now claimed w h).1)
Supersedes-current now claimed w (other_phase apart) h = apart ((is_current-same now claimed w h).2)
Supersedes-current now claimed w (resolved r) h =
    let live = (is_current-same now claimed w h).3 in absurd (cc)
Supersedes-current now claimed w (lease_over over) h =
    let live = (is_current-same now claimed w h).4 in absurd (ground (arith, over, live))

-- On reachable tables, the settlement of a claim changes nothing where the stored workflow has another
-- id, generation or phase than the claim, is resolved, or its lease has ended.
pub settle-superseded :
    (x : Texts) (message : CreationRejection → ℕ) (s : Tables)
    → Run empty s
    → (id now jitter : ℕ) (claimed w : CreationWorkflow) (seen : Observation)
    → (commit : Option Failure) → s.creations id ≡ some w
    → Supersedes now claimed w
    → (within commit (settle x message id now jitter claimed seen) s).1 ≡ s
settle-superseded x message s reached id now jitter claimed w seen commit found old =
    within-same commit (settle x message id now jitter claimed seen) s (
      settle-Ensures x message s (run-Advances empty s empty-Linked reached).linked id now jitter
        claimed seen (λ b t. t.tables ≡ s) (λ o v t held h. held.same_tables)
        (λ o v t held own waits. absurd (
          Supersedes-current now claimed w old
            (ap (is_superseded now claimed) (some_injective (sym found ∙ held.found)) ∙ own))))

newer_later : (a b c : ℕ) → a < b → b ≤ c → c ≢ a
newer_later a b c h k = λ e. ground (arith, h, k, e)

-- Once a newer claim of the workflow is stored, the settlement of an older one changes nothing, on
-- whatever tables later transactions reach.
pub settle-fenced :
    (x : Texts) (message : CreationRejection → ℕ) (s t : Tables)
    → Run empty s
    → Run s t
    → (id now jitter : ℕ) (claimed newer : CreationWorkflow) (seen : Observation)
    → (commit : Option Failure) → s.creations id ≡ some newer
    → claimed.generation < newer.generation
    → (within commit (settle x message id now jitter claimed seen) t).1 ≡ t
settle-fenced x message s t before after id now jitter claimed newer seen commit stored later =
    let (w, found, follows) = run-Follows s t before after id newer stored in
    settle-superseded x message t (run_trans before after) id now jitter claimed w seen commit found
      (other_generation
        (newer_later claimed.generation newer.generation w.generation later follows.grows))
