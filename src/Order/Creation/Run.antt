-- ===== src/Order/Creation/Run.antt =====
-- Any number of transactions on orders and their creations, of any instances and in any order: each
-- one is the admission, the claim or the settlement of a creation, a read of its key or its result, or
-- another local write of an order.
-- What Credit answered, the clock, the ids and the commit's error are arbitrary in each.
use fo_c.Base.{ℕ, ◌≡◌, Bool, true, Option, none, some, List, [], Result}
use fo_c.Base.Dict.{lookup}
use fo_c.Order.Types.{Order, Offer, OrderError, Texts}
use fo_c.Order.Facts.{Change}
use fo_c.Order.Workflow.{Failure, CreationRejection, CreationWorkflow}
use fo_c.Order.Store.{Tables, within}
use fo_c.Order.Store.Mutate.{mutate}
use fo_c.Order.Creation.{Observation, claim, settle}
use fo_c.Order.Creation.Admission.{Request, admit}
use fo_c.Order.Creation.Fits.{fits}
use fo_c.Order.Creation.Linked.{Linked}
use fo_c.Order.Creation.Follows.{Follows, Extends-trans, Advances, Advances-refl}
use fo_c.Order.Creation.Steps.Claims.{within-Advances, claim-Advances}
use fo_c.Order.Creation.Create.{find, read_result}
use fo_c.Order.Creation.Steps.Finds.{find-Advances, read_result-Advances}
use fo_c.Order.Creation.Steps.Changes.{SettlesNone, mutate-Advances}
use fo_c.Order.Creation.Steps.Settles.{settle-Advances}
use fo_c.Order.Creation.Steps.Admits.{admit-Advances}

pub data Step (s : Tables) : Tables → Type 0 where
  admit_step :
      (x : Texts) (r : Request) (commit : Option Failure) → Step s (within commit (admit x r) s).1
  claim_step :
      (contended : Bool) (id now : ℕ) (commit : Option Failure)
      → Step s (within commit (claim contended id now) s).1
  settle_step :
      (x : Texts) (message : CreationRejection → ℕ) (id now jitter : ℕ) (claimed : CreationWorkflow)
      (seen : Observation) (commit : Option Failure)
      → Step s (within commit (settle x message id now jitter claimed seen) s).1
  change_step :
      (x : Texts) (id : ℕ) (build : Order → List Offer → Result OrderError (Option Change))
      (commit : Option Failure)
      → SettlesNone x id build
      → Step s (within commit (mutate x id build) s).1
  find_step :
      (caller key now : ℕ) (commit : Option Failure)
      → Step s (within commit (find caller key now) s).1
  read_step : (id : ℕ) (commit : Option Failure) → Step s (within commit (read_result id) s).1

pub data Run : Tables → Tables → Type 0 where
  done : {s : Tables} → Run s s
  next : {s t u : Tables} → Step s t → Run t u → Run s u

pub run_trans : {s t u : Tables} → Run s t → Run t u → Run s u
run_trans done q = q
run_trans (next step p) q = next step (run_trans p q)

Step-Advances : (s t : Tables) → Linked s → Step s t → Advances s t
Step-Advances s _ linked (admit_step x r commit) =
    within-Advances commit (admit x r) s linked (admit-Advances s x r linked)
Step-Advances s _ linked (claim_step contended id now commit) =
    within-Advances commit (claim contended id now) s linked
      (claim-Advances s linked contended id now)
Step-Advances s _ linked (settle_step x message id now jitter claimed seen commit) =
    within-Advances commit (settle x message id now jitter claimed seen) s linked
      (settle-Advances x message s linked id now jitter claimed seen)
Step-Advances s _ linked (change_step x id build commit none_settles) =
    within-Advances commit (mutate x id build) s linked
      (mutate-Advances x id build s linked none_settles)
Step-Advances s _ linked (find_step caller key now commit) =
    within-Advances commit (find caller key now) s linked (find-Advances s caller key now linked)
Step-Advances s _ linked (read_step id commit) =
    within-Advances commit (read_result id) s linked (read_result-Advances s id linked)

pub run-Advances : (s t : Tables) → Linked s → Run s t → Advances s t
run-Advances s _ linked done = Advances-refl s linked
run-Advances s _ linked (next {t = t} {u = u} step run) =
    let first = Step-Advances s t linked step in
    let rest = run-Advances t u first.linked run in
    record { linked = rest.linked; extends = Extends-trans s t u first.extends rest.extends }

-- The empty database
abbrev pub empty : Tables
empty = record {
  orders = [];
  offers = [];
  episodes = [];
  audits = [];
  outbox = [];
  creations = λ id. none;
  creation_orders = λ id. none;
  keys = [];
  images = λ id. none;
}

pub empty-Linked : Linked empty
empty-Linked = record {
  keyed = λ id o h. absurd (cc);
  indexed = λ id w h. absurd (cc);
  fitting = λ id w h. absurd (cc);
  checked = λ id w h. absurd (cc);
}

-- However the transactions interleave, every creation workflow has its order under its id, and the
-- order's status fits the phase: pending reservation until the workflow is resolved, rejected once
-- it is rejected, and neither once it is opened.
pub run-fits :
    (s : Tables)
    → Run empty s
    → (id : ℕ) (w : CreationWorkflow) → s.creations id ≡ some w
    → (w.order_id ≡ id)
      × ((o : Order) × (lookup id s.orders ≡ some o) × (fits w.phase o.status ≡ true))
run-fits s run id w h =
    let linked = (run-Advances empty s empty-Linked run).linked in
    ((linked.indexed id w h).0, linked.fitting id w h)

-- However the transactions interleave, a creation workflow stays, with the same intent and no smaller
-- generation; once its abort is pending it is never opened, and a resolved one never changes.
pub run-Follows :
    (s t : Tables)
    → Run empty s
    → Run s t
    → (id : ℕ) (w : CreationWorkflow) → s.creations id ≡ some w
    → (w' : CreationWorkflow) × (t.creations id ≡ some w') × Follows w w'
run-Follows s t before run id w h =
    (run-Advances s t (run-Advances empty s empty-Linked before).linked run).extends id w h
