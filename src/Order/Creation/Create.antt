-- ===== src/Order/Creation/Create.antt =====
-- order-service/internal/order/creation.go: `Create`, which first recognizes a retained key, checks
-- the request against Supplier and the object storage, admits it, and resumes the creation. No context
-- ends: the five seconds that a resumption has are not modelled, and `others` is what other requests
-- write between the search of the key and the end of the preflight.
pub mod Retries
use fo_c.Base.{
  ℕ, Bool, not, ◌||◌, Option, none, some, List, [], ◌∷◌, Result, ok, err, leb, ◌==◌, is_some,
  if◌then◌else◌,
}
use fo_c.Base.Transaction.{pure, fail, ◌>>=◌, ◌>>◌}
use fo_c.Order.Types.{
  LocationSnapshot, Order, Caller, OrderError, forbidden, invalid, precondition, conflict, Texts,
}
use fo_c.Order.Offers.{create_order}
use fo_c.Order.Images.{ItemImage, Inspection, prepare}
use fo_c.Order.Workflow.{
  Failure, policy, unavailable, integrity, creation_refused, CreationRejection, creation_opened,
  creation_rejected, CreationPhase, reserve_pending, abort_pending, is_resolved_phase,
  CreationWorkflow, check_request_hash, CreationReplay,
}
use fo_c.Order.Store.{Tables, Work, within, lock_order}
use fo_c.Order.Store.Keys.{lock_idempotency_caller}
use fo_c.Order.Store.Creations.{find_creation_key, lock_creation}
use fo_c.Order.Creation.{is_not_found}
use fo_c.Order.Creation.Process.{CreationCredit, Turn, Answer, process}
use fo_c.Order.Creation.Admission.{CreateInput, InputTexts, canonical_creation, Request, admit}

pub record SelectableLocation : Type 0 where
  pub snapshot : LocationSnapshot
  pub archived : Bool

-- `Creator`: a dependency that is nil is `none`, and images whose storage is nil are `some none`.
pub record Creator (C : Type 0) : Type 0 where
  pub locations : Option (ℕ → Result Failure SelectableLocation)
  pub credit : Option (CreationCredit C)
  pub images : Option (Option (ℕ → Inspection))
  pub enabled : Bool

-- What a call of `Create` meets: its readings of the clock, the ids it draws, the passes of
-- `ProcessCreation`, what others write during the preflight, and the errors of its commits.
pub record Visit : Type 0 where
  pub found_at : ℕ
  pub checked_at : ℕ
  pub rechecked_at : ℕ
  pub admitted_at : ℕ
  pub order_id : ℕ
  pub workflow_id : ℕ
  pub turns : ℕ → Turn
  pub others : Tables → Tables
  pub find_commit : Option Failure
  pub recheck_commit : Option Failure
  pub admit_commit : Option Failure
  pub read_commit : Option Failure

-- `creationReplayError`
abbrev pub creation_replay_error : Failure → Failure
creation_replay_error e = if is_not_found e then integrity else e

abbrev pub or_integrity : {A : Type 0} → Work A → Work A
or_integrity m t = elim (m t) [ ok (a, t') ↦ ok (a, t') | err e ↦ err (creation_replay_error e) ]

-- The rejection as an error; one without a text unwraps to `ErrPrecondition`.
abbrev refusal : Option CreationRejection → Failure
refusal none = policy precondition
refusal (some r) = creation_refused r

abbrev stored_result : Option Order → Work Order
stored_result none = fail (policy conflict)
stored_result (some o) = pure o

-- The switch on the phase: `current` is the locked order.
abbrev pub result_of : Order → CreationWorkflow → CreationPhase → Work Order
result_of current w creation_rejected = fail (refusal w.rejection)
result_of current w creation_opened = stored_result w.result
result_of current w reserve_pending = pure current
result_of current w abort_pending = pure current

-- The transaction of `resume`
unfoldable pub read_result : ℕ → Work Order
unfolding lock_order lock_creation
read_result id = do
  current ← or_integrity (lock_order id)
  w ← or_integrity (lock_creation id)
  result_of current w w.phase

-- The transaction of `findCreation`
unfoldable pub find : ℕ → ℕ → ℕ → Work (Option CreationReplay)
unfolding lock_idempotency_caller find_creation_key
find caller key now = do
  lock_idempotency_caller caller create_order
  find_creation_key caller key now

-- The row that `ItemImage` reads
abbrev owned_image : Tables → ℕ → ℕ → Option ItemImage
owned_image s owner id = elim (s.images id) [
  | none ↦ none
  | some item ↦ if item.owner_id == owner then some item else none
]

-- What the preflight leads to: an error that a concurrent admission overrules, another error, or the
-- snapshots and images of an admission.
pub data Preflight : Type 0 where
  overruled stops : Failure → Preflight
  ready : LocationSnapshot → LocationSnapshot → List ItemImage → Preflight

abbrev prepared : LocationSnapshot → LocationSnapshot → Result Failure (List ItemImage) → Preflight
prepared pickup delivery (err e) = overruled e
prepared pickup delivery (ok items) = ready pickup delivery items

-- The images of the request
abbrev with_images :
    Option (Option (ℕ → Inspection))
    → Caller
    → List ℕ
    → Tables
    → LocationSnapshot
    → LocationSnapshot
    → Preflight
with_images images c [] s pickup delivery = ready pickup delivery []
with_images none c (id ∷ ids) s pickup delivery = stops unavailable
with_images (some storage) c (id ∷ ids) s pickup delivery =
    prepared pickup delivery (prepare c (owned_image s c.id) storage (id ∷ ids))

-- What the two locations answered, the pickup first
abbrev with_locations :
    CreateInput
    → (LocationSnapshot → LocationSnapshot → Preflight)
    → Result Failure SelectableLocation
    → Result Failure SelectableLocation
    → Preflight
with_locations i go (err e) delivery = overruled e
with_locations i go (ok pickup) (err e) = overruled e
with_locations i go (ok pickup) (ok delivery) =
    if pickup.archived || delivery.archived
    then overruled (policy precondition)
    else if not (pickup.snapshot.location_id == i.pickup_id)
        || not (delivery.snapshot.location_id == i.delivery_id)
    then stops unavailable
    else go pickup.snapshot delivery.snapshot

abbrev with_supplier :
    {C : Type 0}
    → Creator C
    → Caller
    → CreateInput
    → ℕ
    → Tables
    → Option (ℕ → Result Failure SelectableLocation)
    → Preflight
with_supplier k c i now s none = stops unavailable
with_supplier k c i now s (some locate) =
    if not k.enabled || not (is_some k.credit)
    then stops unavailable
    else if leb i.expires_at now
    then overruled (policy invalid)
    else with_locations i (with_images k.images c i.image_ids s) (locate i.pickup_id)
        (locate i.delivery_id)

-- From the test of the configuration to the images
unfoldable pub preflight : {C : Type 0} → Creator C → Caller → CreateInput → ℕ → Tables → Preflight
unfolding prepare
preflight k c i now s = with_supplier k c i now s k.locations

-- What a call returned, with the state it left; `none` where the fuel of `process` ended.
abbrev pub Reply : Type 0 → Type 0
Reply C = Option (Result Failure Order) × (Tables × C)

module _ {C : Type 0} (k : Creator C) (x : Texts) (texts : InputTexts)
    (message : CreationRejection → ℕ) (v : Visit) where
  abbrev pub answer : Result Failure Order × Tables → C → Reply C
  answer (r, s) c = (some r, (s, c))

  -- The second part of `resume`
  abbrev pub read : ℕ → Tables × C → Reply C
  read id (s, c) = answer (within v.read_commit (read_result id) s) c

  abbrev pub read_after : ℕ → Answer C → Reply C
  read_after id (none, w) = (none, w)
  read_after id (some (err e), w) = (some (err (creation_replay_error e)), w)
  read_after id (some (ok u), w) = read id w

  abbrev pub processed : CreationWorkflow → Tables × C → Option (CreationCredit C) → Reply C
  processed w world none = read w.order_id world
  processed w world (some credit) =
      if is_resolved_phase w.phase
      then read w.order_id world
      else read_after w.order_id (process credit x message 2 v.turns w.order_id world)

  abbrev pub resume_unless : CreationWorkflow → Tables × C → Option Failure → Reply C
  resume_unless w world (some e) = (some (err e), world)
  resume_unless w world none = processed w world k.credit

  -- `resume`
  unfoldable pub resume : CreationReplay → ℕ → Tables × C → Reply C
  unfolding check_request_hash read_result within process
  resume replay hash world =
      resume_unless replay.workflow world (check_request_hash replay.key hash)

  abbrev pub resume_found :
      ℕ → Failure → C → Result Failure (Option CreationReplay) × Tables → Reply C
  resume_found hash cause c (err e, s) = (some (err e), (s, c))
  resume_found hash cause c (ok none, s) = (some (err cause), (s, c))
  resume_found hash cause c (ok (some replay), s) = resume replay hash (s, c)

  -- `recheckCreation`
  unfoldable pub recheck : ℕ → ℕ → ℕ → Failure → Tables × C → Reply C
  unfolding find within resume
  recheck caller key hash cause (s, c) =
      resume_found hash cause c (within v.recheck_commit (find caller key v.rechecked_at) s)

  abbrev pub resume_admitted : ℕ → C → Result Failure CreationReplay × Tables → Reply C
  resume_admitted hash c (err e, s) = (some (err e), (s, c))
  resume_admitted hash c (ok replay, s) = resume replay hash (s, c)

  abbrev pub after_preflight : ℕ → CreateInput → ℕ → ℕ → Tables × C → Preflight → Reply C
  after_preflight caller i canonical hash world (stops e) = (some (err e), world)
  after_preflight caller i canonical hash world (overruled e) = recheck caller i.key hash e world
  after_preflight caller i canonical hash (s, c) (ready pickup delivery items) =
      let request : Request = record {
        caller = caller;
        input = i;
        canonical = canonical;
        hash = hash;
        pickup = pickup;
        delivery = delivery;
        images = items;
        now = v.admitted_at;
        order_id = v.order_id;
        workflow_id = v.workflow_id;
      } in
      resume_admitted hash c (within v.admit_commit (admit x request) s)

  -- `Create` where no creation was found
  unfoldable pub create_new : Caller → CreateInput → ℕ → ℕ → Tables × C → Reply C
  unfolding preflight recheck resume admit within
  create_new c i canonical hash (s, d) =
      after_preflight c.id i canonical hash (v.others s, d) (preflight k c i v.checked_at s)

  abbrev pub create_unless :
      Caller → CreateInput → ℕ → ℕ → C → Result Failure (Option CreationReplay) × Tables → Reply C
  create_unless c i canonical hash d (err e, s) = (some (err e), (s, d))
  create_unless c i canonical hash d (ok none, s) = create_new c i canonical hash (s, d)
  create_unless c i canonical hash d (ok (some replay), s) = resume replay hash (s, d)

  -- `Create` after the caller's and the input's checks
  unfoldable pub create_checked :
      Caller → Result OrderError (CreateInput × (ℕ × ℕ)) → Tables × C → Reply C
  unfolding find within resume create_new
  create_checked c (err e) world = (some (err (policy e)), world)
  create_checked c (ok (i, (canonical, hash))) (s, d) =
      create_unless c i canonical hash d (within v.find_commit (find c.id i.key v.found_at) s)

  abbrev pub with_caller : Caller → CreateInput → Tables × C → Option ℕ → Reply C
  with_caller c i world none = (some (err (policy forbidden)), world)
  with_caller c i world (some id) =
      create_checked (record c { id = id }) (canonical_creation texts i) world

  -- `Create`
  unfoldable pub create_call : Caller → CreateInput → Tables × C → Reply C
  unfolding canonical_creation create_checked
  create_call c i world =
      if (c.id == 0) || c.suspended
      then (some (err (policy forbidden)), world)
      else with_caller c i world (texts.parse_id c.id)
