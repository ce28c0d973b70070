-- ===== src/Order/Store/Creations.antt =====
-- order-service/internal/order/postgrescreation.go: the creation workflows and the keys that find them.
use fo_c.Base.{
  ℕ, suc, Bool, false, not, ◌&&◌, ◌||◌, Option, none, some, [], ◌∷◌, ⊤, ok, err, ltb, leb, ◌==◌,
  is_some, if◌then◌else◌,
}
use fo_c.Base.Int.{pos, ltb_ℤ, eqb_ℤ}
use fo_c.Base.Dict.{Dict, lookup}
use fo_c.Base.Transaction.{pure, fail, ◌>>=◌, ◌>>◌}
use fo_c.Order.Types.{Order, not_found, precondition, conflict}
use fo_c.Order.Offers.{create_order}
use fo_c.Order.Workflow.{
  policy, integrity, database, reserve_pending, abort_pending, creation_opened, creation_rejected,
  eqb_phase, is_resolved_phase, CreationWorkflow, IdempotencyKey, CreationReplay, creation_key,
}
use fo_c.Order.Store.{Tables, Tx, Work, lock_order}
use fo_c.Order.Store.Keys.{find_idempotency_key, insert_idempotency_key, delete_idempotency_key}

-- `GetCreationWorkflowByID`
unfoldable pub creation_by_id : ℕ → Tables → Option CreationWorkflow
creation_by_id id s = elim (s.creation_orders id) [ none ↦ none | some order ↦ s.creations order ]

-- What `FindCreationKey` does with a stored key and its workflow.
unfoldable pub check_creation_key :
    ℕ → IdempotencyKey → Option CreationWorkflow → Work (Option CreationReplay)
unfolding delete_idempotency_key
check_creation_key now stored none = fail integrity
check_creation_key now stored (some w) =
    if not (w.requester_id == stored.caller_id) || not (w.hash == stored.request_hash)
    then fail integrity
    else if is_resolved_phase w.phase && leb stored.expires_at now
    then (do delete_idempotency_key stored.caller_id stored.method stored.key; pure none)
    else pure (some (record { key = stored; workflow = w }))

unfoldable pub check_stored : ℕ → Option IdempotencyKey → Work (Option CreationReplay)
unfolding check_creation_key creation_by_id
check_stored now none t = ok (none, t)
check_stored now (some stored) t =
    check_creation_key now stored (creation_by_id stored.resource_id t.tables) t

-- `FindCreationKey`
unfoldable pub find_creation_key : ℕ → ℕ → ℕ → Work (Option CreationReplay)
unfolding find_idempotency_key check_stored
find_creation_key caller key now = do
  stored ← find_idempotency_key caller create_order key
  check_stored now stored

abbrev is_recent : ℕ → ℕ → Order → Bool
is_recent caller since o = (o.requester_id == caller) && ltb since o.created_at

abbrev pub recent_orders : ℕ → ℕ → Dict Order → ℕ
recent_orders caller since [] = 0
recent_orders caller since ((id, o) ∷ d) =
    let rest = recent_orders caller since d in if is_recent caller since o then suc rest else rest

-- `CountRecentCreations`
unfoldable pub count_recent_creations : ℕ → ℕ → Work ℕ
count_recent_creations caller since t =
    if not (t.callers caller create_order)
    then err (policy precondition)
    else ok (recent_orders caller since t.tables.orders, t)

-- The CHECKs of order_creation_workflows
unfoldable pub creation_check : CreationWorkflow → Bool
creation_check w =
    ltb_ℤ (pos 0) w.amount
    && (if eqb_phase w.phase creation_opened then is_some w.result else not (is_some w.result))
    && (if eqb_phase w.phase creation_rejected
        then is_some w.rejection
        else not (is_some w.rejection))

abbrev pub store_creation : CreationWorkflow → Tx → Tx
store_creation w t = record t {
  tables = record t.tables {
    creations = λ order. if order == w.order_id then some w else t.tables.creations order;
    creation_orders = λ id. if id == w.id then some w.order_id else t.tables.creation_orders id;
  };
}

-- `InsertCreationWorkflow`
unfoldable pub insert_workflow : CreationWorkflow → Work ⊤
unfolding creation_check
insert_workflow w t =
    if not (creation_check w)
    then err database
    else if is_some (t.tables.creation_orders w.id) || is_some (t.tables.creations w.order_id)
    then err (policy conflict)
    else if not (is_some (lookup w.order_id t.tables.orders))
    then err database
    else ok (tt, store_creation w t)

-- The test at the head of `InsertCreation`
abbrev may_insert : CreationWorkflow → Tx → Bool
may_insert w t =
    t.callers w.requester_id create_order
    && t.applied w.order_id
    && eqb_phase w.phase reserve_pending

-- `InsertCreation`
unfoldable pub insert_creation : CreationWorkflow → ℕ → Work ⊤
unfolding insert_workflow insert_idempotency_key
insert_creation w key t =
    if not (may_insert w t)
    then err (policy precondition)
    else (insert_workflow w >> insert_idempotency_key (creation_key w key)) t

-- `TryLockCreationOrder`. `contended` tells that another transaction holds the row, which
-- `SKIP LOCKED` passes over.
unfoldable pub try_lock_creation_order : Bool → ℕ → Work Order
unfolding lock_order
try_lock_creation_order contended id = if contended then fail (policy not_found) else lock_order id

abbrev pub remember : CreationWorkflow → Tx → Tx
remember w t = record t {
  creation_baselines = λ id. if id == w.id then some w else t.creation_baselines id;
}

-- `LockCreation`
unfoldable pub lock_creation : ℕ → Work CreationWorkflow
lock_creation order t =
    if not (is_some (t.locked order))
    then err (policy precondition)
    else elim (t.tables.creations order) [
      | none ↦ err (policy not_found)
      | some w ↦ ok (w, remember w t)
    ]

-- The first test of `SaveCreation`: whether `w` may follow the locked workflow.
unfoldable pub may_follow : CreationWorkflow → CreationWorkflow → ℕ → Bool
may_follow before w expected =
    not (is_resolved_phase before.phase)
    && (before.generation == expected)
    && (w.order_id == before.order_id)
    && (w.requester_id == before.requester_id)
    && (w.hash == before.hash)
    && (w.canonical == before.canonical)
    && eqb_ℤ w.amount before.amount
    && (w.expires_at == before.expires_at)
    && (w.created_at == before.created_at)
    && leb expected w.generation
    && leb w.generation (suc expected)
    && (not (eqb_phase before.phase abort_pending)
        || eqb_phase w.phase abort_pending
        || eqb_phase w.phase creation_rejected)

-- The columns that `UpdateCreationWorkflow` names.
abbrev pub progressed : CreationWorkflow → CreationWorkflow → CreationWorkflow
progressed row w = record row {
  phase = w.phase;
  generation = w.generation;
  attempts = w.attempts;
  lease_until = w.lease_until;
  next_attempt_at = w.next_attempt_at;
  last_error = w.last_error;
  rejection = w.rejection;
  result = w.result;
  updated_at = w.updated_at;
}

-- `UpdateCreationWorkflow`
unfoldable pub update_workflow : CreationWorkflow → ℕ → Work ⊤
unfolding creation_check creation_by_id
update_workflow w expected t = elim (creation_by_id w.id t.tables) [
  | none ↦ err (policy conflict)
  | some row ↦
      if not (row.generation == expected)
      then err (policy conflict)
      else if creation_check (progressed row w)
      then ok (tt, store_creation (progressed row w) t)
      else err database
]

abbrev pub follows_baseline : Option CreationWorkflow → CreationWorkflow → ℕ → Bool
follows_baseline none w expected = false
follows_baseline (some before) w expected = may_follow before w expected

-- `SaveCreation`
unfoldable pub save_creation : CreationWorkflow → ℕ → Work ⊤
unfolding may_follow update_workflow
save_creation w expected t =
    if not (follows_baseline (t.creation_baselines w.id) w expected)
    then err (policy conflict)
    else if is_resolved_phase w.phase && not (t.applied w.order_id)
    then err (policy precondition)
    else update_workflow w expected t
