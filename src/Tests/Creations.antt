-- ===== src/Tests/Creations.antt =====
-- The creation of an order, admitted, claimed and opened on an empty database, and the theorems on
-- creations at that input.
use fo_c.Base.{arith, ℕ, suc, ⊤, ◌≤◌, ◌+◌, ◌*◌, ◌≡◌, refl, true, false, none, some, [], Result, ok}
use fo_c.Base.Int.{pos, ◌+ℤ◌}
use fo_c.Base.Dict.{lookup}
use fo_c.Order.Types.{Order, Texts}
use fo_c.Order.Workflow.{
  reservation_held, ReservationView, CreationWorkflow, no_error, CreationRejection, Failure,
}
use fo_c.Order.Store.{Tables, within, lock_order, relationships}
use fo_c.Order.Creation.{
  Observation, claim, settle, claimed_version, opened_order, second, claim_locked, claim_of,
  verdict, is_matching_hold, is_released, verdict_change, creation_retry_delay,
}
use fo_c.Order.Creation.Admission.{
  Request, admit, workflow_of, order_of, admit_new, write_admission, write_workflow,
}
use fo_c.Order.Creation.Run.{
  Run, done, next, admit_step, claim_step, settle_step, empty, run-fits, run-Follows,
}
use fo_c.Order.Changes.{are_fields_valid}
use fo_c.Order.Facts.{new_change, lifecycle_error, transition_error, metadata_error}
use fo_c.Order.Store.Apply.{
  apply, baseline, write_change, write_order, insert_order, update_order, order_check, write_offers,
  write_audit, write_facts, insert_fact,
}
use fo_c.Order.Store.Creations.{
  find_creation_key, check_stored, count_recent_creations, insert_creation, insert_workflow,
  creation_check, try_lock_creation_order, lock_creation, save_creation, may_follow,
  update_workflow, creation_by_id,
}
use fo_c.Order.Store.History.{write_history}
use fo_c.Order.Store.Images.{attach_creation_images, attach_images}
use fo_c.Order.Store.Keys.{lock_idempotency_caller, find_idempotency_key, insert_idempotency_key}
use fo_c.Order.Store.Validate.{validate_change, are_expected, eqb_payload}
use fo_c.Order.Transitions.{transition, is_repeat, may, others_may, is_action_allowed}
use fo_c.Order.Creation.Fits.{fits}
use fo_c.Order.Creation.Follows.{Follows}
use fo_c.Order.Creation.Confirmed.{settle-Confirmed, Confirmed}
use fo_c.Order.Creation.Backoff.{creation_retry_delay-scheduled}
use fo_c.Order.Creation.Fencing.{other_generation, settle-superseded, settle-fenced}
use fo_c.Order.Creation.Process.{CreationCredit, accepted, unknown, Turn, process}
use fo_c.Order.Creation.Rounds.Ends.{process-terminates}
use fo_c.Tests.Orders.{texts, place}

-- The ids that the n-th transaction draws.
abbrev pub texts_at : ℕ → Texts
texts_at n = record texts { new_id = λ k. k + 100 * n }

abbrev pub message : CreationRejection → ℕ
message r = 90

abbrev pub request : Request
request = record {
  caller = 1;
  input = record {
    key = 7;
    pickup_id = 11;
    delivery_id = 12;
    instructions = none;
    item_description = 13;
    image_ids = [];
    reward_credits = pos 40;
    delivery_duration = pos (600 * second);
    expires_at = 3600 * second;
  };
  canonical = 14;
  hash = 15;
  pickup = place 11;
  delivery = place 12;
  images = [];
  now = 1000;
  order_id = 5;
  workflow_id = 6;
}

abbrev pub admitted : Tables
admitted = (within none (admit (texts_at 1) request) empty).1

abbrev pub claimed_tables : Tables
claimed_tables = (within none (claim false 5 2000) admitted).1

abbrev pub claimed : CreationWorkflow
claimed = claimed_version 2000 (workflow_of request)

abbrev hold : ReservationView
hold = record {
  order_id = 5;
  requester_id = 1;
  state = reservation_held;
  original_amount = pos 40;
  reserved_amount = pos 40;
}

abbrev pub seen : Observation
seen = record { view = some hold; refused = false; diagnostic = no_error }

abbrev pub opened_tables : Tables
opened_tables = (within none (settle (texts_at 2) message 5 3000 0 claimed seen) claimed_tables).1

abbrev pub opened : Order
opened = opened_order 3000 (pos 40) (order_of request)

reaches_admitted : Run empty admitted
reaches_admitted = next (admit_step (texts_at 1) request none) done

pub reaches_claimed : Run empty claimed_tables
reaches_claimed =
    next (admit_step (texts_at 1) request none) (next (claim_step false 5 2000 none) done)

pub stores_claim : claimed_tables.creations 5 ≡ some claimed
unfolding within lock_order relationships lock_idempotency_caller find_creation_key
    find_idempotency_key check_stored admit_new count_recent_creations write_admission new_change
    lifecycle_error transition_error metadata_error transition is_repeat may others_may
    is_action_allowed are_fields_valid apply baseline validate_change are_expected eqb_payload
    write_change write_order insert_order update_order order_check write_history write_offers
    write_audit write_facts insert_fact write_workflow attach_creation_images attach_images
    insert_creation insert_workflow insert_idempotency_key creation_check admit claim
    try_lock_creation_order claim_locked lock_creation claim_of save_creation may_follow
    update_workflow creation_by_id settle verdict is_matching_hold is_released verdict_change
    creation_retry_delay ◌+ℤ◌
stores_claim = refl

pub awaits : lookup 5 claimed_tables.orders ≡ some (order_of request)
unfolding within lock_order relationships lock_idempotency_caller find_creation_key
    find_idempotency_key check_stored admit_new count_recent_creations write_admission new_change
    lifecycle_error transition_error metadata_error transition is_repeat may others_may
    is_action_allowed are_fields_valid apply baseline validate_change are_expected eqb_payload
    write_change write_order insert_order update_order order_check write_history write_offers
    write_audit write_facts insert_fact write_workflow attach_creation_images attach_images
    insert_creation insert_workflow insert_idempotency_key creation_check admit claim
    try_lock_creation_order claim_locked lock_creation claim_of save_creation may_follow
    update_workflow creation_by_id settle verdict is_matching_hold is_released verdict_change
    creation_retry_delay ◌+ℤ◌
awaits = refl

opens :
    within none (settle (texts_at 2) message 5 3000 0 claimed seen) claimed_tables
    ≡ (ok false, opened_tables)
unfolding within lock_order relationships lock_idempotency_caller find_creation_key
    find_idempotency_key check_stored admit_new count_recent_creations write_admission new_change
    lifecycle_error transition_error metadata_error transition is_repeat may others_may
    is_action_allowed are_fields_valid apply baseline validate_change are_expected eqb_payload
    write_change write_order insert_order update_order order_check write_history write_offers
    write_audit write_facts insert_fact write_workflow attach_creation_images attach_images
    insert_creation insert_workflow insert_idempotency_key creation_check admit claim
    try_lock_creation_order claim_locked lock_creation claim_of save_creation may_follow
    update_workflow creation_by_id settle verdict is_matching_hold is_released verdict_change
    creation_retry_delay ◌+ℤ◌
opens = refl

stores_opened : lookup 5 opened_tables.orders ≡ some opened
unfolding within lock_order relationships lock_idempotency_caller find_creation_key
    find_idempotency_key check_stored admit_new count_recent_creations write_admission new_change
    lifecycle_error transition_error metadata_error transition is_repeat may others_may
    is_action_allowed are_fields_valid apply baseline validate_change are_expected eqb_payload
    write_change write_order insert_order update_order order_check write_history write_offers
    write_audit write_facts insert_fact write_workflow attach_creation_images attach_images
    insert_creation insert_workflow insert_idempotency_key creation_check admit claim
    try_lock_creation_order claim_locked lock_creation claim_of save_creation may_follow
    update_workflow creation_by_id settle verdict is_matching_hold is_released verdict_change
    creation_retry_delay ◌+ℤ◌
stores_opened = refl

run-fits_example :
    (claimed.order_id ≡ 5)
    × ((o : Order) × (lookup 5 claimed_tables.orders ≡ some o)
        × (fits claimed.phase o.status ≡ true))
run-fits_example = run-fits claimed_tables reaches_claimed 5 claimed stores_claim

run-Follows_example :
    (w : CreationWorkflow) × (opened_tables.creations 5 ≡ some w) × Follows claimed w
run-Follows_example =
    run-Follows claimed_tables opened_tables reaches_claimed
      (next (settle_step (texts_at 2) message 5 3000 0 claimed seen none) done) 5 claimed
      stores_claim

creation_retry_delay-scheduled_example :
    (4 * second ≤ creation_retry_delay 3 900000000)
    × (creation_retry_delay 3 900000000 ≤ 8 * second)
creation_retry_delay-scheduled_example = creation_retry_delay-scheduled 2 900000000 (omega arith)

settle-superseded_example :
    (within none (settle (texts_at 2) message 5 3000 0 (workflow_of request) seen) claimed_tables).1
    ≡ claimed_tables
settle-superseded_example =
    settle-superseded (texts_at 2) message claimed_tables reaches_claimed 5 3000 0
      (workflow_of request) claimed seen none stores_claim
      (other_generation (λ e. ground (arith, e)))

settle-fenced_example :
    (within none (settle (texts_at 2) message 5 3000 0 (workflow_of request) seen) opened_tables).1
    ≡ opened_tables
settle-fenced_example =
    settle-fenced (texts_at 2) message claimed_tables opened_tables reaches_claimed
      (next (settle_step (texts_at 2) message 5 3000 0 claimed seen none) done) 5 3000 0
      (workflow_of request) claimed seen none stores_claim (omega arith)

settle-Confirmed_example : Confirmed 3000 seen claimed opened
settle-Confirmed_example =
    settle-Confirmed (texts_at 2) message claimed_tables opened_tables reaches_claimed 5 3000 0
      claimed claimed seen none false opens (order_of request) opened stores_claim awaits refl
      stores_opened refl

-- A Credit that holds whatever it is asked to.
abbrev pub granting : CreationCredit ⊤
granting = record {
  reserve = λ i c. (accepted, c);
  release_expired = λ id c. (unknown, c);
  get_reservation = λ id c. some hold;
}

abbrev pub turns : ℕ → Turn
turns n = record {
  contended = false;
  claimed_at = 2000 + n;
  settled_at = 3000 + n;
  jitter = 0;
  claim_commit = none;
  settle_commit = none;
}

process-terminates_example :
    (r : Result Failure ⊤) × (w : Tables × ⊤) × ((n : ℕ)
      → process granting (texts_at 2) message (suc (suc n)) turns 5 (admitted, tt) ≡ (some r, w))
    × Run admitted w.0
process-terminates_example =
    process-terminates granting (texts_at 2) message turns 5 admitted tt reaches_admitted
