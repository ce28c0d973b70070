-- ===== src/Tests/Creates.antt =====
-- Calls of `Create`, and the theorems on them at that input.
use fo_c.Base.{⊤, ◌≡◌, refl, false, none, some, ok}
use fo_c.Order.Types.{Caller}
use fo_c.Order.Workflow.{creation_opened, IdempotencyKey, CreationWorkflow, creation_key}
use fo_c.Order.Creation.{
  claim, settle, claim_locked, claim_of, verdict, is_matching_hold, is_released, verdict_change,
  creation_retry_delay,
}
use fo_c.Order.Store.{within, lock_order, relationships}
use fo_c.Base.Int.{◌+ℤ◌}
use fo_c.Order.Changes.{are_fields_valid}
use fo_c.Order.Facts.{new_change, lifecycle_error, transition_error, metadata_error}
use fo_c.Order.Store.Apply.{
  apply, baseline, write_change, write_order, insert_order, update_order, order_check, write_offers,
  write_audit, write_facts, insert_fact,
}
use fo_c.Order.Store.Creations.{
  find_creation_key, check_stored, count_recent_creations, insert_creation, insert_workflow,
  creation_check, try_lock_creation_order, lock_creation, save_creation, may_follow,
  update_workflow, creation_by_id,
}
use fo_c.Order.Store.History.{write_history}
use fo_c.Order.Store.Images.{attach_creation_images, attach_images}
use fo_c.Order.Store.Keys.{lock_idempotency_caller, find_idempotency_key, insert_idempotency_key}
use fo_c.Order.Store.Validate.{validate_change, are_expected, eqb_payload}
use fo_c.Order.Transitions.{transition, is_repeat, may, others_may, is_action_allowed}
use fo_c.Order.Creation.Admission.{
  InputTexts, canonical_creation, admit, workflow_of, admit_new, write_admission, write_workflow,
}
use fo_c.Order.Creation.Run.{Run, done, next, settle_step, run_trans, empty}
use fo_c.Order.Creation.Create.{Creator, Visit, create_call}
use fo_c.Order.Creation.Create.Retries.{IsRetained, retried, create_call-Retried}
use fo_c.Tests.Creations.{
  texts_at, message, request, claimed, seen, opened_tables, opened, turns, reaches_claimed,
}

abbrev input_texts : InputTexts
input_texts = record {
  parse_id = λ id. some id;
  trim = λ text. text;
  rune_count = λ text. 5;
  year = λ time. 2026;
  encode = λ i. 14;
  digest = λ text. 15;
}

-- A service that no longer admits orders.
abbrev closed : Creator ⊤
closed = record { locations = none; credit = none; images = none; enabled = false }

abbrev caller : Caller
caller = record { id = 1; is_admin = false; suspended = false }

abbrev visit : Visit
visit = record {
  found_at = 1000;
  checked_at = 1000;
  rechecked_at = 1000;
  admitted_at = 1000;
  order_id = 5;
  workflow_id = 6;
  turns = turns;
  others = λ s. s;
  find_commit = none;
  recheck_commit = none;
  admit_commit = none;
  read_commit = none;
}

abbrev stored_key : IdempotencyKey
stored_key = creation_key (workflow_of request) 7

abbrev stored_workflow : CreationWorkflow
stored_workflow = elim (opened_tables.creations 5) [ none ↦ claimed | some w ↦ w ]

reaches_opened : Run empty opened_tables
reaches_opened =
    run_trans reaches_claimed
      (next (settle_step (texts_at 2) message 5 3000 0 claimed seen none) done)

is_retained :
    IsRetained opened_tables 1 7 1000 stored_key stored_workflow
    × (stored_workflow.phase ≡ creation_opened)
    × (stored_workflow.result ≡ some opened)
unfolding within lock_order relationships lock_idempotency_caller find_creation_key
    find_idempotency_key check_stored admit_new count_recent_creations write_admission new_change
    lifecycle_error transition_error metadata_error transition is_repeat may others_may
    is_action_allowed are_fields_valid apply baseline validate_change are_expected eqb_payload
    write_change write_order insert_order update_order order_check write_history write_offers
    write_audit write_facts insert_fact write_workflow attach_creation_images attach_images
    insert_creation insert_workflow insert_idempotency_key creation_check admit claim
    try_lock_creation_order claim_locked lock_creation claim_of save_creation may_follow
    update_workflow creation_by_id settle verdict is_matching_hold is_released verdict_change
    creation_retry_delay ◌+ℤ◌
is_retained = (
  record { found = refl; leads = refl; same_caller = refl; same_hash = refl; is_kept = refl },
  refl,
  refl,
)

accepts : canonical_creation input_texts request.input ≡ ok (request.input, (14, 15))
unfolding canonical_creation
accepts = refl

create_call-Retried_example :
    create_call closed
      (texts_at 3)
      input_texts
      message
      visit
      caller
      request.input
      (opened_tables, tt)
    ≡ (some (retried stored_key 15 opened), (opened_tables, tt))
create_call-Retried_example =
    create_call-Retried closed (texts_at 3) input_texts message visit opened_tables tt
      reaches_opened caller request.input request.input 1 14 15 refl refl accepts stored_key
      stored_workflow opened is_retained.0 is_retained.1 is_retained.2 refl refl
