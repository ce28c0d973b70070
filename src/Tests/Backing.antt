-- ===== src/Tests/Backing.antt =====
-- A creation that is settled over the credit service, and the theorem on it at that input.
use Prim.Native.String.{String}
use fo_c.Base.{ℕ, ◌≡◌, refl, false, some, ok, ◌==◌, if◌then◌else◌, Result, Bool, ap}
use fo_c.Base.Int.{◌+ℤ◌, ◌-ℤ◌, neg}
use fo_c.Base.Dict.{lookup}
use fo_c.Order.Workflow.{Failure}
use fo_c.Order.Store.{Tables, within, lock_order, relationships}
use fo_c.Order.Creation.{
  claim, settle, claim_locked, claim_of, verdict, is_matching_hold, is_released, verdict_change,
  creation_retry_delay,
}
use fo_c.Order.Creation.Process.{finish, observe, observation_of}
use fo_c.Order.Changes.{are_fields_valid}
use fo_c.Order.Facts.{new_change, lifecycle_error, transition_error, metadata_error}
use fo_c.Order.Store.Apply.{
  apply, baseline, write_change, write_order, insert_order, update_order, order_check, write_offers,
  write_audit, write_facts, insert_fact,
}
use fo_c.Order.Store.Creations.{
  find_creation_key, check_stored, count_recent_creations, insert_creation, insert_workflow,
  creation_check, try_lock_creation_order, lock_creation, save_creation, may_follow,
  update_workflow, creation_by_id,
}
use fo_c.Order.Store.History.{write_history}
use fo_c.Order.Store.Images.{attach_creation_images, attach_images}
use fo_c.Order.Store.Keys.{lock_idempotency_caller, find_idempotency_key, insert_idempotency_key}
use fo_c.Order.Store.Validate.{validate_change, are_expected, eqb_payload}
use fo_c.Order.Transitions.{transition, is_repeat, may, others_may, is_action_allowed}
use fo_c.Credit.Store.{
  Store, open_account, post_entry, lock_accounts, insert_reservation, update_reservation, post,
  save_operation, open_all, within as credit_within,
}
use fo_c.Credit.Service.{mutate, mutate_tx, first_call, with_adjustment, get_reservation_tx}
use fo_c.Credit.Operations.{reserve, reserve_tx, reserve_new}
use fo_c.Credit.System.{handle, open_user, run, empty}
use fo_c.Order.Clients.{reserve_reply, view_reply, release_reply, credit_client}
use fo_c.Order.Clients.Rows.{Backs}
use fo_c.Order.Clients.Backed.{finish-Backs}
use fo_c.Order.Creation.Admission.{admit, order_of, admit_new, write_admission, write_workflow}
use fo_c.Tests.{library, env, two_users, hash}
use fo_c.Tests.Creations.{
  texts_at, message, request, claimed, claimed_tables, opened, turns, reaches_claimed, stores_claim,
  awaits,
}

-- A text's id is its length.
abbrev text : ℕ → String
text id = if id == 5 then "order" else "a"

abbrev result : Result Failure Bool × (Tables × (ℕ × Store))
result =
    finish (credit_client library (λ n. env) text) (texts_at 2) message (turns 0) 5 claimed
      claimed_tables
      (observe (credit_client library (λ n. env) text) (texts_at 2) message claimed (0, two_users))

finishes : (result.0 ≡ ok false) × (lookup 5 result.1.0.orders ≡ some opened)
unfolding within lock_order relationships lock_idempotency_caller find_creation_key
    find_idempotency_key check_stored admit_new count_recent_creations write_admission new_change
    lifecycle_error transition_error metadata_error transition is_repeat may others_may
    is_action_allowed are_fields_valid apply baseline validate_change are_expected eqb_payload
    write_change write_order insert_order update_order order_check write_history write_offers
    write_audit write_facts insert_fact write_workflow attach_creation_images attach_images
    insert_creation insert_workflow insert_idempotency_key creation_check admit claim
    try_lock_creation_order claim_locked lock_creation claim_of save_creation may_follow
    update_workflow creation_by_id settle verdict is_matching_hold is_released verdict_change
    creation_retry_delay ◌+ℤ◌ run handle open_user open_account post_entry reserve mutate mutate_tx
    first_call save_operation with_adjustment reserve_tx reserve_new lock_accounts open_all
    insert_reservation update_reservation post ◌-ℤ◌ neg hash observe observation_of reserve_reply
    view_reply release_reply credit_client get_reservation_tx credit_within empty
finishes = (refl, refl)

finish-Backs_example : Backs result.1.1.1 claimed
finish-Backs_example =
    finish-Backs library (λ n. env) text (texts_at 2) message (turns 0) claimed_tables result.1.0
      reaches_claimed 5 claimed claimed (0, two_users) result.1.1 false refl
      (ap (λ r. (r, result.1)) finishes.0) (order_of request) opened stores_claim awaits refl
      finishes.1 refl
