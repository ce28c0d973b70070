-- ===== src/Tests.antt =====
-- A history of the credit service and a delivery of the order service, evaluated, and each theorem
-- with conditions at a concrete input.
mod Orders
mod Creations
mod Creates
mod Backing
use Prim.Native.String.{String, len}
use fo_c.Base.{
  ℕ, ◌+◌, ◌*◌, ◌≡◌, ◌⊎◌, refl, Bool, true, false, Option, none, some, List, [], ◌∷◌, ◌++◌, ◌==◌,
  Result, ok, err, arith, length,
}
use fo_c.Base.Int.{ℤ, pos, pos_part, ◌≤ℤ◌, ◌+ℤ◌, ◌-ℤ◌, neg}
use fo_c.Base.Dict.{lookup}
use fo_c.Credit.Types.{
  Reservation, Account, Assignment, Payload, reserve_payload, adjust_payload, revert_payload,
  release_payload, reverted, Entry, ReleaseReason, cancelled_before_pickup, RawOutcome,
  OrderOutcome, order_completed, settled, held, assigned, op_reserve, outcome_completed, applied,
  OperationKey, MutationResult, idempotency_conflict, database,
}
use fo_c.Credit.Store.{
  succeeds, lost, Store, Action, post_entry, open_account, lock_accounts, insert_reservation,
  update_reservation, post, within, save_operation, insert_assignment, open_all, is_terminal,
}
use fo_c.Credit.Service.{Env, Library, mutate, mutate_tx, first_call, replay, with_adjustment}
use fo_c.Credit.Operations.{
  reserve, reserve_tx, reserve_new, adjust_reservation, adjust_tx, apply_offer,
}
use fo_c.Credit.Release.{revert_adjustment, revert_tx, revert_found}
use fo_c.Credit.Outcome.{apply_outcome, outcome_tx, apply_payout, settle, pay_out, validate}
use fo_c.Credit.Lateness.{lateness_payout, payable, wrap64, big_mul, big_quo, time_sub}
use fo_c.Credit.Ledger.{balance_of, reserved_of, balance_sum, reserved_sum, total_balance}
use fo_c.Credit.Invariant.{held_by}
use fo_c.Credit.System.{
  Command, reserves, adjusts, reverts, releases, outcomes, opens, open_user, handle, run, empty,
}
use fo_c.Credit.System.Safety.{
  run-solvent, run-booked, run-conserves, run-backed, run-splits, IsSplit, run-one_offer,
}
use fo_c.Credit.System.History.{run-terminal, run-recorded, run-append_only, run-reverted}
use fo_c.Credit.Redelivery.{apply_outcome-redelivered, was_applied}
use fo_c.Credit.Idempotency.{mutate-once, mutate-conflict, mutate-atomic, IsRecorded}
use fo_c.Credit.Lateness.Bounds.{share, payable-share, payable-antitone}

-- A text's id is its length.
unfoldable hash : Payload → ℕ
hash (reserve_payload user amount) = 4 * (user + pos_part amount)
hash (adjust_payload user amount) = 4 * (user + pos_part amount) + 1
hash revert_payload = 2
hash (release_payload reason) = 3

abbrev library : Library
library = record { parse_uuid = λ text. some (len text); request_hash = hash }

abbrev env : Env
env = record { now = 9; db_now = 10; commit = succeeds }

abbrev delivery : RawOutcome
delivery = record {
  order_text = "order";
  type = order_completed;
  requester_text = "a";
  courier_text = "bb";
  picked_up_at = 1000000;
  delivered_at = 2500000;
  delivery_duration = pos 1000000;
}

abbrev history : List (Env × Command)
history =
    (env, opens "a")
    ∷ (env, opens "bb")
    ∷ (env, reserves "order" "a" (pos 30))
    ∷ (env, adjusts "order" "offer-1" "bb" (pos 40))
    ∷ (env, outcomes delivery)
    ∷ []

abbrev fencing : List (Env × Command)
fencing =
    (env, opens "a") ∷ (env, reserves "order" "a" (pos 30)) ∷ (env, reverts "order" "offer-1") ∷ []

abbrev settled_store : Store
settled_store = run library lateness_payout history empty

-- The courier was 50% late: half of the 40 credits, and the rest goes back to the requester.
accounts_after :
    settled_store.accounts
    ≡ (1, record { balance = pos 80; reserved = pos 0 })
      ∷ (2, record { balance = pos 120; reserved = pos 0 })
      ∷ []
unfolding run handle empty open_user within open_account post_entry reserve mutate mutate_tx
    first_call save_operation with_adjustment reserve_tx reserve_new lock_accounts open_all
    insert_reservation update_reservation insert_assignment post adjust_reservation adjust_tx
    apply_offer apply_outcome validate outcome_tx apply_payout settle pay_out lateness_payout
    payable wrap64 big_mul big_quo time_sub ◌+ℤ◌ ◌-ℤ◌ neg hash
accounts_after = refl

abbrev settled_row : Reservation
settled_row = record {
  order_id = 5;
  requester_id = some 1;
  status = settled;
  original_amount = pos 30;
  reserved_amount = pos 0;
  assignment_id = some 7;
  adjustment = none;
  settlement = some (record {
    outcome = outcome_completed;
    paid_to_courier = pos 20;
    returned_to_requester = pos 20;
    settled_at = 9;
    release_reason = none;
    completion = some (record {
      picked_up_at = 1000000;
      delivered_at = 2500000;
      delivery_duration = pos 1000000;
    });
  });
  revision = 3;
  created_at = 9;
  updated_at = 10;
}

row_after : lookup 5 settled_store.reservations ≡ some settled_row
unfolding run handle empty open_user within open_account post_entry reserve mutate mutate_tx
    first_call save_operation with_adjustment reserve_tx reserve_new lock_accounts open_all
    insert_reservation update_reservation insert_assignment post adjust_reservation adjust_tx
    apply_offer apply_outcome validate outcome_tx apply_payout settle pay_out lateness_payout
    payable wrap64 big_mul big_quo time_sub ◌+ℤ◌ ◌-ℤ◌ neg hash
row_after = refl

abbrev held_row : Reservation
held_row = record {
  order_id = 5;
  requester_id = some 1;
  status = held;
  original_amount = pos 30;
  reserved_amount = pos 30;
  assignment_id = none;
  adjustment = none;
  settlement = none;
  revision = 1;
  created_at = 9;
  updated_at = 9;
}

first_revision : settled_store.revisions 5 1 ≡ some held_row
unfolding run handle empty open_user within open_account post_entry reserve mutate mutate_tx
    first_call save_operation with_adjustment reserve_tx reserve_new lock_accounts open_all
    insert_reservation update_reservation insert_assignment post adjust_reservation adjust_tx
    apply_offer apply_outcome validate outcome_tx apply_payout settle pay_out lateness_payout
    payable wrap64 big_mul big_quo time_sub ◌+ℤ◌ ◌-ℤ◌ neg hash
first_revision = refl

abbrev courier_offer : Assignment
courier_offer = record {
  order_id = 5;
  assignment_id = 7;
  courier_id = some 2;
  offer_amount = pos 40;
  status = applied;
  created_at = 9;
  reverted_at = none;
}

offer_after : settled_store.assignments 5 7 ≡ some courier_offer
unfolding run handle empty open_user within open_account post_entry reserve mutate mutate_tx
    first_call save_operation with_adjustment reserve_tx reserve_new lock_accounts open_all
    insert_reservation update_reservation insert_assignment post adjust_reservation adjust_tx
    apply_offer apply_outcome validate outcome_tx apply_payout settle pay_out lateness_payout
    payable wrap64 big_mul big_quo time_sub ◌+ℤ◌ ◌-ℤ◌ neg hash
offer_after = refl

abbrev fenced_store : Store
fenced_store = run library lateness_payout fencing empty

abbrev fence : Assignment
fence = record {
  order_id = 5;
  assignment_id = 7;
  courier_id = none;
  offer_amount = pos 0;
  status = reverted;
  created_at = 9;
  reverted_at = some 9;
}

-- A reversal that comes before its offer leaves a tombstone.
fence_after : fenced_store.assignments 5 7 ≡ some fence
unfolding run handle empty open_user within open_account post_entry reserve mutate mutate_tx
    first_call save_operation with_adjustment reserve_tx reserve_new lock_accounts open_all
    insert_reservation update_reservation insert_assignment post adjust_reservation adjust_tx
    apply_offer apply_outcome validate outcome_tx apply_payout settle pay_out lateness_payout
    payable wrap64 big_mul big_quo time_sub ◌+ℤ◌ ◌-ℤ◌ neg hash revert_adjustment revert_tx
    revert_found
fence_after = refl

run-conserves_example :
    total_balance settled_store.accounts ≡ pos (100 * length settled_store.accounts)
run-conserves_example = run-conserves library lateness_payout history

run-backed_example : reserved_of 1 settled_store.accounts ≡ held_by 1 settled_store.reservations
run-backed_example = run-backed library lateness_payout history 1

run-solvent_example :
    (pos 0 ≤ℤ reserved_of 1 settled_store.accounts)
    × (reserved_of 1 settled_store.accounts ≤ℤ balance_of 1 settled_store.accounts)
run-solvent_example = run-solvent library lateness_payout history 1

run-booked_example :
    (balance_sum 2 settled_store.ledger ≡ balance_of 2 settled_store.accounts)
    × (reserved_sum 2 settled_store.ledger ≡ reserved_of 2 settled_store.accounts)
run-booked_example = run-booked library lateness_payout history 2

run-splits_example : IsSplit settled_store 5 settled_row
run-splits_example = run-splits library lateness_payout history 5 settled_row row_after refl

run-one_offer_example : courier_offer.assignment_id ≡ courier_offer.assignment_id
run-one_offer_example =
    run-one_offer library lateness_payout history 5 7 7 courier_offer courier_offer offer_after
      offer_after refl refl

abbrev more : List (Env × Command)
more = (env, releases "order" cancelled_before_pickup) ∷ (env, outcomes delivery) ∷ []

run-terminal_example :
    lookup 5 (run library lateness_payout more settled_store).reservations ≡ some settled_row
run-terminal_example =
    run-terminal library lateness_payout history more 5 settled_row row_after refl

run-recorded_example :
    (run library lateness_payout more settled_store).revisions 5 1 ≡ some held_row
run-recorded_example = run-recorded library lateness_payout history more 5 1 held_row first_revision

run-append_only_example :
    (new : List Entry) × ((run library lateness_payout more settled_store).ledger
      ≡ new ++ settled_store.ledger)
run-append_only_example = run-append_only library lateness_payout more settled_store

abbrev adjusting : List (Env × Command)
adjusting = (env, adjusts "order" "offer-1" "bb" (pos 40)) ∷ []

run-reverted_example :
    (run library lateness_payout adjusting fenced_store).assignments 5 7 ≡ some fence
run-reverted_example =
    run-reverted library lateness_payout adjusting fenced_store 5 7 fence fence_after refl

abbrev reserve_key : OperationKey
reserve_key = record { kind = op_reserve; order_id = 5; assignment_id = none }

abbrev two_users : Store
two_users = run library lateness_payout ((env, opens "a") ∷ (env, opens "bb") ∷ []) empty

abbrev reserving : Action MutationResult
reserving = reserve_tx 5 1 (pos 30) 9

abbrev after_reserve : Store
after_reserve = (mutate library env reserve_key (reserve_payload 1 (pos 30)) reserving two_users).1

reserves_once :
    mutate library env reserve_key (reserve_payload 1 (pos 30)) reserving two_users
    ≡ (ok held_row, after_reserve)
unfolding run handle empty open_user within open_account post_entry reserve mutate mutate_tx
    first_call save_operation with_adjustment reserve_tx reserve_new lock_accounts open_all
    insert_reservation update_reservation insert_assignment post adjust_reservation adjust_tx
    apply_offer apply_outcome validate outcome_tx apply_payout settle pay_out lateness_payout
    payable wrap64 big_mul big_quo time_sub ◌+ℤ◌ ◌-ℤ◌ neg hash
reserves_once = refl

mutate-once_example :
    (mutate library env reserve_key (reserve_payload 1 (pos 30)) reserving after_reserve).1
    ≡ after_reserve
mutate-once_example =
    mutate-once library env env reserve_key (reserve_payload 1 (pos 30))
      (reserve_payload 1 (pos 30)) reserving reserving two_users after_reserve held_row
      reserves_once

different_hash :
    (library.request_hash (reserve_payload 1 (pos 30))
      == library.request_hash (reserve_payload 1 (pos 31)))
    ≡ false
unfolding hash
different_hash = refl

mutate-conflict_example :
    mutate library env reserve_key (reserve_payload 1 (pos 31)) reserving after_reserve
    ≡ (err idempotency_conflict, after_reserve)
mutate-conflict_example =
    mutate-conflict library env env reserve_key (reserve_payload 1 (pos 30))
      (reserve_payload 1 (pos 31)) reserving reserving two_users after_reserve held_row
      reserves_once different_hash

abbrev parsed_delivery : OrderOutcome
parsed_delivery = record {
  order_id = 5;
  type = order_completed;
  requester_id = 1;
  courier_id = some 2;
  picked_up_at = 1000000;
  delivered_at = 2500000;
  delivery_duration = pos 1000000;
}

parses : validate library delivery ≡ ok parsed_delivery
unfolding validate
parses = refl

apply_outcome-redelivered_example :
    ((apply_outcome library lateness_payout env delivery settled_store).1 ≡ settled_store)
    × (was_applied (apply_outcome library lateness_payout env delivery settled_store).0 ≡ false)
apply_outcome-redelivered_example =
    apply_outcome-redelivered library lateness_payout env delivery parsed_delivery settled_row
      settled_store parses row_after refl

-- A reservation whose commit took place and whose answer was lost, and its retry.
abbrev lossy : Env
lossy = record { now = 9; db_now = 10; commit = lost database }

abbrev after_loss : Store
after_loss = (mutate library lossy reserve_key (reserve_payload 1 (pos 30)) reserving two_users).1

mutate-atomic_example :
    (after_loss ≡ two_users)
    ⊎ (IsRecorded reserve_key (library.request_hash (reserve_payload 1 (pos 30))) after_loss
        × ((mutate library env reserve_key (reserve_payload 1 (pos 30)) reserving after_loss).1
            ≡ after_loss))
mutate-atomic_example =
    mutate-atomic library lossy env reserve_key (reserve_payload 1 (pos 30))
      (reserve_payload 1 (pos 30)) reserving reserving two_users

payable-share_example :
    payable (pos 40) (pos 1500000) (pos 1000000) ≡ pos (share 40 1500000 1000000)
payable-share_example = payable-share 40 1500000 1000000 (omega arith) (omega arith) (omega arith)

payable-antitone_example :
    (pos 0 ≤ℤ payable (pos 40) (pos 1800000) (pos 1000000))
    × (payable (pos 40) (pos 1800000) (pos 1000000) ≤ℤ payable (pos 40) (pos 1500000) (pos 1000000))
    × (payable (pos 40) (pos 1500000) (pos 1000000) ≤ℤ pos 40)
payable-antitone_example =
    payable-antitone 40 1500000 1800000 1000000 (omega arith) (omega arith) (omega arith)
      (omega arith)
