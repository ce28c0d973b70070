-- ===== src/Order/Creation/Admission.antt =====
-- order-service/internal/order/creation.go: what `Create` checks of its input and the transaction that
-- admits a creation.
use fo_c.Base.{
  ℕ, ◌-◌, ◌*◌, Bool, false, ◌||◌, Option, none, some, List, [], ◌∷◌, Result, ok, err, ltb, leb,
  ◌==◌, length, if◌then◌else◌,
}
use fo_c.Base.Int.{ℤ, pos, leb_ℤ, ltb_ℤ}
use fo_c.Base.Transaction.{pure, from_result, reject, ◌>>=◌, ◌>>◌}
use fo_c.Order.Types.{
  pending_reservation, LocationSnapshot, Order, Actor, user, create, OrderError, invalid, Texts,
}
use fo_c.Order.Facts.{new_change}
use fo_c.Order.Offers.{has_seen, create_order}
use fo_c.Order.Images.{ItemImage}
use fo_c.Order.Workflow.{
  policy, rate_limited, reserve_pending, no_error, CreationWorkflow, CreationReplay, creation_key,
}
use fo_c.Order.Store.{Work}
use fo_c.Order.Store.Apply.{apply}
use fo_c.Order.Store.Mutate.{lift}
use fo_c.Order.Store.Keys.{lock_idempotency_caller}
use fo_c.Order.Store.Images.{attach_creation_images}
use fo_c.Order.Store.Creations.{find_creation_key, count_recent_creations, insert_creation}
use fo_c.Order.Creation.{second}

pub record CreateInput : Type 0 where
  pub key : ℕ
  pub pickup_id : ℕ
  pub delivery_id : ℕ
  pub instructions : Option ℕ
  pub item_description : ℕ
  pub image_ids : List ℕ
  pub reward_credits : ℤ
  pub delivery_duration : ℤ
  pub expires_at : ℕ

-- What the check of an input uses of other packages: `parseID` without its error, trimming, the
-- number of runes, the year of a time, `json.Marshal` and the digest.
pub record InputTexts : Type 0 where
  pub parse_id : ℕ → Option ℕ
  pub trim : ℕ → ℕ
  pub rune_count : ℕ → ℕ
  pub year : ℕ → ℕ
  pub encode : CreateInput → ℕ
  pub digest : ℕ → ℕ

-- The loop over the image ids: canonical ones that differ.
abbrev canonical_images : InputTexts → List ℕ → List ℕ → Option (List ℕ)
canonical_images k seen [] = some []
canonical_images k seen (value ∷ values) = elim (k.parse_id value) [
  | none ↦ none
  | some id ↦
      let rest = canonical_images k (id ∷ seen) values in
      if has_seen id seen then none else elim rest [ none ↦ none | some ids ↦ some (id ∷ ids) ]
]

abbrev trimmed : InputTexts → Option ℕ → Option ℕ
trimmed k none = none
trimmed k (some value) = some (k.trim value)

abbrev is_long : InputTexts → Option ℕ → Bool
is_long k none = false
is_long k (some value) = ltb 500 (k.rune_count value)

-- The checks of the canonical fields, and the input that is hashed; the key is not part of it.
abbrev pub check_input : InputTexts → CreateInput → Result OrderError (CreateInput × (ℕ × ℕ))
check_input k i =
    let canonical = k.encode (record i { key = 0 }) in
    if (i.pickup_id == i.delivery_id) || leb_ℤ i.reward_credits (pos 0)
    then err invalid
    else if (k.rune_count i.item_description == 0)
        || ltb 1000 (k.rune_count i.item_description)
        || is_long k i.instructions
    then err invalid
    else if ltb_ℤ i.delivery_duration (pos (300 * second))
        || ltb_ℤ (pos (86400 * second)) i.delivery_duration
        || (i.expires_at == 0)
        || ltb (k.year i.expires_at) 1
        || ltb 9999 (k.year i.expires_at)
    then err invalid
    else ok (i, (canonical, k.digest canonical))

abbrev with_ids :
    InputTexts
    → CreateInput
    → Option ℕ
    → Option ℕ
    → Option ℕ
    → Option (List ℕ)
    → Result OrderError (CreateInput × (ℕ × ℕ))
with_ids k i (some key) (some pickup) (some delivery) (some images) = check_input k (record i {
  key = key;
  pickup_id = pickup;
  delivery_id = delivery;
  image_ids = images;
  item_description = k.trim i.item_description;
  instructions = trimmed k i.instructions;
})
with_ids k i _ _ _ _ = err invalid

-- `canonicalCreation`: the canonical input, its JSON text and the digest
unfoldable pub canonical_creation :
    InputTexts → CreateInput → Result OrderError (CreateInput × (ℕ × ℕ))
canonical_creation k i =
    if ltb 5 (length i.image_ids)
    then err invalid
    else with_ids k i (k.parse_id i.key) (k.parse_id i.pickup_id) (k.parse_id i.delivery_id)
        (canonical_images k [] i.image_ids)

-- What the admission has besides the input: the caller, the snapshots, the images, the clock and the
-- ids that it draws for the order and for the workflow.
pub record Request : Type 0 where
  pub caller : ℕ
  pub input : CreateInput
  pub canonical : ℕ
  pub hash : ℕ
  pub pickup : LocationSnapshot
  pub delivery : LocationSnapshot
  pub images : List ItemImage
  pub now : ℕ
  pub order_id : ℕ
  pub workflow_id : ℕ

abbrev pub order_of : Request → Order
order_of r = record {
  pending_cancellation_id = none;
  id = r.order_id;
  requester_id = r.caller;
  courier_id = none;
  status = pending_reservation;
  pickup = r.pickup;
  delivery = r.delivery;
  delivery_instructions = r.input.instructions;
  item_description = r.input.item_description;
  reward_credits = r.input.reward_credits;
  reserved_credits = pos 0;
  delivery_duration = r.input.delivery_duration;
  expires_at = r.input.expires_at;
  assigned_at = none;
  picked_up_at = none;
  delivered_at = none;
  completed_at = none;
  closed_at = none;
  close_reason = none;
  item_location = none;
  unattended_delivery = false;
  revision = pos 1;
  created_at = r.now;
  updated_at = r.now;
}

abbrev pub workflow_of : Request → CreationWorkflow
workflow_of r = record {
  id = r.workflow_id;
  order_id = r.order_id;
  requester_id = r.caller;
  hash = r.hash;
  canonical = r.canonical;
  amount = r.input.reward_credits;
  expires_at = r.input.expires_at;
  phase = reserve_pending;
  generation = 0;
  attempts = 0;
  lease_until = r.now;
  next_attempt_at = r.now;
  last_error = no_error;
  rejection = none;
  result = none;
  created_at = r.now;
  updated_at = r.now;
}

abbrev pub requester_of : Request → Actor
requester_of r = record { kind = user; id = r.caller }

abbrev pub replay_of : Request → CreationReplay
replay_of r = record { key = creation_key (workflow_of r) r.input.key; workflow = workflow_of r }

-- The writes after the order's
unfoldable pub write_workflow : Request → Work CreationReplay
unfolding attach_creation_images insert_creation
write_workflow r = do
  attach_creation_images r.caller r.order_id r.images
  insert_creation (workflow_of r) r.input.key
  pure (replay_of r)

-- The writes of the admission
unfoldable pub write_admission : Texts → Request → Work CreationReplay
unfolding new_change apply write_workflow
write_admission x r = do
  change ← from_result (lift (new_change x none (order_of r) (requester_of r) create 0))
  apply x change
  write_workflow r

-- The checks of a new creation: its deadline and the caller's rate
unfoldable pub admit_new : Texts → Request → Work CreationReplay
unfolding count_recent_creations write_admission
admit_new x r = do
  reject (leb r.input.expires_at r.now) (policy invalid)
  count ← count_recent_creations r.caller (r.now - 60 * second)
  reject (leb 10 count) rate_limited
  write_admission x r

abbrev pub admit_unless : Texts → Request → Option CreationReplay → Work CreationReplay
admit_unless x r (some replay) = pure replay
admit_unless x r none = admit_new x r

-- The transaction of `Create`
unfoldable pub admit : Texts → Request → Work CreationReplay
unfolding lock_idempotency_caller find_creation_key admit_new
admit x r = do
  lock_idempotency_caller r.caller create_order
  existing ← find_creation_key r.caller r.input.key r.now
  admit_unless x r existing
