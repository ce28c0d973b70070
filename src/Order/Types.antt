-- ===== src/Order/Types.antt =====
-- order-service/internal/order/types.go, assignmenttypes.go and the records of repository.go and
-- events.go. A text is a number and the empty text is 0. A time counts nanoseconds from Go's zero time.
-- Revisions count writes, so their int64 does not wrap.
use fo_c.Base.{
  ℕ, Bool, true, false, not, ◌&&◌, ◌||◌, Option, none, some, Result, ok, err, ◌==◌, if◌then◌else◌,
}
use fo_c.Base.Int.{ℤ, pos, ltb_ℤ, eqb_ℤ, ◌+ℤ◌, ◌-ℤ◌}
use fo_c.Credit.Lateness.{big_quo}

-- `unknown_status` stands for every text that is none of the constants.
pub data Status : Type 0 where
  pending_reservation awaiting_courier awaiting_pickup delivering delivered : Status
  completed cancelled expired failed rejected unknown_status : Status

-- `Status.IsValid`
abbrev pub is_valid : Status → Bool
is_valid unknown_status = false
is_valid _ = true

-- `Status.IsTerminal`
abbrev pub is_terminal : Status → Bool
is_terminal completed = true
is_terminal cancelled = true
is_terminal expired = true
is_terminal failed = true
is_terminal rejected = true
is_terminal _ = false

abbrev pub rank : Status → ℕ
rank pending_reservation = 0
rank awaiting_courier = 1
rank awaiting_pickup = 2
rank delivering = 3
rank delivered = 4
rank completed = 5
rank cancelled = 6
rank expired = 7
rank failed = 8
rank rejected = 9
rank unknown_status = 10

-- `==` on statuses
abbrev pub eqb_status : Status → Status → Bool
eqb_status s t = rank s == rank t

pub record LocationSnapshot : Type 0 where
  pub location_id : ℕ
  pub name : ℕ
  pub building_name : ℕ
  pub floor : Option ℕ

pub record Order : Type 0 where
  pub pending_cancellation_id : Option ℕ
  pub id : ℕ
  pub requester_id : ℕ
  pub courier_id : Option ℕ
  pub status : Status
  pub pickup : LocationSnapshot
  pub delivery : LocationSnapshot
  pub delivery_instructions : Option ℕ
  pub item_description : ℕ
  pub reward_credits : ℤ
  pub reserved_credits : ℤ
  pub delivery_duration : ℤ
  pub expires_at : ℕ
  pub assigned_at : Option ℕ
  pub picked_up_at : Option ℕ
  pub delivered_at : Option ℕ
  pub completed_at : Option ℕ
  pub closed_at : Option ℕ
  pub close_reason : Option ℕ
  pub item_location : Option ℕ
  pub unattended_delivery : Bool
  pub revision : ℤ
  pub created_at : ℕ
  pub updated_at : ℕ

pub data OfferStatus : Type 0 where
  offer_open offer_accepting offer_accepted offer_void : OfferStatus

pub record Offer : Type 0 where
  pub id : ℕ
  pub order_id : ℕ
  pub courier_id : ℕ
  pub credits : ℤ
  pub status : OfferStatus
  pub created_at : ℕ
  pub updated_at : ℕ

-- `other_kind` stands for every text that is none of the constants.
pub data ActorKind : Type 0 where
  user admin system other_kind : ActorKind

pub record Actor : Type 0 where
  pub kind : ActorKind
  pub id : ℕ

pub record Caller : Type 0 where
  pub id : ℕ
  pub is_admin : Bool
  pub suspended : Bool

-- `other_action` stands for every text that is none of the constants.
pub data Action : Type 0 where
  create confirm_reservation refuse_reservation assign cancel expire pickup withdraw : Action
  unassign deliver timeout confirm_receipt record_item_location propose_offer : Action
  begin_assignment resolve_assignment accept_counteroffer begin_withdrawal other_action : Action

-- An action's text, for `==`.
abbrev pub action_rank : Action → ℕ
action_rank create = 0
action_rank confirm_reservation = 1
action_rank refuse_reservation = 2
action_rank assign = 3
action_rank cancel = 4
action_rank expire = 5
action_rank pickup = 6
action_rank withdraw = 7
action_rank unassign = 8
action_rank deliver = 9
action_rank timeout = 10
action_rank confirm_receipt = 11
action_rank record_item_location = 12
action_rank propose_offer = 13
action_rank begin_assignment = 14
action_rank resolve_assignment = 15
action_rank accept_counteroffer = 16
action_rank begin_withdrawal = 17
action_rank other_action = 18

pub data OrderError : Type 0 where
  not_found forbidden invalid precondition conflict : OrderError

abbrev pub is_user : ActorKind → Bool
is_user user = true
is_user _ = false

abbrev pub is_admin_kind : ActorKind → Bool
is_admin_kind admin = true
is_admin_kind _ = false

abbrev pub is_system : ActorKind → Bool
is_system system = true
is_system _ = false

-- What the policy relies on of other packages: case folding, the bytes of a text, `json.Valid`, the
-- text `{}`, the ids that a call draws, the first one first, and the text `admin`.
pub record Texts : Type 0 where
  pub fold : ℕ → ℕ
  pub byte_length : ℕ → ℕ
  pub is_json : ℕ → Bool
  pub empty_object : ℕ
  pub new_id : ℕ → ℕ
  pub admin_text : ℕ

-- `strings.EqualFold`
abbrev pub equal_fold : Texts → ℕ → ℕ → Bool
equal_fold x a b = x.fold a == x.fold b

-- `IsRequestedBy`
abbrev pub is_requested_by : Texts → Order → ℕ → Bool
is_requested_by x o user_id = not (user_id == 0) && equal_fold x o.requester_id user_id

abbrev fold_matches : Texts → Option ℕ → ℕ → Bool
fold_matches x none user_id = false
fold_matches x (some c) user_id = equal_fold x c user_id

-- `IsAssignedTo`
abbrev pub is_assigned_to : Texts → Order → ℕ → Bool
is_assigned_to x o user_id = not (user_id == 0) && fold_matches x o.courier_id user_id

-- `HasParticipant`
abbrev pub has_participant : Texts → Order → ℕ → Bool
has_participant x o user_id = is_requested_by x o user_id || is_assigned_to x o user_id

pub record Page : Type 0 where
  pub number : ℤ
  pub size : ℤ

-- `Page.Normalize`
unfoldable pub normalize : Page → Result OrderError Page
normalize p =
    if ltb_ℤ p.number (pos 0) || ltb_ℤ p.size (pos 0) || ltb_ℤ (pos 100) p.size
    then err invalid
    else ok (record {
      number = if eqb_ℤ p.number (pos 0) then pos 1 else p.number;
      size = if eqb_ℤ p.size (pos 0) then pos 20 else p.size;
    })

-- `PageInfo.TotalPages`, before the conversion to int32
unfoldable pub total_pages : ℤ → ℤ → ℤ
total_pages total size =
    if eqb_ℤ total (pos 0) then pos 0 else big_quo (total -ℤ pos 1) size +ℤ pos 1
