-- ===== src/Credit/System/Keeping.antt =====
-- What every command keeps: a property of the tables that the action inside each call keeps.
use Prim.Native.String.{String}
use fo_c.Base.{
  ℕ, ◌≡◌, inl, inr, Bool, none, some, List, [], ◌∷◌, Result, ok, err, arith, Option-cases,
  Bool-cases,
}
use fo_c.Base.Int.{ℤ, pos, ◌≤ℤ◌, leb_ℤ}
use fo_c.Credit.Types.{
  op_reserve, op_adjust, op_revert, op_release, reserve_payload, adjust_payload, revert_payload,
  release_payload, ReleaseReason, RawOutcome, Error, Reservation, OrderOutcome,
}
use fo_c.Credit.Store.{Store, Action, within, open_account, ◌>>=◌, pure}
use fo_c.Credit.Ensures.{Ensures}
use fo_c.Credit.Service.{Env, Library}
use fo_c.Credit.Keeps.{within-keeps, mutate-keeps, IgnoresOperations}
use fo_c.Credit.Operations.{reserve, reserve_tx, adjust_reservation, adjust_tx}
use fo_c.Credit.Release.{revert_adjustment, revert_tx, release_reservation, release_tx}
use fo_c.Credit.Outcome.{validate, apply_outcome, outcome_tx}
use fo_c.Credit.System.{
  open_user, Command, reserves, adjusts, reverts, releases, outcomes, opens, handle, run,
}

abbrev pub Keeps : {A : Type 0} → (Store → Type 0) → Action A → Type 0
Keeps P m = (s : Store) → P s → Ensures (λ _ v. P v) (m s)

-- What the actions of the calls keep, whatever their arguments and the clocks.
pub record KeptByActions (P : Store → Type 0) : Type 0 where
  pub ignores : IgnoresOperations P
  pub by_reserve :
      (order requester : ℕ) (amount : ℤ) (now : ℕ)
      → pos 1 ≤ℤ amount
      → Keeps P (reserve_tx order requester amount now)
  pub by_adjust :
      (order id courier : ℕ) (offer : ℤ) (now db_now : ℕ)
      → Keeps P (adjust_tx order id courier offer now db_now)
  pub by_revert : (order id now db_now : ℕ) → Keeps P (revert_tx order id now db_now)
  pub by_release :
      (order : ℕ) (reason : ReleaseReason) (now db_now : ℕ)
      → Keeps P (release_tx order reason now db_now)
  pub by_outcome :
      (payout : ℤ → OrderOutcome → ℤ) (o : OrderOutcome) (now db_now : ℕ)
      → Keeps P (outcome_tx o payout now db_now)
  pub by_open : (user : ℕ) → Keeps P (open_account user >>= λ a. pure tt)

positive : (amount : ℤ) → leb_ℤ amount (pos 0) ≡ Bool.false → pos 1 ≤ℤ amount
positive amount h = ground arith

module _ (P : Store → Type 0) (kept : KeptByActions P) (l : Library) (env : Env) (s : Store)
    (p : P s) where
  reserve-keeps :
      (order_text requester_text : String) (amount : ℤ)
      → P (reserve l env order_text requester_text amount s).1
  unfolding reserve
  reserve-keeps order_text requester_text amount = elim (Option-cases (l.parse_uuid order_text)) [
    | inl e ↦ ground arith
    | inr (order, e) ↦ elim (Option-cases (l.parse_uuid requester_text)) [
      | inl e' ↦ ground arith
      | inr (requester, e') ↦ elim (Bool-cases (leb_ℤ amount (pos 0))) [
        | inl none_asked ↦ ground arith
        | inr asked ↦ ground (
          arith,
          mutate-keeps P kept.ignores l env
              (record { kind = op_reserve; order_id = order; assignment_id = none })
              (reserve_payload requester amount) (reserve_tx order requester amount env.now) s p
              (kept.by_reserve order requester amount env.now (positive amount asked) s p),
        )
      ]
    ]
  ]

  adjust-keeps :
      (order_text id_text courier_text : String) (offer : ℤ)
      → P (adjust_reservation l env order_text id_text courier_text offer s).1
  unfolding adjust_reservation
  adjust-keeps order_text id_text courier_text offer =
      elim (Option-cases (l.parse_uuid order_text)) [
        | inl e ↦ ground arith
        | inr (order, e) ↦ elim (Option-cases (l.parse_uuid id_text)) [
          | inl e' ↦ ground arith
          | inr (id, e') ↦ elim (Option-cases (l.parse_uuid courier_text)) [
            | inl e'' ↦ ground arith
            | inr (courier, e'') ↦ ground (
              arith,
              mutate-keeps P kept.ignores l env
                  (record { kind = op_adjust; order_id = order; assignment_id = some id })
                  (adjust_payload courier offer)
                  (adjust_tx order id courier offer env.now env.db_now) s p
                  (kept.by_adjust order id courier offer env.now env.db_now s p),
            )
          ]
        ]
      ]

  revert-keeps : (order_text id_text : String) → P (revert_adjustment l env order_text id_text s).1
  unfolding revert_adjustment
  revert-keeps order_text id_text = elim (Option-cases (l.parse_uuid order_text)) [
    | inl e ↦ ground arith
    | inr (order, e) ↦ elim (Option-cases (l.parse_uuid id_text)) [
      | inl e' ↦ ground arith
      | inr (id, e') ↦ ground (
        arith,
        mutate-keeps P kept.ignores l env
            (record { kind = op_revert; order_id = order; assignment_id = some id }) revert_payload
            (revert_tx order id env.now env.db_now) s p
            (kept.by_revert order id env.now env.db_now s p),
      )
    ]
  ]

  release-keeps :
      (order_text : String) (reason : ReleaseReason)
      → P (release_reservation l env order_text reason s).1
  unfolding release_reservation
  release-keeps order_text reason = elim (Option-cases (l.parse_uuid order_text)) [
    | inl e ↦ ground arith
    | inr (order, e) ↦ ground (
      arith,
      mutate-keeps P kept.ignores l env
          (record { kind = op_release; order_id = order; assignment_id = none })
          (release_payload reason) (release_tx order reason env.now env.db_now) s p
          (kept.by_release order reason env.now env.db_now s p),
    )
  ]

  outcome-keeps :
      (payout : ℤ → OrderOutcome → ℤ) (o : RawOutcome) → P (apply_outcome l payout env o s).1
  unfolding apply_outcome
  outcome-keeps payout o = after (validate l o)
    where
      after :
          (r : Result Error OrderOutcome)
          → P
              (elim r as (λ _. Result Error (Reservation × Bool) × Store) [
                | err e ↦ (err e, s)
                | ok q ↦ within env.commit (outcome_tx q payout env.now env.db_now) s
              ]).1
      after (ok q) =
          within-keeps P env.commit (outcome_tx q payout env.now env.db_now) s p
            (kept.by_outcome payout q env.now env.db_now s p)
      after (err e) = p

  open-keeps : (text : String) → P (open_user l env text s).1
  unfolding open_user
  open-keeps text = elim (Option-cases (l.parse_uuid text)) [
    | inl e ↦ ground arith
    | inr (user, e) ↦ ground (
      arith,
      within-keeps P env.commit (open_account user >>= λ a. pure tt) s p (kept.by_open user s p),
    )
  ]

-- Every command keeps what the actions inside the calls keep.
pub handle-keeps :
    (P : Store → Type 0)
    → KeptByActions P
    → (l : Library) (payout : ℤ → OrderOutcome → ℤ) (env : Env) (c : Command) (s : Store) → P s
    → P (handle l payout env c s)
unfolding handle
handle-keeps P kept l payout env (reserves order requester amount) s p =
    reserve-keeps P kept l env s p order requester amount
handle-keeps P kept l payout env (adjusts order id courier offer) s p =
    adjust-keeps P kept l env s p order id courier offer
handle-keeps P kept l payout env (reverts order id) s p = revert-keeps P kept l env s p order id
handle-keeps P kept l payout env (releases order reason) s p =
    release-keeps P kept l env s p order reason
handle-keeps P kept l payout env (outcomes o) s p = outcome-keeps P kept l env s p payout o
handle-keeps P kept l payout env (opens user) s p = open-keeps P kept l env s p user

pub run-keeps :
    (P : Store → Type 0)
    → KeptByActions P
    → (l : Library) (payout : ℤ → OrderOutcome → ℤ) (cs : List (Env × Command)) (s : Store) → P s
    → P (run l payout cs s)
unfolding run
run-keeps P kept l payout [] s p = p
run-keeps P kept l payout ((env, c) ∷ cs) s p =
    run-keeps P kept l payout cs (handle l payout env c s) (handle-keeps P kept l payout env c s p)
