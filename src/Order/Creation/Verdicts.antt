-- ===== src/Order/Creation/Verdicts.antt =====
-- What the settlement's verdicts make of an order and its creation workflow.
use fo_c.Base.{ℕ, ◌≡◌, refl, true, false, Option, none, some, Result, ok, err, arith}
use fo_c.Order.Types.{
  pending_reservation, confirm_reservation, refuse_reservation, eqb_status, Order, OrderError,
  Texts,
}
use fo_c.Order.Facts.{Change, new_change}
use fo_c.Order.Mutations.{built}
use fo_c.Order.Audit.{new_change-IsBuilt}
use fo_c.Order.Workflow.{CreationRejection, CreationWorkflow, is_resolved_phase}
use fo_c.Order.Store.Laws.Applied.{IsRow, is_new, is_update}
use fo_c.Order.Creation.{
  Verdict, keeps, aborts, opens, rejects, verdict_change, decided, opened_order, system_actor,
  rejected_order,
}
use fo_c.Order.Creation.Fits.{fits}

pub built-ok : (r : Result OrderError Change) (c : Change) → built r ≡ ok (some c) → r ≡ ok c
built-ok (ok d) c h = ground arith
built-ok (err e) c h = absurd (cc)

pub built-none : (r : Result OrderError Change) → built r ≡ ok none → ⊥
built-none (ok d) h = cc
built-none (err e) h = cc

pub row-status :
    (c : Change) (found : Option Order) (row : Order)
    → IsRow c found row
    → (row.id ≡ c.order.id) × (row.status ≡ c.order.status)
row-status c found row (is_new first absent) = (refl, refl)
row-status c found row (is_update old later at) = (refl, refl)

module _ (x : Texts) (message : CreationRejection → ℕ) where
  -- The order that a change of the verdict carries fits the phase that the verdict decides.
  pub verdict_change-fits :
      (now : ℕ) (o : Order) (w : CreationWorkflow) (v : Verdict) (c : Change)
      → verdict_change x message now o w v ≡ ok (some c)
      → (c.order.id ≡ o.id) × (fits (decided x message now o w v).phase c.order.status ≡ true)
  unfolding verdict_change
  verdict_change-fits now o w keeps c h = absurd (cc)
  verdict_change-fits now o w aborts c h = absurd (cc)
  verdict_change-fits now o w opens c h =
      let after = opened_order now w.amount o in
      let is_after =
        (new_change-IsBuilt x (some o) after system_actor confirm_reservation 0 c (
          built-ok (new_change x (some o) after system_actor confirm_reservation 0) c
            h)).is_after in
      rw is_after (refl, refl)
  verdict_change-fits now o w (rejects r) c h =
      let after = rejected_order now (message r) o in
      let is_after =
        (new_change-IsBuilt x (some o) after system_actor refuse_reservation 0 c (
          built-ok (new_change x (some o) after system_actor refuse_reservation 0) c h)).is_after in
      rw is_after (refl, refl)

  -- Without a change the order still awaits its reservation, and the phase is not resolved.
  pub verdict_kept-fits :
      (now : ℕ) (o : Order) (w : CreationWorkflow) (v : Verdict)
      → verdict_change x message now o w v ≡ ok none
      → is_resolved_phase w.phase ≡ false
      → eqb_status o.status pending_reservation ≡ true
      → fits (decided x message now o w v).phase o.status ≡ true
  unfolding verdict_change
  verdict_kept-fits now o w keeps h live waits = ground arith
  verdict_kept-fits now o w aborts h live waits = waits
  verdict_kept-fits now o w opens h live waits = absurd (built-none _ h)
  verdict_kept-fits now o w (rejects r) h live waits = absurd (built-none _ h)

  pub decided-id :
      (now : ℕ) (o : Order) (w : CreationWorkflow) (v : Verdict)
      → (decided x message now o w v).id ≡ w.id
  decided-id now o w keeps = refl
  decided-id now o w aborts = refl
  decided-id now o w opens = refl
  decided-id now o w (rejects r) = refl
