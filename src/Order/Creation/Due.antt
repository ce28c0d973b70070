-- ===== src/Order/Creation/Due.antt =====
-- When a stored creation is due, and what a pass then claims of it.
use fo_c.Base.{ℕ, ◌≡◌, true, false, leb}
use fo_c.Order.Types.{Order}
use fo_c.Order.Workflow.{CreationWorkflow, is_resolved_phase}
use fo_c.Order.Store.Creations.{creation_check}
use fo_c.Order.Creation.Linked.{Linked}
use fo_c.Order.Creation.Run.{Run}

-- A stored workflow that is unresolved, whose lease and delay have passed, and that passes the CHECKs
-- of its table.
record IsDue (now : ℕ) (w : CreationWorkflow) : Type 0 where
  pub unresolved : is_resolved_phase w.phase ≡ false
  pub unleased : leb w.lease_until now ≡ true
  pub reached : leb w.next_attempt_at now ≡ true
  pub passes_checks : creation_check w ≡ true
