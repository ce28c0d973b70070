-- ===== src/Order/Store/Mutate.antt =====
-- order-service/internal/order/mutation.go: the boundary that every local write of an order passes.
use fo_c.Base.{ℕ, Option, none, some, List, ⊤, Result, ok, err}
use fo_c.Base.Transaction.{pure, from_result, ◌>>=◌}
use fo_c.Order.Types.{Order, Offer, OrderError, Texts}
use fo_c.Order.Facts.{Change}
use fo_c.Order.Mutations.{check_change}
use fo_c.Order.Workflow.{Failure, policy}
use fo_c.Order.Store.{Work, lock_order, relationships}
use fo_c.Order.Store.Apply.{apply}

-- An error of the policy, as an error of the workflow
abbrev pub lift : {A : Type 0} → Result OrderError A → Result Failure A
lift (ok a) = ok a
lift (err e) = err (policy e)

-- A nil change writes nothing.
abbrev pub apply_some : Texts → Option Change → Work ⊤
apply_some x none = pure tt
apply_some x (some c) = apply x c

-- `Mutate`
unfoldable pub mutate :
    Texts → ℕ → (Order → List Offer → Result OrderError (Option Change)) → Work ⊤
unfolding lock_order relationships check_change apply
mutate x id build = do
  current ← lock_order id
  offers ← relationships id
  change ← from_result (lift (check_change x id current (build current offers)))
  apply_some x change
