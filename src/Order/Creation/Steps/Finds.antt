-- ===== src/Order/Creation/Steps/Finds.antt =====
-- The transactions of `Create` that find a key and that read a result.
use fo_c.Base.{ℕ, ◌≡◌, refl, sym, ap, ◌∙◌, Option, none, some, Result, ok, err, arith}
use mathlib.Core.Path.{subst}
use fo_c.Base.Dict.{lookup}
use fo_c.Base.Transaction.{Ensures, Ensures-map, >>=-Ensures, ◌>>=◌}
use fo_c.Order.Types.{Order}
use fo_c.Order.Offers.{create_order}
use fo_c.Order.Workflow.{Failure, CreationWorkflow, IdempotencyKey}
use fo_c.Order.Store.{Tables, Tx, begin}
use fo_c.Order.Store.Keys.{lock_idempotency_caller, find_idempotency_key, delete_idempotency_key}
use fo_c.Order.Store.Creations.{check_creation_key, check_stored, find_creation_key}
use fo_c.Order.Store.Laws.{spine, Keeps, >>=-Keeps}
use fo_c.Order.Creation.Linked.{Linked}
use fo_c.Order.Creation.Follows.{Advances, Advances-refl, Extends-trans, same-Extends}
use fo_c.Order.Creation.Steps.Claims.{Kept}
use fo_c.Order.Store.{Work, lock_order}
use fo_c.Order.Store.Creations.{lock_creation}
use fo_c.Order.Workflow.{CreationPhase}
use fo_c.Order.Creation.Create.{find, or_integrity, creation_replay_error, result_of, read_result}

-- The invariant reads the spine only.
pub spine-Linked : (t t' : Tx) → spine t' ≡ spine t → Linked t.tables → Linked t'.tables
spine-Linked t t' e linked = record {
  keyed = λ id o h. linked.keyed id o (sym (ap (λ p. lookup id p.0) e) ∙ h);
  indexed = λ id w h.
      let (key, index) = linked.indexed id w (sym (ap (λ p. p.1 id) e) ∙ h) in
      (key, ap (λ p. p.2 w.id) e ∙ index);
  fitting = λ id w h.
      let (o, found, fit) = linked.fitting id w (sym (ap (λ p. p.1 id) e) ∙ h) in
      (o, ap (λ p. lookup id p.0) e ∙ found, fit);
  checked = λ id w h. linked.checked id w (sym (ap (λ p. p.1 id) e) ∙ h);
}

pub spine-Advances :
    (s : Tables) (t t' : Tx) → spine t' ≡ spine t → Advances s t.tables → Advances s t'.tables
spine-Advances s t t' e h = record {
  linked = spine-Linked t t' e h.linked;
  extends =
      Extends-trans s t.tables t'.tables h.extends
        (same-Extends t.tables t'.tables (ap (λ p. p.1) e));
}

check_stored-Keeps :
    (now : ℕ) (stored : Option IdempotencyKey) (t : Tx)
    → Ensures (Keeps t) (check_stored now stored t)
unfolding check_stored check_creation_key delete_idempotency_key
check_stored-Keeps now none t = refl
check_stored-Keeps now (some stored) t = ground arith

find_idempotency_key-Keeps :
    (caller key : ℕ) (t : Tx) → Ensures (Keeps t) (find_idempotency_key caller create_order key t)
unfolding find_idempotency_key
find_idempotency_key-Keeps caller key t = ground arith

pub find_creation_key-Keeps :
    (caller key now : ℕ) (t : Tx) → Ensures (Keeps t) (find_creation_key caller key now t)
unfolding find_creation_key
find_creation_key-Keeps caller key now t =
    >>=-Keeps (find_idempotency_key caller create_order key) (check_stored now) t
      (find_idempotency_key-Keeps caller key t) (check_stored-Keeps now)

pub find-Advances :
    (s : Tables) (caller key now : ℕ) → Linked s → Ensures (Kept s) (find caller key now (begin s))
unfolding find lock_idempotency_caller
find-Advances s caller key now linked =
    >>=-Ensures (Keeps (begin s)) (Kept s) (lock_idempotency_caller caller create_order)
      (λ u. find_creation_key caller key now) (begin s) refl
      (λ u t e.
        Ensures-map (find_creation_key caller key now t)
          (λ a t' d.
            spine-Advances s t t' d (spine-Advances s (begin s) t e (Advances-refl s linked)))
          (find_creation_key-Keeps caller key now t))

-- What only locks rows.
abbrev Reads : Tables → {A : Type 0} → A → Tx → Type 0
Reads s a t = t.tables ≡ s

lock_order-Reads :
    (s : Tables) (id : ℕ) (t : Tx) → t.tables ≡ s → Ensures (Reads s) (lock_order id t)
unfolding lock_order
lock_order-Reads s id t e = ground arith

lock_creation-Reads :
    (s : Tables) (id : ℕ) (t : Tx) → t.tables ≡ s → Ensures (Reads s) (lock_creation id t)
unfolding lock_creation
lock_creation-Reads s id t e = ground arith

or_integrity-Reads :
    {A : Type 0} (s : Tables) (m : Work A) (t : Tx)
    → Ensures (Reads s) (m t)
    → Ensures (Reads s) (or_integrity m t)
or_integrity-Reads {A} s m t h = go (m t) h
  where
    go :
        (r : Result Failure (A × Tx))
        → Ensures (Reads s) r
        → Ensures
            (Reads s)
            (elim r [ ok (a, t') ↦ ok (a, t') | err e ↦ err (creation_replay_error e) ])
    go (ok (a, t')) h = h
    go (err e) h = tt

result_of-Reads :
    (s : Tables) (o : Order) (w : CreationWorkflow) (p : CreationPhase) (t : Tx)
    → t.tables ≡ s
    → Ensures (Reads s) (result_of o w p t)
result_of-Reads s o w p t e = ground arith

read_result-Reads : (s : Tables) (id : ℕ) → Ensures (λ o t. t.tables ≡ s) (read_result id (begin s))
unfolding read_result
read_result-Reads s id =
    let order = or_integrity (lock_order id) in
    let workflow = or_integrity (lock_creation id) in
    >>=-Ensures (Reads s) (Reads s) order (λ o. workflow >>= λ w. result_of o w w.phase) (begin s)
      (or_integrity-Reads s (lock_order id) (begin s) (lock_order-Reads s id (begin s) refl))
      (λ o t e.
        >>=-Ensures (Reads s) (Reads s) workflow (λ w. result_of o w w.phase) t
          (or_integrity-Reads s (lock_creation id) t (lock_creation-Reads s id t e))
          (λ w t' d. result_of-Reads s o w w.phase t' d))

pub read_result-Advances :
    (s : Tables) (id : ℕ) → Linked s → Ensures (Kept s) (read_result id (begin s))
read_result-Advances s id linked =
    Ensures-map (read_result id (begin s))
      (λ o t e. subst (Advances s) (sym e) (Advances-refl s linked)) (read_result-Reads s id)
