-- ===== src/Order/Creation/Create/Retries.antt =====
-- What a retry of `Create` finds and returns.
use fo_c.Base.{
  ℕ, ◌≡◌, refl, sym, ap, ◌∙◌, true, false, ◌||◌, ◌&&◌, Option, none, some, ok, err, leb, ◌==◌,
  arith, if◌then◌else◌, Result, Bool-cases, Option-cases, inl, inr,
}
use mathlib.Core.Path.{subst}
use fo_c.Base.Dict.{lookup}
use fo_c.Base.Transaction.{>>=-ok}
use fo_c.Order.Types.{Order, Caller, Texts}
use fo_c.Order.Offers.{create_order, eqb_method}
use fo_c.Order.Workflow.{
  Failure, already_exists, creation_opened, is_resolved_phase, CreationRejection, CreationWorkflow,
  IdempotencyKey, check_request_hash,
}
use fo_c.Order.Store.{Tables, Tx, Work, begin, within, lock_order, lock_row, conclude}
use fo_c.Order.Store.Keys.{lock_idempotency_caller, key_row, find_idempotency_key}
use fo_c.Order.Store.Creations.{
  creation_by_id, check_creation_key, check_stored, find_creation_key, lock_creation, remember,
}
use fo_c.Order.Store.Laws.Reads.{lock_order-reads, lock_creation-reads}
use fo_c.Order.Creation.Linked.{Linked}
use fo_c.Order.Creation.Admission.{CreateInput, InputTexts, canonical_creation}
use fo_c.Order.Creation.Run.{Run, empty, empty-Linked, run-Advances}
use fo_c.Order.Creation.Create.{
  Creator, Visit, find, or_integrity, result_of, read_result, resume, create_checked, create_call,
}

-- A key that leads to its workflow, with the same caller and hash, that is kept at `now`.
pub record IsRetained (s : Tables) (caller key now : ℕ) (stored : IdempotencyKey)
    (w : CreationWorkflow) : Type 0 where
  pub found : key_row caller create_order key s.keys ≡ some stored
  pub leads : creation_by_id stored.resource_id s ≡ some w
  pub same_caller : w.requester_id == stored.caller_id ≡ true
  pub same_hash : w.hash == stored.request_hash ≡ true
  pub is_kept : is_resolved_phase w.phase && leb stored.expires_at now ≡ false

reads_key :
    (caller key : ℕ) (stored : IdempotencyKey) (t : Tx)
    → key_row caller create_order key t.tables.keys ≡ some stored
    → t.callers caller create_order ≡ true
    → find_idempotency_key caller create_order key t ≡ ok (some stored, t)
unfolding find_idempotency_key
reads_key caller key stored t found locks = rw (locks, found) refl

or_integrity-ok :
    {A : Type 0} (m : Work A) (t : Tx) (a : A) (t' : Tx)
    → m t ≡ ok (a, t')
    → or_integrity m t ≡ ok (a, t')
or_integrity-ok m t a t' e = rw (e, or_integrity) refl

module _ (s : Tables) (caller key now : ℕ) (stored : IdempotencyKey) (w : CreationWorkflow)
    (retained : IsRetained s caller key now stored w) where
  checks :
      (t : Tx)
      → t.tables ≡ s
      → check_stored now (some stored) t ≡ ok (some (record { key = stored; workflow = w }), t)
  unfolding check_stored check_creation_key
  checks t e =
      rw (e, retained.leads, retained.same_caller, retained.same_hash, retained.is_kept) refl

  finds :
      (t : Tx)
      → t.tables ≡ s
      → t.callers caller create_order ≡ true
      → find_creation_key caller key now t ≡ ok (some (record { key = stored; workflow = w }), t)
  unfolding find_creation_key
  finds t e locks =
      >>=-ok (find_idempotency_key caller create_order key) (check_stored now) t (some stored) t (
        reads_key caller key stored t
          (ap (λ q. key_row caller create_order key q.keys) e ∙ retained.found) locks)
      ∙ checks t e

  abbrev locked : Tx
  locked = record (begin s) {
    callers = λ c m. if (c == caller) && eqb_method m create_order then true else false;
  }

  pub within-find :
      within none (find caller key now) s ≡ (ok (some (record { key = stored; workflow = w })), s)
  unfolding within find lock_idempotency_caller
  within-find = ap (conclude none s) (finds locked refl (ground arith))

-- What `resume` reads of an opened creation.
module _ (s : Tables) (linked : Linked s) (id : ℕ) (w : CreationWorkflow)
    (stored : s.creations id ≡ some w) (o : Order) (opened : w.phase ≡ creation_opened)
    (result : w.result ≡ some o) where
  reads_result : (current : Order) (t : Tx) → result_of current w w.phase t ≡ ok (o, t)
  reads_result current t = rw (opened, result) refl

  reads :
      (current : Order)
      → lookup id s.orders ≡ some current
      → read_result id (begin s) ≡ ok (o, remember w (lock_row current (begin s)))
  unfolding read_result
  reads current at =
      let t = lock_row current (begin s) in
      >>=-ok (or_integrity (lock_order id)) _ (begin s) current t
        (or_integrity-ok (lock_order id) (begin s) current t (lock_order-reads s id current at))
      ∙ >>=-ok (or_integrity (lock_creation id)) _ t w (remember w t) (
          or_integrity-ok (lock_creation id) t w (remember w t)
            (lock_creation-reads s id current w (linked.keyed id current at) stored))
      ∙ reads_result current (remember w t)

  pub within-read_result : within none (read_result id) s ≡ (ok o, s)
  unfolding within
  within-read_result =
      ap (conclude none s) (reads ((linked.fitting id w stored).0) ((linked.fitting id w stored).1))

-- A workflow that is found by its id is stored at its order.
is_stored :
    (s : Tables)
    → Linked s
    → (id : ℕ) (w : CreationWorkflow) → creation_by_id id s ≡ some w
    → s.creations w.order_id ≡ some w
unfolding creation_by_id
is_stored s linked id w h = go (s.creation_orders id) h
  where
    go :
        (order : Option ℕ)
        → elim order [ none ↦ none | some j ↦ s.creations j ] ≡ some w
        → s.creations w.order_id ≡ some w
    go none e = absurd (cc)
    go (some j) e = ap s.creations ((linked.indexed j w e).0) ∙ e

-- What a retry returns of an opened creation.
abbrev pub retried : IdempotencyKey → ℕ → Order → Result Failure Order
retried stored hash o = if stored.request_hash == hash then ok o else err already_exists

module _ {C : Type 0} (k : Creator C) (x : Texts) (texts : InputTexts)
    (message : CreationRejection → ℕ) (v : Visit) (s : Tables) (d : C) where
  resumes :
      (stored : IdempotencyKey) (w : CreationWorkflow) (o : Order) (hash : ℕ)
      → w.phase ≡ creation_opened
      → within v.read_commit (read_result w.order_id) s ≡ (ok o, s)
      → resume k x texts message v (record { key = stored; workflow = w }) hash (s, d)
        ≡ (some (retried stored hash o), (s, d))
  unfolding resume check_request_hash
  resumes stored w o hash opened result = elim (Bool-cases (stored.request_hash == hash)) [
    | inl same ↦ elim (Option-cases k.credit) [
      | inl e ↦ rw (same, e, result) refl
      | inr (credit, e) ↦ rw (same, e, opened, result) refl
    ]
    | inr other ↦ rw (other) refl
  ]

  checked :
      (c : Caller) (i : CreateInput) (canonical hash : ℕ) (stored : IdempotencyKey)
      (w : CreationWorkflow) (o : Order)
      → within v.find_commit (find c.id i.key v.found_at) s
        ≡ (ok (some (record { key = stored; workflow = w })), s)
      → w.phase ≡ creation_opened
      → within v.read_commit (read_result w.order_id) s ≡ (ok o, s)
      → create_checked k x texts message v c (ok (i, (canonical, hash))) (s, d)
        ≡ (some (retried stored hash o), (s, d))
  unfolding create_checked
  checked c i canonical hash stored w o found opened result =
      rw (found) (resumes stored w o hash opened result)

  -- On reachable tables, a call of `Create` by a valid caller with a valid input, both of whose commits
  -- succeed and whose key is retained with an opened creation, returns the
  -- stored order and changes nothing, or the error that the key exists where the payload's hash is
  -- another one: whatever the deadline, the locations, the storage and the configuration are then.
  pub create_call-Retried :
      Run empty s
      → (c : Caller) (i input : CreateInput) (caller canonical hash : ℕ)
      → (c.id == 0) || c.suspended ≡ false
      → texts.parse_id c.id ≡ some caller
      → canonical_creation texts i ≡ ok (input, (canonical, hash))
      → (stored : IdempotencyKey) (w : CreationWorkflow) (o : Order)
      → IsRetained s caller input.key v.found_at stored w
      → w.phase ≡ creation_opened
      → w.result ≡ some o
      → v.find_commit ≡ none
      → v.read_commit ≡ none
      → create_call k x texts message v c i (s, d) ≡ (some (retried stored hash o), (s, d))
  unfolding create_call
  create_call-Retried reached c i input caller canonical hash admitted parsed checks stored w o
        retained opened result finds reads =
      let linked = (run-Advances empty s empty-Linked reached).linked in
      let found =
        subst
          (λ e.
            within e (find caller input.key v.found_at) s
            ≡ (ok (some (record { key = stored; workflow = w })), s))
          (sym finds) (within-find s caller input.key v.found_at stored w retained) in
      let row =
        subst (λ e. within e (read_result w.order_id) s ≡ (ok o, s)) (sym reads)
          (within-read_result s linked w.order_id w
            (is_stored s linked stored.resource_id w retained.leads) o opened result) in
      rw (admitted, parsed, checks)
        (checked (record c { id = caller }) input canonical hash stored w o found opened row)
