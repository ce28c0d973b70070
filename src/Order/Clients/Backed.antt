-- ===== src/Order/Clients/Backed.antt =====
-- The order service over the credit service: what an opened order's reservation is.
use Prim.Native.String.{String}
use fo_c.Base.{
  ℕ, ◌≡◌, refl, sym, ap, ◌∙◌, Bool, true, false, ◌&&◌, Option, none, some, ok, if◌then◌else◌, arith,
}
use fo_c.Base.Dict.{lookup}
use fo_c.Credit.Store.{Store, within}
use fo_c.Credit.Service.{Library, Env, get_reservation_tx}
use fo_c.Order.Types.{Texts, Order, eqb_status, pending_reservation, awaiting_courier}
use fo_c.Order.Workflow.{
  CreationRejection, eqb_phase, reserve_pending, no_error, ReservationView, CreationWorkflow,
}
use fo_c.Order.Creation.{Observation, is_matching_hold}
use fo_c.Order.Creation.Process.{
  Turn, finish, is_insufficient, CreditReply, CreationCredit, observation_of, observe, call,
  observe_after,
}
use fo_c.Order.Store.{Tables}
use fo_c.Order.Creation.Run.{Run, empty}
use fo_c.Order.Creation.Confirmed.{settle-Confirmed}
use fo_c.Order.Clients.{read_call, view_call, credit_client}
use fo_c.Order.Clients.Rows.{Backs, response-Backs}

-- A view that an observation shows was read after the call, of the credit service as it left it.
module _ {C : Type 0} (credit : CreationCredit C) (x : Texts) (message : CreationRejection → ℕ)
    (w : CreationWorkflow) (v : ReservationView) where
  was_read :
      (found : Option ReservationView) → (observation_of w found).view ≡ some v → found ≡ some v
  unfolding observation_of
  was_read none shows = absurd (cc)
  was_read (some u) shows = ground arith

  abbrev read_unless : Bool → Observation → C → Observation × C
  read_unless b seen c =
      if b then (seen, c) else (observation_of w (credit.get_reservation w.order_id c), c)

  unless_read :
      (b : Bool) (seen : Observation) (c : C)
      → seen.view ≡ none
      → (read_unless b seen c).0.view ≡ some v
      → credit.get_reservation w.order_id (read_unless b seen c).1 ≡ some v
  unless_read true seen c blank shows = absurd (cc)
  unless_read false seen c blank shows = was_read (credit.get_reservation w.order_id c) shows

  after_call :
      (p : CreditReply × C)
      → (observe_after credit x message w p).0.view ≡ some v
      → credit.get_reservation w.order_id (observe_after credit x message w p).1 ≡ some v
  after_call (reply, c) =
      unless_read (eqb_phase w.phase reserve_pending && is_insufficient reply)
        (record { view = none; refused = true; diagnostic = no_error }) c refl

  observed :
      (c : C)
      → (observe credit x message w c).0.view ≡ some v
      → credit.get_reservation w.order_id (observe credit x message w c).1 ≡ some v
  unfolding observe
  observed c = after_call (call credit x message w c)

module _ (l : Library) (envs : ℕ → Env) (text : ℕ → String) where
  read-Backs :
      (id : ℕ) (v : ReservationView) (w : CreationWorkflow) (c : ℕ × Store)
      → l.parse_uuid (text id) ≡ some id
      → view_call l envs text id c ≡ some v
      → is_matching_hold v w ≡ true
      → Backs c.1 w
  read-Backs id v w (n, store) writes shows matches =
      response-Backs (envs n).commit id v w store
        (within (envs n).commit (get_reservation_tx id) store).0 refl
        (ap (read_call l envs text id store (envs n)) (sym writes) ∙ shows) matches

  -- Over the credit service, and where parsing the order's id that was written gives it back: a pass of
  -- `ProcessCreation` that opens an order leaves Credit with a held reservation of that order, for
  -- its requester and of the exact amount.
  pub finish-Backs :
      (x : Texts) (message : CreationRejection → ℕ) (turn : Turn) (s t : Tables)
      → Run empty s
      → (id : ℕ) (claimed w : CreationWorkflow) (d c : ℕ × Store) (again : Bool)
      → l.parse_uuid (text claimed.order_id) ≡ some claimed.order_id
      → finish
          (credit_client l envs text)
          x
          message
          turn
          id
          claimed
          s
          (observe (credit_client l envs text) x message claimed d)
        ≡ (ok again, (t, c))
      → (before after : Order) → s.creations id ≡ some w
      → lookup id s.orders ≡ some before
      → eqb_status before.status pending_reservation ≡ true
      → lookup id t.orders ≡ some after
      → after.status ≡ awaiting_courier
      → Backs c.1 w
  unfolding credit_client
  finish-Backs x message turn s t reached id claimed w d c again writes returns before after stored
        found waits left moved =
      go (observe (credit_client l envs text) x message claimed d) refl returns
    where
      go :
          (p : Observation × (ℕ × Store))
          → observe (credit_client l envs text) x message claimed d ≡ p
          → finish (credit_client l envs text) x message turn id claimed s p ≡ (ok again, (t, c))
          → Backs c.1 w
      go (seen, c') e h =
          let confirmed =
            settle-Confirmed x message s t reached id turn.settled_at turn.jitter claimed w seen
              turn.settle_commit again (ap (λ q. (q.0, q.1.0)) h) before after stored found waits
              left moved in
          let shows =
            observed (credit_client l envs text) x message claimed confirmed.view d
              (ap (λ q. q.0.view) e ∙ confirmed.shown) in
          read-Backs claimed.order_id confirmed.view w c writes
            (ap (view_call l envs text claimed.order_id) (sym (ap (λ q. q.1) e ∙ ap (λ q. q.1.1) h))
              ∙ shows)
            confirmed.matching
