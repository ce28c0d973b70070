-- ===== src/Order/Creation/Confirmed.antt =====
-- What a settlement that opens an order rests on.
use fo_c.Base.{
  ℕ, ◌≡◌, refl, sym, ap, ◌∙◌, Bool, true, false, Option, none, some, Result, ok, err, arith, leb,
}
use mathlib.Core.Path.{subst}
use fo_c.Base.Dict.{lookup, lookup-insert_self}
use fo_c.Base.Transaction.{Ensures, Ensures-map, >>=-Ensures, from_result, pure, ◌>>=◌, ◌>>◌}
use fo_c.Order.Types.{
  Status, pending_reservation, awaiting_courier, rejected, confirm_reservation, refuse_reservation,
  eqb_status, Order, OrderError, Texts,
}
use fo_c.Order.Facts.{Change, new_change}
use fo_c.Order.Audit.{new_change-IsBuilt}
use fo_c.Order.Workflow.{
  Failure, CreationRejection, ReservationView, abort_pending, eqb_phase, CreationWorkflow,
}
use fo_c.Order.Store.{Tables, Tx, within}
use fo_c.Order.Store.Apply.{apply}
use fo_c.Order.Store.Mutate.{lift, apply_some}
use fo_c.Order.Store.Creations.{save_creation}
use fo_c.Order.Store.Laws.Applied.{apply-Applied, IsRow, is_new, is_update}
use fo_c.Order.Store.Laws.Creations.{save_creation-Saved}
use fo_c.Order.Creation.{
  Observation, Verdict, keeps, aborts, opens, rejects, verdict, verdict_change, decided,
  settled_version, is_abort, is_matching_hold, shows_hold, settle_current, settle, opened_order,
  rejected_order, system_actor,
}
use fo_c.Order.Creation.Linked.{Linked, some_injective}
use fo_c.Order.Creation.Held.{Held}
use fo_c.Order.Creation.Verdicts.{built-ok, row-status, verdict_change-fits}
use fo_c.Order.Creation.Settlement.{settle-Ensures}
use fo_c.Order.Creation.Rounds.Claims.{within-Ensures}
use fo_c.Order.Creation.Run.{Run, run-Advances, empty, empty-Linked}

-- What an order's opening rests on.
pub record Confirmed (now : ℕ) (seen : Observation) (w : CreationWorkflow) (o : Order)
    : Type 0 where
  pub view : ReservationView
  pub shown : seen.view ≡ some view
  pub matching : is_matching_hold view w ≡ true
  pub in_time : leb w.expires_at now ≡ false
  pub not_aborting : eqb_phase w.phase abort_pending ≡ false
  pub amount : o.reserved_credits ≡ w.amount

pending_open : (p : Status) → eqb_status p pending_reservation ≡ true → p ≡ awaiting_courier → ⊥
pending_open p waits moved = ground arith

shown_hold :
    (o : Option ReservationView) (w : CreationWorkflow)
    → shows_hold o w ≡ true
    → (v : ReservationView) × (o ≡ some v) × (is_matching_hold v w ≡ true)
shown_hold none w h = absurd (cc)
shown_hold (some v) w h = (v, refl, h)

verdict-opens :
    (now : ℕ) (seen : Observation) (w : CreationWorkflow)
    → verdict now seen w ≡ opens
    → (shows_hold seen.view w ≡ true)
      × (leb w.expires_at now ≡ false)
      × (eqb_phase w.phase abort_pending ≡ false)
unfolding verdict
verdict-opens now seen w h = (ground arith, ground arith, ground arith)

row-reserved :
    (c : Change) (found : Option Order) (row : Order)
    → IsRow c found row
    → row.reserved_credits ≡ c.order.reserved_credits
row-reserved c found row (is_new first absent) = refl
row-reserved c found row (is_update old later at) = refl

-- The verdict whose change leads to an open order opens it, with the amount of the workflow.
change-opens :
    (x : Texts) (message : CreationRejection → ℕ) (now : ℕ) (o : Order) (w : CreationWorkflow)
    (v : Verdict) (c : Change)
    → verdict_change x message now o w v ≡ ok (some c)
    → c.order.status ≡ awaiting_courier
    → (v ≡ opens) × (c.order.reserved_credits ≡ w.amount)
unfolding verdict_change
change-opens x message now o w keeps c h moved = absurd (cc)
change-opens x message now o w aborts c h moved = absurd (cc)
change-opens x message now o w opens c h moved =
    let after = opened_order now w.amount o in
    (
      refl,
      ap (λ q. q.reserved_credits)
          (new_change-IsBuilt x (some o) after system_actor confirm_reservation 0 c (
            built-ok (new_change x (some o) after system_actor confirm_reservation 0) c
              h)).is_after,
    )
change-opens x message now o w (rejects r) c h moved =
    let after = rejected_order now (message r) o in
    absurd (
      not_awaiting (
        sym (
          ap (λ q. q.status)
            (new_change-IsBuilt x (some o) after system_actor refuse_reservation 0 c (
              built-ok (new_change x (some o) after system_actor refuse_reservation 0) c
                h)).is_after)
        ∙ moved))
  where
    not_awaiting : rejected ≡ awaiting_courier → ⊥
    not_awaiting h = cc

module _ (x : Texts) (message : CreationRejection → ℕ) (s : Tables) (linked : Linked s)
    (id now jitter : ℕ) (seen : Observation) where
  -- Where the order is open after the settlement of `w`, the opening is confirmed.
  abbrev pub OpensConfirmed : CreationWorkflow → {A : Type 0} → A → Tx → Type 0
  OpensConfirmed w a t =
      (o : Order)
      → lookup id t.tables.orders ≡ some o
      → o.status ≡ awaiting_courier
      → Confirmed now seen w o

  module _ (o : Order) (w : CreationWorkflow)
      (waits : eqb_status o.status pending_reservation ≡ true) where
    kept-Confirmed : (t : Tx) → lookup id t.tables.orders ≡ some o → OpensConfirmed w tt t
    kept-Confirmed t found q at moved =
        absurd (
          pending_open o.status waits
            (ap (λ p. p.status) (some_injective (sym found ∙ at)) ∙ moved))

    applied-Confirmed :
        (c : Change) (t : Tx)
        → Held s id o w t
        → verdict_change x message now o w (verdict now seen w) ≡ ok (some c)
        → Ensures (OpensConfirmed w) (apply x c t)
    applied-Confirmed c t held h =
        Ensures-map (apply x c t)
          (λ u t' done q at moved.
            let (row, is_row, e) = done.stored in
            let key =
              (verdict_change-fits x message now o w (verdict now seen w) c h).0
              ∙ linked.keyed id o held.order_found in
            let is_q : row ≡ q = some_injective (
              sym (lookup-insert_self c.order.id row t.tables.orders)
              ∙ sym (ap (λ p. lookup c.order.id p.0) e)
              ∙ ap (λ k. lookup k t'.tables.orders) key
              ∙ at) in
            let (row_id, status) = row-status c (lookup c.order.id t.tables.orders) row is_row in
            let reserved = row-reserved c (lookup c.order.id t.tables.orders) row is_row in
            let (is_open, amount) =
              change-opens x message now o w (verdict now seen w) c h
                (sym status ∙ ap (λ p. p.status) is_q ∙ moved) in
            let (shows, in_time, not_aborting) = verdict-opens now seen w is_open in
            let (view, shown, matching) = shown_hold seen.view w shows in
            record {
              view = view;
              shown = shown;
              matching = matching;
              in_time = in_time;
              not_aborting = not_aborting;
              amount = ap (λ p. p.reserved_credits) (sym is_q) ∙ reserved ∙ amount;
            })
          (apply-Applied x c t)

    abbrev version : CreationWorkflow
    version =
        settled_version x message now jitter seen (verdict now seen w)
          (decided x message now o w (verdict now seen w))

    save-Confirmed :
        (again : Bool) (t : Tx)
        → OpensConfirmed w tt t
        → Ensures (OpensConfirmed w) ((save_creation version w.generation >> pure again) t)
    save-Confirmed again t confirmed =
        >>=-Ensures (OpensConfirmed w) (OpensConfirmed w) (save_creation version w.generation)
          (λ u. pure again) t
          (Ensures-map (save_creation version w.generation t)
            (λ u t' saved. subst (λ q. OpensConfirmed w tt q) (sym saved.stored) confirmed)
            (save_creation-Saved version w.generation t))
          (λ u t' h. h)

    settle_current-Confirmed :
        (t : Tx)
        → Held s id o w t
        → Ensures (OpensConfirmed w) (settle_current x message now jitter seen o w t)
    settle_current-Confirmed t held =
        go (verdict_change x message now o w (verdict now seen w)) refl
      where
        again : Bool
        again = is_abort x message (verdict now seen w)

        go :
            (r : Result OrderError (Option Change))
            → verdict_change x message now o w (verdict now seen w) ≡ r
            → Ensures (OpensConfirmed w) (
                (from_result (lift r) >>= λ change.
                apply_some x change >> (save_creation version w.generation >> pure again))
                  t)
        go (err e) h = tt
        go (ok none) h =
            save-Confirmed again t
              (kept-Confirmed t (ap (λ q. lookup id q.orders) held.same_tables ∙ held.order_found))
        go (ok (some c)) h =
            >>=-Ensures (OpensConfirmed w) (OpensConfirmed w) (apply x c)
              (λ u. save_creation version w.generation >> pure again) t
              (applied-Confirmed c t held h) (λ u t'. save-Confirmed again t')

-- On any reachable tables, a settlement that succeeded and left an order open that awaited its
-- reservation rests on a view of its reservation that is held, of the order and the requester and of
-- exactly the amount of its workflow, before the deadline and with no abort pending. The order then
-- holds that amount.
pub settle-Confirmed :
    (x : Texts) (message : CreationRejection → ℕ) (s s' : Tables)
    → Run empty s
    → (id now jitter : ℕ) (claimed w : CreationWorkflow) (seen : Observation)
    → (commit : Option Failure) (again : Bool)
    → within commit (settle x message id now jitter claimed seen) s ≡ (ok again, s')
    → (before after : Order) → s.creations id ≡ some w
    → lookup id s.orders ≡ some before
    → eqb_status before.status pending_reservation ≡ true
    → lookup id s'.orders ≡ some after
    → after.status ≡ awaiting_courier
    → Confirmed now seen w after
settle-Confirmed x message s s' reached id now jitter claimed w seen commit again e before after
      found there waits left moved =
    let linked = (run-Advances empty s empty-Linked reached).linked in
    let Q : Bool → Tx → Type 0 =
      λ b t. OpensConfirmed x message s linked id now jitter seen w b t in
    let (t, tables, confirms) =
      within-Ensures Q commit (settle x message id now jitter claimed seen) s
        (settle-Ensures x message s linked id now jitter claimed seen Q
          (λ o v t held old q at opened. absurd (
            pending_open before.status waits (
              ap (λ p. p.status)
                (some_injective
                  (sym there ∙ ap (λ r. lookup id r.orders) (sym held.same_tables) ∙ at))
              ∙ opened)))
          (λ o v t held own waits'.
            subst
              (λ u.
                Ensures (λ b r. OpensConfirmed x message s linked id now jitter seen u b r)
                  (settle_current x message now jitter seen o v t))
              (some_injective (sym held.found ∙ found))
              (settle_current-Confirmed x message s linked id now jitter seen o v waits' t held)))
        again s' e in
    confirms after (ap (λ r. lookup id r.orders) tables ∙ left) moved
