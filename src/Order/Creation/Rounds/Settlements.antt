-- ===== src/Order/Creation/Rounds/Settlements.antt =====
-- What a settlement does about an abort.
use fo_c.Base.{
  ℕ, ◌≡◌, refl, sym, ap, ◌∙◌, Bool, true, false, Option, none, some, Result, ok, err, ⊤, ◌==◌,
  arith,
}
use fo_c.Base.Dict.{put-at}
use fo_c.Base.Transaction.{Ensures, Ensures-map, >>=-Ensures, from_result, pure, ◌>>=◌, ◌>>◌}
use fo_c.Order.Types.{Order, OrderError, Texts}
use fo_c.Order.Facts.{Change}
use fo_c.Order.Workflow.{Failure, CreationRejection, abort_pending, CreationWorkflow}
use fo_c.Order.Store.{Tables, Tx, Work, begin}
use fo_c.Order.Store.Apply.{apply}
use fo_c.Order.Store.Mutate.{lift, apply_some}
use fo_c.Order.Store.Creations.{save_creation, progressed, store_creation}
use fo_c.Order.Store.Laws.Creations.{Saved, save_creation-Saved}
use fo_c.Order.Creation.{
  Observation, Verdict, keeps, aborts, opens, rejects, verdict, verdict_change, decided,
  settled_version, is_abort, is_superseded, settle_current, settle,
}
use fo_c.Order.Creation.Linked.{Linked}
use fo_c.Order.Creation.Held.{Held, Saved-row}
use fo_c.Order.Creation.Verdicts.{decided-id}
use fo_c.Order.Creation.Settlement.{settle-Ensures}
use fo_c.Order.Creation.Rounds.Claims.{Aborting}

-- A workflow whose abort is pending is never aborted again.
verdict-aborting :
    (x : Texts) (message : CreationRejection → ℕ) (now : ℕ) (seen : Observation)
    (w : CreationWorkflow)
    → w.phase ≡ abort_pending
    → is_abort x message (verdict now seen w) ≡ false
unfolding verdict
verdict-aborting x message now seen w pending = ground arith

changing-no_abort :
    (x : Texts) (message : CreationRejection → ℕ) (now : ℕ) (o : Order) (w : CreationWorkflow)
    (v : Verdict) (c : Change)
    → verdict_change x message now o w v ≡ ok (some c)
    → is_abort x message v ≡ false
unfolding verdict_change
changing-no_abort x message now o w keeps c h = refl
changing-no_abort x message now o w aborts c h = absurd (cc)
changing-no_abort x message now o w opens c h = refl
changing-no_abort x message now o w (rejects r) c h = refl

aborting_version :
    (x : Texts) (message : CreationRejection → ℕ) (now : ℕ) (o : Order) (w : CreationWorkflow)
    (v : Verdict)
    → is_abort x message v ≡ true
    → (decided x message now o w v).phase ≡ abort_pending
aborting_version x message now o w keeps h = absurd (cc)
aborting_version x message now o w aborts h = refl
aborting_version x message now o w opens h = absurd (cc)
aborting_version x message now o w (rejects r) h = absurd (cc)

true-false : true ≡ false → ⊥
true-false h = cc

anything : {A : Type 0} (r : Result Failure (A × Tx)) → Ensures (λ a t. ⊤) r
anything (ok (a, t)) = tt
anything (err e) = tt

found_at : {i j : ℕ} → i ≡ j → j == i ≡ true
found_at h = ground arith

same_phase :
    (now : ℕ) (claimed w : CreationWorkflow)
    → is_superseded now claimed w ≡ false
    → claimed.phase ≡ abort_pending
    → w.phase ≡ abort_pending
same_phase now claimed w own pending = ground arith

module _ (x : Texts) (message : CreationRejection → ℕ) (s : Tables) (linked : Linked s)
    (id : ℕ) where
  module _ (now jitter : ℕ) (seen : Observation) (o : Order) (w : CreationWorkflow) where
    abbrev again : Bool
    again = is_abort x message (verdict now seen w)

    abbrev version : CreationWorkflow
    version =
        settled_version x message now jitter seen (verdict now seen w)
          (decided x message now o w (verdict now seen w))

    -- The settlement asks for another pass where its verdict aborts.
    abbrev pub Asks : Bool → Tx → Type 0
    Asks b t = b ≡ again

    save-Asks : (t : Tx) → Ensures Asks ((save_creation version w.generation >> pure again) t)
    save-Asks t =
        >>=-Ensures (λ u t'. Saved version w.generation t t') Asks
          (save_creation version w.generation) (λ u. pure again) t
          (save_creation-Saved version w.generation t) (λ u t' saved. refl)

    -- Where it asks for another pass, it has stored an abort.
    abbrev pub StoresAbort : Bool → Tx → Type 0
    StoresAbort b t = b ≡ true → Aborting t.tables id

    save-StoresAbort :
        (t : Tx)
        → Held s id o w t
        → Ensures StoresAbort ((save_creation version w.generation >> pure again) t)
    save-StoresAbort t held =
        >>=-Ensures (λ u t'. Saved version w.generation t t') StoresAbort
          (save_creation version w.generation) (λ u. pure again) t
          (save_creation-Saved version w.generation t)
          (λ u t' saved asks.
            let same = held.same_tables in
            let (key, index) = linked.indexed id w held.found in
            let row =
              Saved-row s linked id w version held.found
                (decided-id x message now o w (verdict now seen w)) t (ap (λ q. q.creations) same)
                (ap (λ q. q.creation_orders) same) held.is_baseline w.generation t' saved in
            (
              progressed w version,
              ap (λ q. q.tables.creations id)
                    (saved.stored ∙ ap (λ v. store_creation (progressed v version) t) row)
                  ∙ put-at w.order_id id (progressed w version) t.tables.creations (found_at key),
              aborting_version x message now o w (verdict now seen w) asks,
            ))

    abbrev finish : Option Change → Work Bool
    finish change = apply_some x change >> (save_creation version w.generation >> pure again)

    apply-Asks : (c : Change) (t : Tx) → Ensures Asks (finish (some c) t)
    apply-Asks c t =
        >>=-Ensures (λ u t'. ⊤) Asks (apply x c)
          (λ u. save_creation version w.generation >> pure again) t (anything (apply x c t))
          (λ u t' h. save-Asks t')

    pub settle_current-StoresAbort :
        (t : Tx)
        → Held s id o w t
        → Ensures StoresAbort (settle_current x message now jitter seen o w t)
    settle_current-StoresAbort t held =
        go (verdict_change x message now o w (verdict now seen w)) refl
      where
        go :
            (r : Result OrderError (Option Change))
            → verdict_change x message now o w (verdict now seen w) ≡ r
            → Ensures StoresAbort ((from_result (lift r) >>= finish) t)
        go (err e) h = tt
        go (ok none) h = save-StoresAbort t held
        go (ok (some c)) h =
            Ensures-map (finish (some c) t)
              (λ b t' asks is_true. absurd (
                true-false (
                  sym is_true
                  ∙ asks
                  ∙ changing-no_abort x message now o w (verdict now seen w) c h)))
              (apply-Asks c t)

    pub settle_current-Asks :
        (t : Tx) → Ensures Asks (settle_current x message now jitter seen o w t)
    settle_current-Asks t = go (verdict_change x message now o w (verdict now seen w))
      where
        go :
            (r : Result OrderError (Option Change))
            → Ensures Asks ((from_result (lift r) >>= finish) t)
        go (err e) = tt
        go (ok none) = save-Asks t
        go (ok (some c)) = apply-Asks c t

  -- A settlement that asks for another pass has stored an abort.
  pub settle-StoresAbort :
      (now jitter : ℕ) (claimed : CreationWorkflow) (seen : Observation)
      → Ensures
          (λ b t. b ≡ true → Aborting t.tables id)
          (settle x message id now jitter claimed seen (begin s))
  settle-StoresAbort now jitter claimed seen =
      settle-Ensures x message s linked id now jitter claimed seen
        (λ b t. b ≡ true → Aborting t.tables id) (λ o w t held old is_true. absurd (cc))
        (λ o w t held own waits. settle_current-StoresAbort now jitter seen o w t held)

  -- The settlement of a claimed abort asks for no other pass.
  pub settle-Ends :
      (now jitter : ℕ) (claimed : CreationWorkflow) (seen : Observation)
      → claimed.phase ≡ abort_pending
      → Ensures (λ b t. b ≡ false) (settle x message id now jitter claimed seen (begin s))
  settle-Ends now jitter claimed seen pending =
      settle-Ensures x message s linked id now jitter claimed seen (λ b t. b ≡ false)
        (λ o w t held old. refl)
        (λ o w t held own waits.
          Ensures-map (settle_current x message now jitter seen o w t)
            (λ b t' asks.
              asks ∙ verdict-aborting x message now seen w (same_phase now claimed w own pending))
            (settle_current-Asks now jitter seen o w t))
