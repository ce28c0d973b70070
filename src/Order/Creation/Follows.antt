-- ===== src/Order/Creation/Follows.antt =====
-- How a creation workflow may develop: its intent is fixed, its generation grows, an abort is never
-- undone and a resolved workflow stays as it is.
use fo_c.Base.{
  ℕ, ◌≤◌, ◌≡◌, ◌⊎◌, inl, inr, refl, sym, ap, ◌∙◌, true, none, some, ◌==◌, arith, Bool-cases,
}
use mathlib.Core.Path.{subst}
use fo_c.Base.Dict.{put, put-at, put-off}
use fo_c.Order.Workflow.{
  CreationPhase, abort_pending, creation_rejected, is_resolved_phase, CreationWorkflow, intent,
}
use fo_c.Order.Store.{Tables}
use fo_c.Order.Store.Creations.{may_follow, progressed}
use fo_c.Order.Creation.Linked.{Linked, some_injective, same_key}

pub record Follows (w w' : CreationWorkflow) : Type 0 where
  pub same_id : w'.id ≡ w.id
  pub same_hash : w'.hash ≡ w.hash
  pub same_intent : intent w' ≡ intent w
  pub grows : w.generation ≤ w'.generation
  pub stays : is_resolved_phase w.phase ≡ true → w' ≡ w
  pub fenced : w.phase ≡ abort_pending → (w'.phase ≡ abort_pending) ⊎ (w'.phase ≡ creation_rejected)

pub Follows-refl : (w : CreationWorkflow) → Follows w w
Follows-refl w = record {
  same_id = refl;
  same_hash = refl;
  same_intent = refl;
  grows = omega arith;
  stays = λ h. refl;
  fenced = λ h. inl h;
}

rejected-resolved : (p : CreationPhase) → p ≡ creation_rejected → is_resolved_phase p ≡ true
rejected-resolved p h = ap is_resolved_phase h

pub Follows-trans : {u v w : CreationWorkflow} → Follows u v → Follows v w → Follows u w
Follows-trans {u} {v} {w} p q = record {
  same_id = q.same_id ∙ p.same_id;
  same_hash = q.same_hash ∙ p.same_hash;
  same_intent = q.same_intent ∙ p.same_intent;
  grows = let g = p.grows in let h = q.grows in omega arith;
  stays =
      λ h. let same = p.stays h in q.stays (ap (λ a. is_resolved_phase a.phase) same ∙ h) ∙ same;
  fenced = λ h. elim (p.fenced h) [
    | inl pending ↦ q.fenced pending
    | inr rejected ↦
        inr (ap (λ a. a.phase) (q.stays (rejected-resolved v.phase rejected)) ∙ rejected)
  ];
}

-- The guard of `SaveCreation` lets a workflow develop in no other way.
pub may_follow-Follows :
    (w next : CreationWorkflow) (expected : ℕ)
    → may_follow w next expected ≡ true
    → Follows w (progressed w next)
unfolding may_follow
may_follow-Follows w next expected h = record {
  same_id = refl;
  same_hash = refl;
  same_intent = refl;
  grows = ground arith;
  stays = λ resolved. absurd (ground arith);
  fenced = λ pending. ground arith;
}

-- Every workflow is still there, and follows what it was.
abbrev pub Extends : Tables → Tables → Type 0
Extends s s' =
    (id : ℕ)
    → (w : CreationWorkflow) → s.creations id ≡ some w
    → (w' : CreationWorkflow) × (s'.creations id ≡ some w') × Follows w w'

pub same-Extends : (s s' : Tables) → s'.creations ≡ s.creations → Extends s s'
same-Extends s s' e id w h = (w, ap (λ f. f id) e ∙ h, Follows-refl w)

present_absent : {A : Type 0} {a : A} → some a ≡ none → ⊥
present_absent h = cc

-- A write of one workflow
pub write-Extends :
    (s s' : Tables) (id : ℕ) (w next : CreationWorkflow)
    → s.creations id ≡ some w
    → s'.creations ≡ put id next s.creations
    → Follows w next
    → Extends s s'
write-Extends s s' id w next found creations follows j v h = elim (Bool-cases (j == id)) [
  | inl same ↦
      let key = same_key j id same in
      let is_w = some_injective (sym found ∙ ap s.creations (sym key) ∙ h) in
      (
        next,
        ap (λ f. f j) creations ∙ put-at id j next s.creations same,
        subst (λ u. Follows u next) is_w follows,
      )
  | inr other ↦
      (v, ap (λ f. f j) creations ∙ put-off id j next s.creations other ∙ h, Follows-refl v)
]

-- A write of a workflow that was not there
pub insert-Extends :
    (s s' : Tables) (id : ℕ) (next : CreationWorkflow)
    → s.creations id ≡ none
    → s'.creations ≡ put id next s.creations
    → Extends s s'
insert-Extends s s' id next absent creations j v h = elim (Bool-cases (j == id)) [
  | inl same ↦ absurd (present_absent (sym h ∙ ap s.creations (same_key j id same) ∙ absent))
  | inr other ↦
      (v, ap (λ f. f j) creations ∙ put-off id j next s.creations other ∙ h, Follows-refl v)
]

pub Extends-trans : (s t u : Tables) → Extends s t → Extends t u → Extends s u
Extends-trans s t u p q id w h =
    let (v, found, follows) = p id w h in
    let (v', found', follows') = q id v found in (v', found', Follows-trans follows follows')

-- What a transaction that started on `s` leaves.
pub record Advances (s s' : Tables) : Type 0 where
  pub linked : Linked s'
  pub extends : Extends s s'

pub Advances-refl : (s : Tables) → Linked s → Advances s s
Advances-refl s linked = record { linked = linked; extends = same-Extends s s refl }
