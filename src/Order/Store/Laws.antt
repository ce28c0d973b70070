-- ===== src/Order/Store/Laws.antt =====
-- What the operations of a transaction leave: which rows they found and which columns they keep.
pub mod Applied
pub mod Reads
pub mod Creations
use fo_c.Base.{
  ℕ, suc, Bool, true, false, not, ◌&&◌, ◌||◌, Option, none, some, List, [], ◌∷◌, ⊤, Result, ok, err,
  ◌≡◌, refl, ap, ◌∙◌, ◌==◌, is_some, if◌then◌else◌, Option-cases, arith,
}
use fo_c.Base.Dict.{Dict, lookup, insert}
use fo_c.Base.Transaction.{
  ◌>>=◌, ◌>>◌, Ensures, >>=-Ensures, unless-Ensures, when-Ensures, if-Ensures, Ensures-map,
}
use fo_c.Order.Types.{Order, Offer, OfferStatus}
use fo_c.Order.Facts.{Fact, OfferChange, Change}
use fo_c.Order.Workflow.{Failure, policy, CreationWorkflow}
use fo_c.Order.Store.{OutboxRow, Tx, Work}
use fo_c.Order.Store.History.{
  text_of, previous_courier, close_history, open_history, leave, join, write_history,
}
use fo_c.Order.Store.Apply.{
  insert_offer, update_offer, write_offer, write_offers, write_audit, insert_fact, write_facts,
}

-- What the rows of offers, episodes, audit and outbox leave as it is.
abbrev pub Spine : Type 0
Spine =
    Dict Order
    × (ℕ → Option CreationWorkflow)
    × (ℕ → Option ℕ)
    × (ℕ → Option CreationWorkflow)
    × (ℕ → Bool)

abbrev pub spine : Tx → Spine
spine t =
    (t.tables.orders, t.tables.creations, t.tables.creation_orders, t.creation_baselines, t.applied)

abbrev pub Keeps : {A : Type 0} → Tx → A → Tx → Type 0
Keeps t u t' = spine t' ≡ spine t

module _ {A B : Type 0} where
  pub >>=-Keeps :
      (m : Work A) (k : A → Work B) (t : Tx)
      → Ensures (Keeps t) (m t)
      → ((a : A) (t' : Tx) → Ensures (Keeps t') (k a t'))
      → Ensures (Keeps t) ((m >>= k) t)
  >>=-Keeps m k t p q =
      >>=-Ensures (Keeps t) (Keeps t) m k t p
        (λ a t' e. Ensures-map (k a t') (λ b t'' d. d ∙ e) (q a t'))

pub >>-Keeps :
    (m k : Work ⊤) (t : Tx)
    → Ensures (Keeps t) (m t)
    → ((t' : Tx) → Ensures (Keeps t') (k t'))
    → Ensures (Keeps t) ((m >> k) t)
>>-Keeps m k t p q = >>=-Keeps m (λ u. k) t p (λ u. q)

close_history-Keeps :
    (courier : ℕ) (c : Change) (t : Tx) → Ensures (Keeps t) (close_history courier c t)
unfolding close_history
close_history-Keeps courier c t = ground arith

open_history-Keeps :
    (courier : ℕ) (c : Change) (t : Tx) → Ensures (Keeps t) (open_history courier c t)
unfolding open_history
open_history-Keeps courier c t = ground arith

leave-Keeps : (previous : ℕ) (c : Change) (t : Tx) → Ensures (Keeps t) (leave previous c t)
unfolding leave
leave-Keeps previous c t = ground (arith, close_history-Keeps previous c t)

join-Keeps : (next : ℕ) (c : Change) (t : Tx) → Ensures (Keeps t) (join next c t)
unfolding join
join-Keeps next c t = ground (arith, open_history-Keeps next c t)

pub write_history-Keeps :
    (before : Option Order) (c : Change) (t : Tx) → Ensures (Keeps t) (write_history before c t)
unfolding write_history
write_history-Keeps before c t =
    let previous = previous_courier before in
    let next = text_of c.order.courier_id in
    let moved =
      >>-Keeps (leave previous c) (join next c) t (leave-Keeps previous c t) (join-Keeps next c) in
    ground (arith, moved)

insert_offer-Keeps : (f : Offer) (t : Tx) → Ensures (Keeps t) (insert_offer f t)
unfolding insert_offer
insert_offer-Keeps f t = ground arith

update_offer-Keeps :
    (f : Offer) (status : OfferStatus) (t : Tx) → Ensures (Keeps t) (update_offer f status t)
unfolding update_offer
update_offer-Keeps f status t = ground arith

write_offer-Keeps :
    (id : ℕ) (change : OfferChange) (t : Tx) → Ensures (Keeps t) (write_offer id change t)
unfolding write_offer
write_offer-Keeps id change t = elim change.expected_status [
  | none ↦ ground (arith, insert_offer-Keeps change.offer t)
  | some status ↦ ground (arith, update_offer-Keeps change.offer status t)
]

pub write_offers-Keeps :
    (id : ℕ) (changes : List OfferChange) (t : Tx) → Ensures (Keeps t) (write_offers id changes t)
unfolding write_offers
write_offers-Keeps id [] t = refl
write_offers-Keeps id (change ∷ changes) t =
    >>-Keeps (write_offer id change) (write_offers id changes) t (write_offer-Keeps id change t)
      (write_offers-Keeps id changes)

pub write_audit-Keeps : (c : Change) (t : Tx) → Ensures (Keeps t) (write_audit c t)
unfolding write_audit
write_audit-Keeps c t = ground arith

insert_fact-Keeps : (row : OutboxRow) (t : Tx) → Ensures (Keeps t) (insert_fact row t)
unfolding insert_fact
insert_fact-Keeps row t = ground arith

pub write_facts-Keeps :
    (o : Order) (i : ℕ) (facts : List Fact) (t : Tx) → Ensures (Keeps t) (write_facts o i facts t)
unfolding write_facts
write_facts-Keeps o i [] t = refl
write_facts-Keeps o i (f ∷ fs) t =
    let row : OutboxRow = record {
      order_id = o.id;
      revision = o.revision;
      ordinal = i;
      fact = f;
    } in
    >>-Keeps (insert_fact row) (write_facts o (suc i) fs) t (insert_fact-Keeps row t)
      (write_facts-Keeps o (suc i) fs)
