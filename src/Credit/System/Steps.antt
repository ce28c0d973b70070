-- ===== src/Credit/System/Steps.antt =====
-- A property of the tables that each single write keeps is kept by every call.
pub mod Endings
use fo_c.Base.{
  ◌||◌, not, is_some, eqb_option, ℕ, ◌≡◌, refl, Bool, true, false, Option, none, some, List, [],
  ◌∷◌, ok, err, arith, Option-cases, inl, inr, if◌then◌else◌, ⊤,
}
use fo_c.Base.Int.{ℤ, ◌-ℤ◌, ltb_ℤ}
use fo_c.Base.Dict.{lookup}
use fo_c.Credit.Types.{
  is_reverted, Error, Status, Assignment, Entry, insufficient, produced, invalid_argument,
  adjustment_reverted, adjustment_pending, reservation_settled, Reservation, MutationResult,
  ReleaseReason, OrderOutcome, released, settled, held, assigned,
}
use fo_c.Credit.Store.{
  Store, Action, pure, fail, ◌>>=◌, ◌>>◌, post_entry, post, grant_entry, insert_account,
  lock_account, open_account, open_all, lock_accounts, insert_reservation, update_reservation,
  insert_assignment, revert_assignment, compact, sort, get_reservation, get_assignment,
}
use fo_c.Credit.Ensures.{Ensures, >>=-Ensures}
use fo_c.Credit.Service.{reverted_row}
use fo_c.Credit.Keeps.{IgnoresOperations}
use fo_c.Credit.Operations.{
  is_assigned, available_of, reserve_tx, reserve_new, new_reservation, hold_entry, requester_of,
  offer_row, adjustment_entry, require_open, adjust_tx, apply_offer,
}
use fo_c.Credit.Release.{
  is_settled, reverted_tombstone, reversal_entry, released_version, return_entry,
  released_tombstone, revert_tx, revert_found, undo_offer, release_tx, release, return_hold,
}
use fo_c.Credit.Outcome.{outcome_tx, apply_payout, settle, pay_out, repeat_settlement}
use fo_c.Credit.System.Keeping.{Keeps, KeptByActions}

-- What the writes keep that the transactions are made of.
pub record KeptByWrites (P : Store → Type 0) : Type 0 where
  pub ignores : IgnoresOperations P
  pub by_account : (user : ℕ) → Keeps P (insert_account user)
  pub by_post : (e : Entry) → Keeps P (post_entry e)
  pub by_insert : (r : Reservation) → Keeps P (insert_reservation r)
  pub by_update :
      (db_now : ℕ) (r : Reservation) (expected : ℕ) → Keeps P (update_reservation db_now r expected)
  pub by_offer : (a : Assignment) → Keeps P (insert_assignment a)
  pub by_undo : (order id at : ℕ) → Keeps P (revert_assignment order id at)

module _ (P : Store → Type 0) where
  pub both :
      {A B : Type 0} (m : Action A) (f : A → Action B)
      → Keeps P m
      → ((a : A) → Keeps P (f a))
      → Keeps P (m >>= f)
  both m f h k s p = >>=-Ensures (λ _ v. P v) (λ _ v. P v) m f s (h s p) (λ a t q. k a t q)

  pub either :
      {A : Type 0} (c : Bool) (m n : Action A)
      → Keeps P m
      → Keeps P n
      → Keeps P (if c then m else n)
  either true m n h k = h
  either false m n h k = k

module _ (P : Store → Type 0) where
  pub returns : {A : Type 0} (a : A) → Keeps P (pure a)
  returns a s p = p

  pub fails : (A : Type 0) (e : Error) → Keeps P (fail {A = A} e)
  fails A e s p = tt

module _ (P : Store → Type 0) (kept : KeptByWrites P) where
  pub post-keeps : (es : List Entry) → Keeps P (post es)
  unfolding post
  post-keeps [] s p = p
  post-keeps (e ∷ es) s p =
      both P (post_entry e) (λ _. post es) (kept.by_post e) (λ _. post-keeps es) s p

  grant-keeps :
      (user : ℕ) (created : Bool)
      → Keeps P (if created then post_entry (grant_entry user) else pure tt)
  grant-keeps user true = kept.by_post (grant_entry user)
  grant-keeps user false = returns P tt

  pub open-keeps : (user : ℕ) → Keeps P (open_account user)
  unfolding open_account
  open-keeps user = both P (insert_account user) _ (kept.by_account user) (λ created.
      both P (if created then post_entry (grant_entry user) else pure tt) (λ _. lock_account user)
        (grant-keeps user created) (λ _ s p. ground arith))

  open_all-keeps : (users : List ℕ) → Keeps P (open_all users)
  unfolding open_all
  open_all-keeps [] s p = p
  open_all-keeps (u ∷ us) s p =
      both P (open_account u) _ (open-keeps u)
        (λ a. both P (open_all us) _ (open_all-keeps us) (λ rest t q. q)) s p

  pub lock-keeps : (users : List ℕ) → Keeps P (lock_accounts users)
  unfolding lock_accounts
  lock-keeps users = open_all-keeps (compact (sort users))

  reserve_new-keeps :
      (order requester : ℕ) (amount : ℤ) (now : ℕ)
      → Keeps P (reserve_new order requester amount now)
  unfolding reserve_new
  reserve_new-keeps order requester amount now =
      both P (lock_accounts (requester ∷ [])) _ (lock-keeps (requester ∷ [])) (λ accounts.
        either P (ltb_ℤ (available_of accounts requester) amount) (pure insufficient) _
          (returns P insufficient)
          (both P (insert_reservation (new_reservation order requester amount now)) _
            (kept.by_insert (new_reservation order requester amount now))
            (λ next.
              both P (post (hold_entry order requester amount ∷ [])) (λ _. pure (produced next))
                (post-keeps (hold_entry order requester amount ∷ []))
                (λ _. returns P (produced next)))))

  pub reserve-keeps :
      (order requester : ℕ) (amount : ℤ) (now : ℕ) → Keeps P (reserve_tx order requester amount now)
  unfolding reserve_tx
  reserve-keeps order requester amount now s p = elim (Option-cases (lookup order s.reservations)) [
    | inl new ↦ rw (new, Ensures) (reserve_new-keeps order requester amount now s p)
    | inr (r, old) ↦ rw (old, Ensures) tt
  ]

  apply_offer-keeps :
      (r : Reservation) (id courier : ℕ) (offer : ℤ) (now db_now : ℕ)
      → Keeps P (apply_offer r id courier offer now db_now)
  unfolding apply_offer
  apply_offer-keeps r id courier offer now db_now =
      both P (requester_of r) _ (λ s p. ground arith)
        (λ requester.
          both P (lock_accounts (requester ∷ [])) _ (lock-keeps (requester ∷ [])) (λ accounts.
            either P (ltb_ℤ (available_of accounts requester) (offer -ℤ r.reserved_amount))
              (pure insufficient) _ (returns P insufficient)
              (both P (insert_assignment (offer_row r.order_id id courier offer now)) _
                (kept.by_offer (offer_row r.order_id id courier offer now))
                (λ _.
                  both P
                    (update_reservation db_now
                      (record r {
                        status = assigned;
                        reserved_amount = offer;
                        assignment_id = some id;
                      })
                      r.revision)
                    _
                    (kept.by_update db_now
                      (record r {
                        status = assigned;
                        reserved_amount = offer;
                        assignment_id = some id;
                      })
                      r.revision)
                    (λ next.
                      both P _ (λ _. pure (produced next))
                        (post-keeps (
                          adjustment_entry r.order_id id requester (offer -ℤ r.reserved_amount)
                          ∷ []))
                        (λ _. returns P (produced next)))))))

  pub adjust-keeps :
      (order id courier : ℕ) (offer : ℤ) (now db_now : ℕ)
      → Keeps P (adjust_tx order id courier offer now db_now)
  unfolding adjust_tx
  adjust-keeps order id courier offer now db_now =
      both P (get_reservation order) _ (λ s p. p)
        (λ found.
          both P (require_open found) _ (λ s p. ground arith)
            (λ r.
              either P (ltb_ℤ offer r.original_amount) (fail invalid_argument) _
                (fails P MutationResult invalid_argument)
                (both P (get_assignment order id) _ (λ s p. p)
                  (λ a.
                    either P (reverted_row a) (fail adjustment_reverted) _
                      (fails P MutationResult adjustment_reverted)
                      (either P (is_some a || is_assigned r.status) (fail adjustment_pending) _
                        (fails P MutationResult adjustment_pending)
                        (apply_offer-keeps r id courier offer now db_now))))))
