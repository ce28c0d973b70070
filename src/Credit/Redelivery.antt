-- ===== src/Credit/Redelivery.antt =====
-- An outcome that arrives again, or for a reservation that is terminal already.
use fo_c.Base.{
  ℕ, ◌≡◌, refl, sym, inl, inr, Bool, true, false, some, Result, ok, err, arith, Option-cases,
  Bool-cases,
}
use mathlib.Core.Path.{subst}
use fo_c.Base.Int.{ℤ}
use fo_c.Base.Dict.{lookup}
use fo_c.Credit.Types.{Reservation, ReleaseReason, RawOutcome, OrderOutcome, Error}
use fo_c.Credit.Store.{Commit, succeeds, fails, lost, Store, is_terminal, within, conclude}
use fo_c.Credit.Ensures.{Ensures}
use fo_c.Credit.Service.{Env, Library}
use fo_c.Credit.Release.{release}
use fo_c.Credit.Outcome.{
  outcome_tx, apply_outcome, apply_payout, repeat_settlement, release_reason_of, contradicts,
  other_requester, validate,
}

abbrev Unapplied : Store → Reservation × Bool → Store → Type 0
Unapplied s x v = (v ≡ s) × (x.1 ≡ false)

repeat-Unapplied :
    (r : Reservation) (o : OrderOutcome) (s : Store)
    → Ensures (Unapplied s) (repeat_settlement r o s)
unfolding repeat_settlement
repeat-Unapplied r o s = ground arith

payout-Unapplied :
    (r : Reservation) (o : OrderOutcome) (payout : ℤ → OrderOutcome → ℤ) (now db_now : ℕ)
    (s : Store)
    → is_terminal r.status ≡ true
    → Ensures (Unapplied s) (apply_payout (some r) o payout now db_now s)
unfolding apply_payout
payout-Unapplied r o payout now db_now s closed = ground (arith, repeat-Unapplied r o s)

release-Unapplied :
    (order : ℕ) (r : Reservation) (o : OrderOutcome) (now db_now : ℕ) (s : Store)
    (reason : ReleaseReason)
    → is_terminal r.status ≡ true
    → Ensures (Unapplied s) (release order (some r) reason now db_now s)
unfolding release
release-Unapplied order r o now db_now s reason closed = ground arith

outcome-Unapplied :
    (r : Reservation) (o : OrderOutcome) (payout : ℤ → OrderOutcome → ℤ) (now db_now : ℕ)
    (s : Store)
    → lookup o.order_id s.reservations ≡ some r
    → is_terminal r.status ≡ true
    → Ensures (Unapplied s) (outcome_tx o payout now db_now s)
unfolding outcome_tx
outcome-Unapplied r o payout now db_now s stored closed =
    elim (Bool-cases (other_requester (some r) o.requester_id)) [
      | inl other ↦ rw (stored, other, Ensures) tt
      | inr same ↦ elim (Option-cases (release_reason_of o.type)) [
        | inl pays ↦
            rw (stored, same, pays, stored, Ensures)
              (payout-Unapplied r o payout now db_now s closed)
        | inr (reason, releases) ↦ elim (Bool-cases (contradicts reason (some r))) [
          | inl wrong ↦ rw (stored, same, releases, stored, wrong, Ensures) tt
          | inr right ↦
              rw (stored, same, releases, stored, right, Ensures)
                (release-Unapplied o.order_id r o now db_now s reason closed)
        ]
      ]
    ]

-- Whether an outcome is reported as applied.
abbrev pub was_applied : Result Error (Reservation × Bool) → Bool
was_applied (ok a) = a.1
was_applied (err e) = false

conclude-Unapplied :
    (commit : Commit) (s : Store) (x : Result Error ((Reservation × Bool) × Store))
    → Ensures (Unapplied s) x
    → ((conclude commit s x).1 ≡ s) × (was_applied (conclude commit s x).0 ≡ false)
conclude-Unapplied succeeds s (ok (a, t)) h = h
conclude-Unapplied (fails e) s (ok (a, t)) h = (refl, refl)
conclude-Unapplied (lost e) s (ok (a, t)) h = (h.0, refl)
conclude-Unapplied succeeds s (err e) h = (refl, refl)
conclude-Unapplied (fails y) s (err e) h = (refl, refl)
conclude-Unapplied (lost y) s (err e) h = (refl, refl)

-- An outcome for a reservation that is released or settled already, a redelivered one included, leaves
-- every table as it is and is not reported as applied.
pub apply_outcome-redelivered :
    (l : Library) (payout : ℤ → OrderOutcome → ℤ) (env : Env) (o : RawOutcome) (p : OrderOutcome)
    (r : Reservation) (s : Store)
    → validate l o ≡ ok p
    → lookup p.order_id s.reservations ≡ some r
    → is_terminal r.status ≡ true
    → ((apply_outcome l payout env o s).1 ≡ s)
      × (was_applied (apply_outcome l payout env o s).0 ≡ false)
unfolding apply_outcome within
apply_outcome-redelivered l payout env o p r s valid stored closed =
    subst (λ v. ((concluded v).1 ≡ s) × (was_applied (concluded v).0 ≡ false)) (sym valid)
      (conclude-Unapplied env.commit s (outcome_tx p payout env.now env.db_now s)
        (outcome-Unapplied r p payout env.now env.db_now s stored closed))
  where
    concluded : Result Error OrderOutcome → Result Error (Reservation × Bool) × Store
    concluded (err e) = (err e, s)
    concluded (ok q) = within env.commit (outcome_tx q payout env.now env.db_now) s
