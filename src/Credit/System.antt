-- ===== src/Credit/System.antt =====
-- The credit service as a whole: every command that it takes, over RPC or from an event, and what a
-- history of commands leaves in its tables.
pub mod Keeping
pub mod Steps
pub mod History
pub mod Safety
use Prim.Native.String.{String}
use fo_c.Base.{ℕ, none, Option, some, List, [], ◌∷◌, Result, ok, err, ⊤}
use fo_c.Base.Int.{ℤ}
use fo_c.Credit.Types.{Error, ReleaseReason, RawOutcome, OrderOutcome}
use fo_c.Credit.Store.{Store, Action, within, open_account, ◌>>=◌, pure}
use fo_c.Credit.Service.{Env, Library, canonical_id}
use fo_c.Credit.Operations.{reserve, adjust_reservation}
use fo_c.Credit.Release.{revert_adjustment, release_reservation}
use fo_c.Credit.Outcome.{apply_outcome}

pub data Command : Type 0 where
  reserves : String → String → ℤ → Command
  adjusts : String → String → String → ℤ → Command
  reverts : String → String → Command
  releases : String → ReleaseReason → Command
  outcomes : RawOutcome → Command
  opens : String → Command

-- `account.Service.Open` and `PostgresStore.Open`
unfoldable pub open_user : Library → Env → String → Store → Result Error ⊤ × Store
unfolding within
open_user l env text s = elim (canonical_id l text) [
  | err e ↦ (err e, s)
  | ok user ↦ within env.commit (do a ← open_account user; pure tt) s
]

-- The tables after a command.
unfoldable pub handle : Library → (ℤ → OrderOutcome → ℤ) → Env → Command → Store → Store
handle l payout env (reserves order requester amount) s = (reserve l env order requester amount s).1
handle l payout env (adjusts order id courier offer) s =
    (adjust_reservation l env order id courier offer s).1
handle l payout env (reverts order id) s = (revert_adjustment l env order id s).1
handle l payout env (releases order reason) s = (release_reservation l env order reason s).1
handle l payout env (outcomes o) s = (apply_outcome l payout env o s).1
handle l payout env (opens user) s = (open_user l env user s).1

unfoldable pub empty : Store
empty = record {
  accounts = [];
  ledger = [];
  reservations = [];
  revisions = λ o n. none;
  assignments = λ o i. none;
  operations = λ k. none;
}

-- The tables after a history of commands, the first one first.
unfoldable pub run : Library → (ℤ → OrderOutcome → ℤ) → List (Env × Command) → Store → Store
run l payout [] s = s
run l payout ((env, c) ∷ cs) s = run l payout cs (handle l payout env c s)
