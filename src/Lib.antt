-- ===== src/Lib.antt =====
-- Credits and orders of a peer delivery service: the credit service that reserves, adjusts, releases
-- and pays out credits, and the order service's policy, store and creation of orders.
--
-- The order service asks the credit service to hold a requester's credits, to raise the hold to a
-- courier's accepted offer, to revert or to release it, over RPC; when an order ends, it emits an
-- `order.outcome` fact, by which the credit service settles or releases the hold. Credit's calls are
-- idempotent by key, and its tables are changed in units of work that commit or roll back.
--
-- Credit, credit-service/internal:
--   Credit/Types: reservation/types.go, the records of reservation/repository.go, account/types.go.
--   Credit/Store: the tables, the transaction of reservation/postgresrepository.go with the queries
--     that it calls, and account/ledger.go (Post, Open). An action takes the tables and returns a
--     result with the tables changed, or an error; `within` is a unit of work.
--   Credit/Service: reservation/service.go (mutate, checkReplay, withAdjustment, GetReservation).
--   Credit/Operations, Credit/Release: reservation/operations.go. What a call hands to `mutate` is its
--     `_tx` action.
--   Credit/Outcome, Credit/Lateness: reservation/outcome.go and reservation/lateness.go.
--   Credit/System: every command that the service takes, and histories of commands from empty tables.
-- Order, order-service/internal/order:
--   Order/Types: types.go and assignmenttypes.go. Order/Transitions: transitions.go.
--   Order/Changes: changefields.go. Order/Facts: events.go (NewChange).
--   Order/Offers: assignmentpolicy.go. Order/Mutations: what progress.go, disposition.go,
--     expirytimers.go and deliverytimers.go build from the locked order, and mutation.go.
--   Order/Workflow: creationtypes.go, the records of a creation. Order/Images: itemimages.go.
--   Order/Store: the tables of a unit of work (postgres.go, postgrescreation.go and the schema), with
--     Validate, History and Apply (apply and the offers' history), Keys (idempotency.go), Creations
--     (the workflow row), Images (postgresimages) and Mutate (mutation.go).
--   Order/Clients: order-service/internal/clients/creation.go, Credit's answers as Order reads them.
--   Order/Creation: creation.go and creationrecovery.go, the claim of a workflow and how one step is
--     settled by what Credit answered; Admission is the first write, Process the loop that a request
--     or the recovery runs, and Create the handler: it finds a retained key, admits and resumes.
-- Proofs: Credit/Ensures and Credit/Writes (postconditions), Credit/Ledger (what posting does),
-- Credit/Invariant and its children (the invariant and every operation), Credit/Keeps and
-- Credit/System/Keeping (what a unit of work and a command keep), Credit/System/Steps (a property that
-- each single write keeps is kept by every command), Credit/System/Safety and History,
-- Credit/Idempotency, Credit/Redelivery, Credit/Lateness/Bounds, Order/Lifecycle, Order/Audit, Order/Outcomes,
-- Order/Store/Laws, and the other children of Order/Creation: Fits, Linked, Follows and Held are
-- predicates, Steps has each unit of work, Run histories of them, Rounds the loop, Due what is
-- claimed in time, Backoff the delays, Fencing outdated claims, Create/Retries calls of Create,
-- Order/Clients/Rows and Order/Clients/Backed the two services together. Tests has evaluated
-- histories and the theorems at concrete inputs.
--
-- A UUID is the number that its canonical text spells, and the empty text of an optional id is `none`;
-- in the order service every text is a number and the empty text is 0. A time counts nanoseconds from
-- Go's zero time. Durations wrap to int64 in Credit/Lateness, and `math/big` is exact. Amounts of
-- credits are integers: a balance is at most 100 credits for each account, so BIGINT does not overflow.
-- `uuid.Parse`, the hash of a payload, case folding, JSON validity, fresh ids, the payout rule, both
-- clocks and how a commit ends are parameters. So are, in a creation, what Credit answers to each
-- call, what object storage says of an image, the jitter of a back-off and the input's texts. Only
-- Order/Creation/Process runs on fuel: two rounds are enough, since a step asks for another one only
-- when it aborts, and an aborted creation does not abort again. Other loops go over lists.
--
-- A reservation row that names no requester where the code parses one, and an empty assignment id,
-- make the code panic; the actions return the error `database` there, and the invariant rules such rows
-- out. A released row without a settlement, where Go would read a nil pointer, contradicts every
-- release outcome here; the invariant rules it out as well. The CHECK constraints on reservations are
-- part of the invariant and are not tested by the actions.
--
-- Not modelled: RPC and event conversion, Kafka, the outbox, SQL and generated code, locks (a unit of
-- work is atomic), ids and times of ledger entries, in the order service timeouts, the
-- recovery's ticker, its choice of due creations and its parallel workers, calls of others that reach
-- Credit during a pass of ProcessCreation, commits of the order service whose answer is lost, the
-- assignment and cancellation workflows, uploads and delivery proofs, and the user, supplier and
-- communication services.
pub mod Base
pub mod Credit
pub mod Order
pub mod Tests
