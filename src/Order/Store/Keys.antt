-- ===== src/Order/Store/Keys.antt =====
-- order-service/internal/order/postgresidempotency.go: the keys of retried requests.
use fo_c.Base.{
  ℕ, Bool, true, not, ◌&&◌, Option, none, some, List, [], ◌∷◌, ⊤, ok, err, ◌==◌, is_some,
  if◌then◌else◌,
}
use fo_c.Order.Types.{precondition, conflict}
use fo_c.Order.Offers.{Method, eqb_method}
use fo_c.Order.Workflow.{policy, IdempotencyKey}
use fo_c.Order.Store.{Work}

-- `LockIdempotencyCaller`
unfoldable pub lock_idempotency_caller : ℕ → Method → Work ⊤
lock_idempotency_caller caller method t = ok (
  tt,
  record t {
    callers = λ c m. if (c == caller) && eqb_method m method then true else t.callers c m;
  },
)

abbrev is_key : ℕ → Method → ℕ → IdempotencyKey → Bool
is_key caller method key k = (k.caller_id == caller) && eqb_method k.method method && (k.key == key)

abbrev pub key_row : ℕ → Method → ℕ → List IdempotencyKey → Option IdempotencyKey
key_row caller method key [] = none
key_row caller method key (k ∷ ks) =
    if is_key caller method key k then some k else key_row caller method key ks

abbrev pub without_key : ℕ → Method → ℕ → List IdempotencyKey → List IdempotencyKey
without_key caller method key [] = []
without_key caller method key (k ∷ ks) =
    let rest = without_key caller method key ks in
    if is_key caller method key k then rest else k ∷ rest

-- `FindIdempotencyKey`
unfoldable pub find_idempotency_key : ℕ → Method → ℕ → Work (Option IdempotencyKey)
find_idempotency_key caller method key t =
    if not (t.callers caller method)
    then err (policy precondition)
    else ok (key_row caller method key t.tables.keys, t)

-- `InsertIdempotencyKey`; the hash is one of the texts of 64 digits that the callers compute.
unfoldable pub insert_idempotency_key : IdempotencyKey → Work ⊤
insert_idempotency_key k t =
    if not (t.callers k.caller_id k.method)
    then err (policy precondition)
    else if is_some (key_row k.caller_id k.method k.key t.tables.keys)
    then err (policy conflict)
    else ok (tt, record t { tables = record t.tables { keys = k ∷ t.tables.keys } })

-- `DeleteIdempotencyKey`
unfoldable pub delete_idempotency_key : ℕ → Method → ℕ → Work ⊤
delete_idempotency_key caller method key t =
    if not (t.callers caller method)
    then err (policy precondition)
    else ok (
      tt,
      record t { tables = record t.tables { keys = without_key caller method key t.tables.keys } },
    )
