-- ===== src/Order/Store/History.antt =====
-- order-service/internal/order/postgresassignmenthistory.go: the episodes of an order's couriers.
use fo_c.Base.{
  ℕ, suc, Bool, false, not, ◌&&◌, ◌||◌, Option, none, some, List, [], ◌∷◌, ⊤, ok, err, ◌==◌,
  is_some, if◌then◌else◌,
}
use fo_c.Base.Int.{ℤ, eqb_ℤ}
use fo_c.Base.Transaction.{pure, ◌>>◌}
use fo_c.Order.Types.{Order, Action, invalid, conflict}
use fo_c.Order.Facts.{Change}
use fo_c.Order.Workflow.{policy}
use fo_c.Order.Store.{Episode, Tx, Work}

abbrev pub text_of : Option ℕ → ℕ
text_of none = 0
text_of (some c) = c

abbrev pub previous_courier : Option Order → ℕ
previous_courier none = 0
previous_courier (some b) = text_of b.courier_id

abbrev is_current_episode : ℕ → ℕ → Episode → Bool
is_current_episode id courier e =
    (e.order_id == id) && (e.courier_id == courier) && not (is_some e.ended)

abbrev current_episodes : ℕ → ℕ → List Episode → ℕ
current_episodes id courier [] = 0
current_episodes id courier (e ∷ es) =
    let rest = current_episodes id courier es in
    if is_current_episode id courier e then suc rest else rest

abbrev end_episodes : ℕ → ℕ → ℤ × ℕ × Action → List Episode → List Episode
end_episodes id courier ending [] = []
end_episodes id courier ending (e ∷ es) =
    let rest = end_episodes id courier ending es in
    if is_current_episode id courier e then record e { ended = some ending } ∷ rest else e ∷ rest

abbrev has_episode : ℕ → ℤ → List Episode → Bool
has_episode id revision [] = false
has_episode id revision (e ∷ es) =
    ((e.order_id == id) && eqb_ℤ e.assigned_revision revision) || has_episode id revision es

abbrev has_current : ℕ → List Episode → Bool
has_current id [] = false
has_current id (e ∷ es) = ((e.order_id == id) && not (is_some e.ended)) || has_current id es

abbrev store_episodes : List Episode → Tx → Tx
store_episodes es t = record t { tables = record t.tables { episodes = es } }

-- `CloseAssignmentHistory`
unfoldable pub close_history : ℕ → Change → Work ⊤
close_history courier c t =
    if current_episodes c.order.id courier t.tables.episodes == 1
    then ok (
      tt,
      store_episodes
          (end_episodes c.order.id courier (c.order.revision, c.audit.at, c.action)
            t.tables.episodes)
          t,
    )
    else err (policy conflict)

-- `OpenAssignmentHistory`; an order has one current row, and one row for a revision
unfoldable pub open_history : ℕ → Change → Work ⊤
open_history courier c t = elim c.order.assigned_at [
  | none ↦ err (policy invalid)
  | some at ↦
      if has_episode c.order.id c.order.revision t.tables.episodes
        || has_current c.order.id t.tables.episodes
      then err (policy conflict)
      else ok (
        tt,
        store_episodes
            (record {
              order_id = c.order.id;
              courier_id = courier;
              assigned_revision = c.order.revision;
              assigned_at = at;
              ended = none;
            }
              ∷ t.tables.episodes)
            t,
      )
]

-- The part of `applyAssignmentHistory` that ends the previous courier's episode
unfoldable pub leave : ℕ → Change → Work ⊤
unfolding close_history
leave previous c = if previous == 0 then pure tt else close_history previous c

-- The part of `applyAssignmentHistory` that opens the next courier's episode
unfoldable pub join : ℕ → Change → Work ⊤
unfolding open_history
join next c = if next == 0 then pure tt else open_history next c

-- `applyAssignmentHistory`
unfoldable pub write_history : Option Order → Change → Work ⊤
unfolding leave join
write_history before c =
    let previous = previous_courier before in
    let next = text_of c.order.courier_id in
    if previous == next then pure tt else (do leave previous c; join next c)
