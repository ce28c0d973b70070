-- ===== src/Order/Store/Images.antt =====
-- order-service/internal/order/postgresimages.go: the rows of the images of items.
use fo_c.Base.{
  ℕ, suc, Bool, not, ◌&&◌, ◌||◌, Option, none, some, List, [], ◌∷◌, ⊤, ok, err, ltb, ◌==◌, length,
  if◌then◌else◌,
}
use fo_c.Base.Transaction.{pure, ◌>>◌}
use fo_c.Order.Types.{precondition}
use fo_c.Order.Offers.{create_order}
use fo_c.Order.Images.{ItemImage, attached, is_uploading}
use fo_c.Order.Workflow.{policy}
use fo_c.Order.Store.{Tables, Tx, Work}

-- `ItemImage`
abbrev pub find_image : Tables → ℕ → ℕ → Option ItemImage
find_image s owner id = elim (s.images id) [
  | none ↦ none
  | some i ↦ if i.owner_id == owner then some i else none
]

-- Whether the row is still the one that `Prepare` returned.
abbrev is_unchanged : ItemImage → ItemImage → Bool
is_unchanged item row =
    (row.owner_id == item.owner_id)
    && is_uploading row.state
    && (row.key == item.key)
    && (row.size_bytes == item.size_bytes)
    && (row.content_type == item.content_type)

abbrev store_image : ItemImage → Tx → Tx
store_image i t = record t {
  tables = record t.tables { images = λ id. if id == i.id then some i else t.tables.images id };
}

-- `AttachItemImage` for the n-th image of an order
unfoldable pub attach_image : ℕ → ℕ → ℕ → ItemImage → Work ⊤
attach_image owner order n item t =
    if not (item.owner_id == owner) || not (is_uploading item.state)
    then err (policy precondition)
    else elim (t.tables.images item.id) [
      | none ↦ err (policy precondition)
      | some row ↦
          if not (is_unchanged item row)
          then err (policy precondition)
          else ok (tt, store_image (record row { state = attached; placed = some (order, n) }) t)
    ]

unfoldable pub attach_images : ℕ → ℕ → ℕ → List ItemImage → Work ⊤
unfolding attach_image
attach_images owner order n [] = pure tt
attach_images owner order n (item ∷ items) = do
  attach_image owner order n item
  attach_images owner order (suc n) items

-- `AttachCreationImages`
unfoldable pub attach_creation_images : ℕ → ℕ → List ItemImage → Work ⊤
unfolding attach_images
attach_creation_images owner order items t =
    if ltb 5 (length items) || not (t.callers owner create_order) || not (t.applied order)
    then err (policy precondition)
    else attach_images owner order 0 items t
