-- ===== src/Order/Images.antt =====
-- order-service/internal/order/itemimages.go: the images of an order's items. The object storage is a
-- parameter.
use fo_c.Base.{
  ℕ, Bool, true, false, not, ◌&&◌, ◌||◌, Option, none, some, List, [], ◌∷◌, Result, ok, err, ltb,
  leb, ◌==◌, length, if◌then◌else◌,
}
use fo_c.Order.Types.{Caller, forbidden, invalid, precondition, not_found}
use fo_c.Order.Offers.{has_seen}
use fo_c.Order.Workflow.{Failure, policy, unavailable}

pub data ImageState : Type 0 where
  uploading attached deleting : ImageState

-- `ItemImageUpload`, and the order and the place that its row is attached to
pub record ItemImage : Type 0 where
  pub id : ℕ
  pub owner_id : ℕ
  pub key : ℕ
  pub content_type : ℕ
  pub state : ImageState
  pub size_bytes : ℕ
  pub created_at : ℕ
  pub upload_expires_at : ℕ
  pub placed : Option (ℕ × ℕ)

abbrev pub is_uploading : ImageState → Bool
is_uploading uploading = true
is_uploading _ = false

-- `MaxImageBytes`
abbrev pub max_image_bytes : ℕ
max_image_bytes = 10000000

-- The answer of `Inspect`: the object is missing, the storage failed, or what it holds.
pub data Inspection : Type 0 where
  object_missing storage_failed : Inspection
  object : Bool → ℕ → ℕ → Inspection

-- Whether the object is the one that the upload announced.
abbrev is_announced : ItemImage → Bool → ℕ → ℕ → Bool
is_announced item present size content_type =
    present
    && (size == item.size_bytes)
    && not (size == 0)
    && leb size max_image_bytes
    && (content_type == item.content_type)

abbrev check_object : ItemImage → Inspection → Result Failure ItemImage
check_object item object_missing = err (policy precondition)
check_object item storage_failed = err unavailable
check_object item (object present size content_type) =
    if is_announced item present size content_type then ok item else err (policy precondition)

abbrev check_item : (ℕ → Inspection) → Option ItemImage → Result Failure ItemImage
check_item inspect none = err (policy not_found)
check_item inspect (some item) =
    if not (is_uploading item.state)
    then err (policy precondition)
    else check_object item (inspect item.key)

abbrev followed_by :
    Result Failure ItemImage → Result Failure (List ItemImage) → Result Failure (List ItemImage)
followed_by (err e) rest = err e
followed_by (ok item) (err e) = err e
followed_by (ok item) (ok items) = ok (item ∷ items)

-- The loop of `Prepare`. `find` reads an image of the caller's, and `inspect` asks the storage.
unfoldable pub prepare_images :
    (ℕ → Option ItemImage) → (ℕ → Inspection) → List ℕ → List ℕ → Result Failure (List ItemImage)
prepare_images find inspect seen [] = ok []
prepare_images find inspect seen (id ∷ ids) =
    let rest = prepare_images find inspect (id ∷ seen) ids in
    if has_seen id seen
    then err (policy invalid)
    else followed_by (check_item inspect (find id)) rest

abbrev with_storage :
    (ℕ → Option ItemImage) → Option (ℕ → Inspection) → List ℕ → Result Failure (List ItemImage)
with_storage find none ids = err unavailable
with_storage find (some inspect) ids = prepare_images find inspect [] ids

-- `Prepare`; a storage that is nil is `none`.
unfoldable pub prepare :
    Caller
    → (ℕ → Option ItemImage)
    → Option (ℕ → Inspection)
    → List ℕ
    → Result Failure (List ItemImage)
unfolding prepare_images
prepare c find storage ids =
    if (c.id == 0) || c.suspended
    then err (policy forbidden)
    else if ltb 5 (length ids)
    then err (policy invalid)
    else with_storage find storage ids
