-- ===== src/Inventory/Model.antt =====
-- internal/inventory/model.go, the tables of migrations/inventory, and the documents that the
-- payloads are marshalled to. The columns `updated_at` and `created_at` and the reservations' own
-- ids are never read and are left out.
use cartnova_go_microservice.Prelude.{
  ℤ, pos, String, Bool, Option, List, [], ◌∷◌, ◌==◌, equal_fold, if◌then◌else◌,
}
use cartnova_go_microservice.Go.{Result, ok, err, foreign, ◌>>=◌}
use cartnova_go_microservice.Json.{
  Json, null, num, str, arr, obj, Items, nil, cons, Members, end, member, int_field, members,
}

-- type Inventory struct
pub record Inventory : Type 0 where
  pub product_id : ℤ
  pub available_quantity : ℤ
  pub reserved_quantity : ℤ

-- type ReservationItem struct
pub record ReservationItem : Type 0 where
  pub product_id : ℤ
  pub quantity : ℤ

-- type InventoryOrderPayload struct
pub record InventoryOrderPayload : Type 0 where
  pub order_id : ℤ
  pub user_id : ℤ
  pub items : List ReservationItem

-- A row of `inventory` beside its key, and a row of `reservations`.
pub record Stock : Type 0 where
  pub available : ℤ
  pub reserved : ℤ

pub record Reservation : Type 0 where
  pub order_id : ℤ
  pub product_id : ℤ
  pub quantity : ℤ
  pub status : String

-- `inventory` has the primary key `product_id`, and `processed_events` holds ids only.
pub record Tables : Type 0 where
  pub inventory : ℤ → Option Stock
  pub reservations : List Reservation
  pub processed_events : String → Bool

unfoldable pub unmarshal_item : Json → Result ReservationItem
unmarshal_item document = do
  fields ← members document
  product_id ← int_field "product_id" (pos 0) fields
  quantity ← int_field "quantity" (pos 0) fields
  ok (record { product_id = product_id; quantity = quantity })

unfoldable pub unmarshal_items : Items → Result (List ReservationItem)
unfolding unmarshal_item
unmarshal_items nil = ok []
unmarshal_items (cons document rest) = do
  item ← unmarshal_item document
  items ← unmarshal_items rest
  ok (item ∷ items)

-- A field of a slice type. A later key overwrites.
unfoldable pub store_items : List ReservationItem → Json → Result (List ReservationItem)
unfolding unmarshal_items
store_items old null = ok []
store_items old (arr documents) = unmarshal_items documents
store_items old _ = err (foreign "json: cannot unmarshal into slice")

unfoldable pub items_field : String → List ReservationItem → Members → Result (List ReservationItem)
unfolding store_items equal_fold
items_field name old end = ok old
items_field name old (member key value rest) = do
  new ← if equal_fold key name then store_items old value else ok old
  items_field name new rest

-- `json.Unmarshal` into an InventoryOrderPayload. Its error is what the callers look at.
unfoldable pub unmarshal_order_payload : Json → Result InventoryOrderPayload
unfolding items_field int_field members
unmarshal_order_payload document = do
  fields ← members document
  order_id ← int_field "order_id" (pos 0) fields
  user_id ← int_field "user_id" (pos 0) fields
  items ← items_field "items" [] fields
  ok (record { order_id = order_id; user_id = user_id; items = items })

-- type InventoryResultPayload struct: `OrderID` has no tag, and `UserID` has the tag `order_id`.
pub record InventoryResultPayload : Type 0 where
  pub order_id : ℤ
  pub user_id : ℤ
  pub reason : String

-- `omitempty`
reason_member : String → Members
reason_member reason = if reason == "" then end else member "reason" (str reason) end

unfoldable pub marshal_result_payload : InventoryResultPayload → Json
unfolding reason_member
marshal_result_payload p =
    obj (
      member "OrderID" (num p.order_id)
        (member "order_id" (num p.user_id) (reason_member p.reason)))
