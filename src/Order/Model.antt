-- ===== src/Order/Model.antt =====
-- internal/order/model.go and status.go, and the documents of the payloads.
use cartnova_go_microservice.Prelude.{
  ℕ, ℤ, pos, String, Bool, ◌||◌, List, [], ◌∷◌, ◌==◌, if◌then◌else◌,
}
use cartnova_go_microservice.Go.{
  GoError, sentinel, foreign, Result, ok, err, ◌>>=◌, Float64, Floats,
}
use cartnova_go_microservice.Json.{
  Json, num, float, str, arr, obj, Items, nil, cons, Members, end, member, int_field, string_field,
  members,
}

-- type OrderItem struct
pub record OrderItem : Type 0 where
  pub id : ℤ
  pub product_id : ℤ
  pub quantity : ℤ
  pub price : Float64

-- type Order struct
pub record Order : Type 0 where
  pub id : ℤ
  pub user_id : ℤ
  pub total_amount : Float64
  pub status : String
  pub items : List OrderItem
  pub created_at : ℕ
  pub updated_at : ℕ

-- type CreateOrderItem struct
pub record CreateOrderItem : Type 0 where
  pub product_id : ℤ
  pub quantity : ℤ

-- type OrderCreatedPayload struct
pub record OrderCreatedPayload : Type 0 where
  pub order_id : ℤ
  pub user_id : ℤ
  pub items : List OrderItem

-- type InventoryResultPayload struct: `OrderID` has no tag, and `UserID` has the tag `order_id`.
pub record InventoryResultPayload : Type 0 where
  pub order_id : ℤ
  pub user_id : ℤ
  pub reason : String

-- The map `allowedStatuses`, and `isAllowedStatus`.
unfoldable pub is_allowed_status : String → Bool
is_allowed_status status =
    (status == "CREATED")
    || (status == "CONFIRMED")
    || (status == "PROCESSING")
    || (status == "SHIPPED")
    || (status == "DELIVERED")
    || (status == "CANCELLED")

abbrev pub err_invalid_status : GoError
err_invalid_status = sentinel "invalid order status"

module _ (floats : Floats) where
  unfoldable pub marshal_item : OrderItem → Result Json
  marshal_item item =
      if floats.is_finite item.price
      then ok (
          obj (
            member "id" (num item.id) (
              member "product_id" (num item.product_id)
                (member "quantity" (num item.quantity) (member "price" (float item.price) end)))))
      else err (foreign "json: unsupported value")

  unfoldable pub marshal_items : List OrderItem → Result Items
  unfolding marshal_item
  marshal_items [] = ok nil
  marshal_items (item ∷ rest) = do
    document ← marshal_item item
    documents ← marshal_items rest
    ok (cons document documents)

  unfoldable pub marshal_created_payload : OrderCreatedPayload → Result Json
  unfolding marshal_items
  marshal_created_payload p = do
    items ← marshal_items p.items
    ok (
        obj (
          member "order_id" (num p.order_id)
            (member "user_id" (num p.user_id) (member "items" (arr items) end))))

-- `omitempty`
unfoldable pub reason_member : String → Members
reason_member reason = if reason == "" then end else member "reason" (str reason) end

unfoldable pub marshal_result_payload : InventoryResultPayload → Json
unfolding reason_member
marshal_result_payload p =
    obj (
      member "OrderID" (num p.order_id)
        (member "order_id" (num p.user_id) (reason_member p.reason)))

-- `decodePayload` into an InventoryResultPayload.
unfoldable pub unmarshal_result_payload : Json → Result InventoryResultPayload
unfolding int_field string_field members
unmarshal_result_payload document = do
  fields ← members document
  order_id ← int_field "OrderID" (pos 0) fields
  user_id ← int_field "order_id" (pos 0) fields
  reason ← string_field "reason" "" fields
  ok (record { order_id = order_id; user_id = user_id; reason = reason })
