-- ===== src/Order/Wire.antt =====
-- What the inventory service reads of the orders that the order service publishes.
use cartnova_go_microservice.Prelude.{
  ◌≡◌, refl, Bool, true, false, List, [], ◌∷◌, map, int64, arith,
}
use cartnova_go_microservice.Go.{Result, ok, err, Floats, ◌>>=◌}
use cartnova_go_microservice.Json.{Json, Items, int_field, store_int, members}
use cartnova_go_microservice.Order.Model.{
  OrderItem, OrderCreatedPayload, marshal_item, marshal_items, marshal_created_payload,
}
use cartnova_go_microservice.Inventory.Model.{
  ReservationItem, unmarshal_item, unmarshal_items, store_items, items_field,
  unmarshal_order_payload,
}

-- The line that is reserved for an item.
abbrev pub line_of : OrderItem → ReservationItem
line_of item = record { product_id = item.product_id; quantity = item.quantity }

abbrev pub FitInt64 : List OrderItem → Type 0
FitInt64 [] = Unit
FitInt64 (item ∷ rest) =
    (int64 item.product_id ≡ true) × (int64 item.quantity ≡ true) × FitInt64 rest

module _ (floats : Floats) where
  item_arrives :
      (item : OrderItem) (document : Json)
      → int64 item.product_id ≡ true
      → int64 item.quantity ≡ true
      → marshal_item floats item ≡ ok document
      → unmarshal_item document ≡ ok (line_of item)
  unfolding marshal_item unmarshal_item int_field store_int members
  item_arrives item document p q = finite (floats.is_finite item.price) refl
    where
      finite :
          (b : Bool)
          → floats.is_finite item.price ≡ b
          → marshal_item floats item ≡ ok document
          → unmarshal_item document ≡ ok (line_of item)
      finite true b e = ground arith
      finite false b e = absurd (ground arith)

  items_arrive :
      (items : List OrderItem) (documents : Items)
      → FitInt64 items
      → marshal_items floats items ≡ ok documents
      → unmarshal_items documents ≡ ok (map line_of items)
  unfolding marshal_items unmarshal_items
  items_arrive [] documents h e = ground arith
  items_arrive (item ∷ rest) documents h e =
      both (marshal_item floats item) (marshal_items floats rest) refl refl
        (λ more. items_arrive rest more h.2) e
    where
      both :
          (r : Result Json) (q : Result Items)
          → marshal_item floats item ≡ r
          → marshal_items floats rest ≡ q
          → ((more : Items)
              → marshal_items floats rest ≡ ok more
              → unmarshal_items more ≡ ok (map line_of rest))
          → (do document ← r; more ← q; ok (Items.cons document more)) ≡ ok documents
          → unmarshal_items documents ≡ ok (map line_of (item ∷ rest))
      both (err x) q a b ih k = absurd (cc)
      both (ok document) (err x) a b ih k = absurd (cc)
      both (ok document) (ok more) a b ih k =
          let one = item_arrives item document h.0 h.1 a in let others = ih more b in ground arith

  -- Of an OrderCreated payload whose numbers are int64 values and that the order service can marshal, the
  -- inventory service reads the order, the user, and the product and the quantity of every item, in
  -- their order.
  pub created_arrives :
      (p : OrderCreatedPayload) (document : Json)
      → int64 p.order_id ≡ true
      → int64 p.user_id ≡ true
      → FitInt64 p.items
      → marshal_created_payload floats p ≡ ok document
      → unmarshal_order_payload document
        ≡ ok (record { order_id = p.order_id; user_id = p.user_id; items = map line_of p.items })
  unfolding marshal_created_payload unmarshal_order_payload items_field store_items int_field
      store_int members
  created_arrives p document h k fit = whole (marshal_items floats p.items) refl
    where
      whole :
          (r : Result Items)
          → marshal_items floats p.items ≡ r
          → marshal_created_payload floats p ≡ ok document
          → unmarshal_order_payload document
            ≡ ok
                (record { order_id = p.order_id; user_id = p.user_id; items = map line_of p.items })
      whole (err x) a e = absurd (ground arith)
      whole (ok documents) a e = let arrived = items_arrive p.items documents fit a in ground arith
