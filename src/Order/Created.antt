-- ===== src/Order/Created.antt =====
-- What `Repository.Create` does to the tables.
use mathlib.Core.List.{append-nil, append_assoc}
use cartnova_go_microservice.Prelude.{
  ℕ, ℤ, ◌≡◌, refl, subst, ap, ◌∙◌, false, ◌⊎◌, inl, inr, none, some, List, [], ◌∷◌, ◌++◌, map, pos,
  arith,
}
use cartnova_go_microservice.Go.{GoError, Result, ok, err, Float64, Floats}
use cartnova_go_microservice.World.{World, query, next_serial, now}
use cartnova_go_microservice.World.Keeps.{Keeps, keep_rules}
use cartnova_go_microservice.World.Computes.{IsForeign}
use cartnova_go_microservice.World.Transaction.{transaction-Ran}
use cartnova_go_microservice.World.Returns.{
  Returns, bind-Returns, return-Returns, query-Returns, Silent, Silent-transaction, silent_rules,
}
use cartnova_go_microservice.Order.Model.{Order, OrderItem}
use cartnova_go_microservice.Order.Tables.{
  OrderRow, ItemRow, Tables, has_order, insert_order, insert_item,
}
use cartnova_go_microservice.Order.Repository.{
  new_row, numbered, order_of, create_items, create_body, create,
}

-- An item without its id.
abbrev pub unnumbered : OrderItem → OrderItem
unnumbered item = record item { id = pos 0 }

pair_eq : {S A : Type 0} {q : Result A × World S} {r : Result A} → q.0 ≡ r → q ≡ (r, q.1)
pair_eq e = ground arith

module _ (floats : Floats) where
  -- What a NUMERIC(12,2) column holds of a number in range.
  abbrev pub held_amount : Float64 → Float64
  held_amount x = elim (floats.numeric x) [ none ↦ x | some y ↦ y ]

  abbrev pub item_row : ℤ → OrderItem → ItemRow
  item_row order_id item = record {
    order_id = order_id;
    item = record item { price = held_amount item.price };
  }

  abbrev pub order_row : Order → OrderRow
  order_row order = record {
    id = order.id;
    user_id = order.user_id;
    total_amount = held_amount order.total_amount;
    status = order.status;
    created_at = order.created_at;
    updated_at = order.updated_at;
  }

  -- The items of an order are stored behind the others.
  pub record ItemsCreated (order_id : ℤ) (items stored : List OrderItem) (t t' : Tables)
      : Type 0 where
    pub lines : map unnumbered stored ≡ map unnumbered items
    pub rows : t'.order_items ≡ t.order_items ++ map (item_row order_id) stored
    pub orders : t'.orders ≡ t.orders
    pub processed : t'.processed_events ≡ t.processed_events

  -- A new order is stored with its items.
  pub record Created (user_id : ℤ) (items : List OrderItem) (total : Float64) (t t' : Tables)
      (order : Order) : Type 0 where
    pub user : order.user_id ≡ user_id
    pub total_amount : order.total_amount ≡ total
    pub status : order.status ≡ "CREATED"
    pub lines : map unnumbered order.items ≡ map unnumbered items
    pub fresh : has_order order.id t.orders ≡ false
    pub row : t'.orders ≡ order_row order ∷ t.orders
    pub rows : t'.order_items ≡ t.order_items ++ map (item_row order.id) order.items
    pub processed : t'.processed_events ≡ t.processed_events

  insert_item-rows :
      (order_id : ℤ) (item : OrderItem) (t t' : Tables)
      → insert_item floats order_id item t ≡ ok t'
      → ItemsCreated order_id (item ∷ []) (item ∷ []) t t'
  unfolding insert_item
  insert_item-rows order_id item t t' e = ground arith

  insert_order-row :
      (row : OrderRow) (t t' : Tables)
      → insert_order floats row t ≡ ok t'
      → (t'.orders ≡ record row { total_amount = held_amount row.total_amount } ∷ t.orders)
        × (has_order row.id t.orders ≡ false)
        × (t'.order_items ≡ t.order_items)
        × (t'.processed_events ≡ t.processed_events)
  unfolding insert_order
  insert_order-row row t t' e = ground arith

  Keeps-create_items :
      {P : Tables → Type 0} (order_id : ℤ) (items : List OrderItem) (tx : Tables)
      → Keeps P (create_items floats order_id items tx)
  unfolding create_items
  Keeps-create_items order_id [] tx = search keep_rules
  Keeps-create_items {P} order_id (item ∷ rest) tx =
      search (keep_rules, Keeps-create_items {P = P} order_id rest)

  Keeps-create_body :
      {P : Tables → Type 0} (user_id : ℤ) (items : List OrderItem) (total : Float64) (tx : Tables)
      → Keeps P (create_body floats user_id items total tx)
  unfolding create_body
  Keeps-create_body user_id items total tx = search (keep_rules, Keeps-create_items)

  Silent-create_items :
      (order_id : ℤ) (items : List OrderItem) (tx : Tables)
      → Silent (create_items floats order_id items tx)
  unfolding create_items
  Silent-create_items order_id [] tx = search silent_rules
  Silent-create_items order_id (item ∷ rest) tx =
      search (silent_rules, Silent-create_items order_id rest)

  Silent-create_body :
      (user_id : ℤ) (items : List OrderItem) (total : Float64) (tx : Tables)
      → Silent (create_body floats user_id items total tx)
  unfolding create_body
  Silent-create_body user_id items total tx = search (silent_rules, Silent-create_items)

  pub Silent-create :
      (user_id : ℤ) (items : List OrderItem) (total : Float64)
      → Silent (create floats user_id items total)
  unfolding create
  Silent-create user_id items total = Silent-transaction _ (Silent-create_body user_id items total)

  ItemsCreated-cons :
      {order_id : ℤ} (item : OrderItem) (id : ℤ) (rest stored : List OrderItem) (t u t' : Tables)
      → ItemsCreated order_id (numbered id item ∷ []) (numbered id item ∷ []) t u
      → ItemsCreated order_id rest stored u t'
      → ItemsCreated order_id (item ∷ rest) (numbered id item ∷ stored) t t'
  ItemsCreated-cons {order_id} item id rest stored t u t' h k = record {
    lines = ap (λ l. unnumbered item ∷ l) k.lines;
    rows =
        k.rows
        ∙ ap (λ l. l ++ map (item_row order_id) stored) h.rows
        ∙ append_assoc t.order_items _ _;
    orders = k.orders ∙ h.orders;
    processed = k.processed ∙ h.processed;
  }

  create_items-ItemsCreated :
      (order_id : ℤ) (items : List OrderItem) (t t' : Tables) (w v : World Tables)
      (stored : List OrderItem)
      → Returns (create_items floats order_id items t) w (stored, t') v
      → ItemsCreated order_id items stored t t'
  unfolding create_items
  create_items-ItemsCreated order_id [] t t' w v stored e =
      subst (λ (r : List OrderItem × Tables). ItemsCreated order_id [] r.0 t r.1)
        (return-Returns ([], t) w v e)
        (record { lines = refl; rows = rw append-nil; orders = refl; processed = refl })
  create_items-ItemsCreated order_id (item ∷ rest) t t' w v stored e =
      let (id, w1, _, e1) = bind-Returns next_serial _ w e in
      let (u, w2, ins, e2) =
        bind-Returns (query λ _. insert_item floats order_id (numbered id item) t) _ w1 e1 in
      let ((stored', t''), w3, more, last) =
        bind-Returns (create_items floats order_id rest u) _ w2 e2 in
      subst (λ (r : List OrderItem × Tables). ItemsCreated order_id (item ∷ rest) r.0 t r.1)
        (return-Returns (numbered id item ∷ stored', t'') w3 v last)
        (ItemsCreated-cons item id rest stored' t u t''
          (insert_item-rows order_id (numbered id item) t u (query-Returns _ w1 w2 ins))
          (create_items-ItemsCreated order_id rest u t'' w2 w3 stored' more))

  Created-body :
      {user_id id : ℤ} {items stored : List OrderItem} {total : Float64} {time : ℕ}
      (t u t' : Tables)
      → insert_order floats (new_row id time user_id total) t ≡ ok u
      → ItemsCreated id items stored u t'
      → Created user_id items total t t' (order_of (new_row id time user_id total) stored)
  Created-body {id} {stored} t u t' e k =
      let (row, fresh, rows, processed) = insert_order-row _ t u e in
      record {
        user = refl;
        total_amount = refl;
        status = refl;
        lines = k.lines;
        fresh = fresh;
        row = k.orders ∙ row;
        rows = k.rows ∙ ap (λ l. l ++ map (item_row id) stored) rows;
        processed = k.processed ∙ processed;
      }

  create_body-Created :
      (user_id : ℤ) (items : List OrderItem) (total : Float64) (t t' : Tables) (w v : World Tables)
      (order : Order)
      → Returns (create_body floats user_id items total t) w (order, t') v
      → Created user_id items total t t' order
  unfolding create_body
  create_body-Created user_id items total t t' w v order e =
      let (id, w1, _, e1) = bind-Returns next_serial _ w e in
      let (time, w2, _, e2) = bind-Returns now _ w1 e1 in
      let (u, w3, ins, e3) =
        bind-Returns (query λ _. insert_order floats (new_row id time user_id total) t) _ w2 e2 in
      let ((stored, t''), w4, more, last) = bind-Returns (create_items floats id items u) _ w3 e3 in
      subst (λ (r : Order × Tables). Created user_id items total t r.1 r.0)
        (return-Returns (order_of (new_row id time user_id total) stored, t'') w4 v last)
        (Created-body t u t'' (query-Returns _ w2 w3 ins)
          (create_items-ItemsCreated id items u t'' w3 w4 stored more))

  -- `Repository.Create` leaves the tables alone and fails, or it stores the new order with all its
  -- items; an error beside a stored order is an unacknowledged commit.
  pub create-Created :
      (user_id : ℤ) (items : List OrderItem) (total : Float64) (w : World Tables)
      → let (result, w') = create floats user_id items total w in
        ((w'.state ≡ w.state) × ((e : GoError) × (result ≡ err e)))
        ⊎ ((order : Order) × Created user_id items total w.state w'.state order
            × ((result ≡ ok order) ⊎ IsForeign result))
  unfolding create
  create-Created user_id items total w =
      elim (transaction-Ran (create_body floats user_id items total)
        (λ tx v. (Keeps-create_body {P = λ s. s ≡ v.state} user_id items total tx).at v refl) w) [
          | inl same ↦ inl same
          | inr (order, ran, result) ↦ inr (
            order,
            create_body-Created user_id items total w.state _ _ _ order (pair_eq ran),
            result,
          )
        ]
