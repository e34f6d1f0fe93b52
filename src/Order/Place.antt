-- ===== src/Order/Place.antt =====
-- `Service.Create`: what a placed order is, and what a failed attempt leaves.
use cartnova_go_microservice.Prelude.{
  ℤ, String, ◌≡◌, refl, ap, sym, ◌∙◌, ◌⊎◌, subst, Bool, true, false, inl, inr, List, [], ◌∷◌, ◌++◌,
  map, arith, if◌then◌else◌,
}
use cartnova_go_microservice.Go.{GoError, Result, ok, err, Float64, Floats}
use cartnova_go_microservice.World.{Event, World, Run, ◌>>=◌, ◌>>◌, return, fail, attempt}
use cartnova_go_microservice.World.Transaction.{SameBroker}
use cartnova_go_microservice.World.Computes.{IsForeign}
use cartnova_go_microservice.World.Returns.{
  Returns, bind-Returns, return-Returns, return_world, Keeps-Returns, Silent-Returns,
}
use cartnova_go_microservice.Events.{new_event, publish}
use cartnova_go_microservice.Events.Returns.{new_event-Returns}
use cartnova_go_microservice.Order.Model.{
  Order, OrderItem, CreateOrderItem, marshal_created_payload,
}
use cartnova_go_microservice.Order.Tables.{Tables}
use cartnova_go_microservice.Order.Repository.{create}
use cartnova_go_microservice.Order.Service.{
  Clients, order_events_topic, err_empty_items, or_wrapped, is_empty, validate_user, price_items,
  publish_created, create_order,
}
use cartnova_go_microservice.Order.Pricing.{
  request_of, AllPositive, AllQuoted, sum_prices, Keeps-validate_user, Silent-validate_user,
  Keeps-price_items, Silent-price_items, Priced, price_items-Priced,
}
use cartnova_go_microservice.Order.Created.{unnumbered, Created, create-Created, Silent-create}

map-unnumbered :
    (items : List OrderItem) → map request_of (map unnumbered items) ≡ map request_of items
map-unnumbered [] = refl
map-unnumbered (item ∷ rest) = ap (λ l. request_of item ∷ l) (map-unnumbered rest)

module _ (floats : Floats) where
  sum_unnumbered :
      (total : Float64) (items : List OrderItem)
      → sum_prices floats total (map unnumbered items) ≡ sum_prices floats total items
  unfolding sum_prices
  sum_unnumbered total [] = refl
  sum_unnumbered total (item ∷ rest) =
      sum_unnumbered (floats.add total (floats.mul item.price (floats.of_int item.quantity))) rest

  -- An event was published that tells of the order.
  pub record Announced (order : Order) (v w : World Tables) : Type 0 where
    pub event : Event
    pub typed : event.event_type ≡ "OrderCreated"
    pub body :
        marshal_created_payload floats
          (record { order_id = order.id; user_id = order.user_id; items = order.items })
        ≡ ok event.payload
    pub published : w.published ≡ v.published ++ (order_events_topic, event) ∷ []

  attempt-Returns :
      (prefix : String) (event : Event) (v w : World Tables)
      → Returns (attempt (publish order_events_topic event) >>= or_wrapped prefix) v tt w
      → (w.published ≡ v.published ++ (order_events_topic, event) ∷ []) × (w.state ≡ v.state)
  unfolding ◌>>=◌ attempt publish or_wrapped
  attempt-Returns prefix event v w e = ground arith

  publish_created-Announced :
      (clients : Clients) (order : Order) (v w : World Tables)
      → Returns (publish_created floats clients order) v tt w
      → Announced order v w × (w.state ≡ v.state)
  unfolding publish_created
  publish_created-Announced clients order v w e =
      let (event, u, made, rest) = bind-Returns (new_event "OrderCreated" _) _ v e in
      let new = new_event-Returns "OrderCreated" _ v u event made in
      let (sent, same) = attempt-Returns "publish order event" event u w rest in
      (
        record {
          event = event;
          typed = new.typed;
          body = new.body;
          published = sent ∙ ap (λ l. l ++ (order_events_topic, event) ∷ []) new.published;
        },
        same ∙ new.state,
      )

AllQuoted-unnumbered :
    (floats : Floats) (clients : Clients) (items : List OrderItem)
    → AllQuoted floats clients items
    → AllQuoted floats clients (map unnumbered items)
AllQuoted-unnumbered floats clients [] h = tt
AllQuoted-unnumbered floats clients (item ∷ rest) h =
    (h.0, AllQuoted-unnumbered floats clients rest h.1)

unnumbered-AllQuoted :
    (floats : Floats) (clients : Clients) (items : List OrderItem)
    → AllQuoted floats clients (map unnumbered items)
    → AllQuoted floats clients items
unnumbered-AllQuoted floats clients [] h = tt
unnumbered-AllQuoted floats clients (item ∷ rest) h =
    (h.0, unnumbered-AllQuoted floats clients rest h.1)

module _ (floats : Floats) (clients : Clients) (user_id : ℤ)
    (requested : List CreateOrderItem) where
  -- Every requested item is positive, the order has the requested items in their order, at the prices that
  -- the product service gave, with the sum of price times quantity as its total, it is stored, and
  -- OrderCreated was published for it.
  pub record Placed (order : Order) (w w' : World Tables) : Type 0 where
    pub items : List OrderItem
    pub positive : AllPositive requested
    pub matching : map request_of order.items ≡ requested
    pub quoted : AllQuoted floats clients order.items
    pub total : order.total_amount ≡ sum_prices floats floats.zero_float order.items
    pub created : Created floats user_id items order.total_amount w.state w'.state order
    pub announced : Announced floats order w w'

  ordered-Placed :
      (order : Order) (total : Float64) (items : List OrderItem) (w w' : World Tables)
      → Priced floats clients requested [] floats.zero_float items total
      → Created floats user_id items total w.state w'.state order
      → Announced floats order w w'
      → Placed order w w'
  ordered-Placed order total items w w' p c a = record {
    items = items;
    positive = p.positive;
    matching =
        sym (map-unnumbered order.items)
        ∙ ap (map request_of) c.lines
        ∙ map-unnumbered items
        ∙ ap (map request_of) p.appended
        ∙ p.matching;
    quoted = unnumbered-AllQuoted floats clients order.items (
        subst (AllQuoted floats clients) (sym c.lines) (
          AllQuoted-unnumbered floats clients items
            (subst (AllQuoted floats clients) (sym p.appended) p.quoted)));
    total =
        c.total_amount
        ∙ p.summed
        ∙ ap (sum_prices floats floats.zero_float) (sym p.appended)
        ∙ sym (sum_unnumbered floats floats.zero_float items)
        ∙ ap (sum_prices floats floats.zero_float) (sym c.lines)
        ∙ sum_unnumbered floats floats.zero_float order.items;
    created =
        subst (λ x. Created floats user_id items x w.state w'.state order) (sym c.total_amount) c;
    announced = a;
  }

  create_ok :
      (items : List OrderItem) (total : Float64) (order : Order) (w v : World Tables)
      (q : Result Order × World Tables)
      → ((q.1.state ≡ w.state) × ((x : GoError) × (q.0 ≡ err x)))
        ⊎ ((o : Order) × Created floats user_id items total w.state q.1.state o
            × ((q.0 ≡ ok o) ⊎ IsForeign q.0))
      → q ≡ (ok order, v)
      → Created floats user_id items total w.state v.state order
  create_ok items total order w v q (inl (same, bad)) e = let (x, r) = bad in absurd (cc)
  create_ok items total order w v q (inr (o, c, inl r)) e =
      let same : o ≡ order = ground arith in
      subst (λ y. Created floats user_id items total w.state v.state y) same
        (subst (λ (y : World Tables). Created floats user_id items total w.state y.state o)
          (ap (λ p. p.1) e) c)
  create_ok items total order w v q (inr (o, c, inr (text, r))) e = absurd (cc)

  -- The part of `Create` behind its first guard.
  fill : Run Tables Order
  fill = do
    validate_user floats clients user_id
    (items, total) ← price_items floats clients requested [] floats.zero_float
    order ← create floats user_id items total
    publish_created floats clients order
    return order

  Announced-between :
      (order : Order) (t u v w w' : World Tables)
      → SameBroker w t
      → SameBroker t u
      → SameBroker u v
      → Announced floats order v w'
      → Announced floats order w w'
  Announced-between order t u v w w' h k l a = record {
    event = a.event;
    typed = a.typed;
    body = a.body;
    published =
        a.published
        ∙ ap (λ x. x ++ (order_events_topic, a.event) ∷ [])
            (l.published ∙ k.published ∙ h.published);
  }

  Placed-from :
      (order : Order) (total : Float64) (items : List OrderItem) (t u v x w : World Tables)
      → SameBroker w t
      → SameBroker t u
      → SameBroker u v
      → u.state ≡ w.state
      → x.state ≡ v.state
      → Priced floats clients requested [] floats.zero_float items total
      → Created floats user_id items total u.state v.state order
      → Announced floats order v x
      → Placed order w x
  Placed-from order total items t u v x w h k l same kept p c a =
      ordered-Placed order total items w x p
        (subst (λ y. Created floats user_id items total w.state y order) (sym kept)
          (subst (λ y. Created floats user_id items total y v.state order) same c))
        (Announced-between order t u v w x h k l a)

  fill-Placed : (order : Order) (w w' : World Tables) → Returns fill w order w' → Placed order w w'
  unfolding fill
  fill-Placed order w w' e =
      let (_, t, valid, e1) = bind-Returns (validate_user floats clients user_id) _ w e in
      let ((items, total), u, priced, e2) =
        bind-Returns (price_items floats clients requested [] floats.zero_float) _ t e1 in
      let (o, v, stored, e3) = bind-Returns (create floats user_id items total) _ u e2 in
      let (_, x, told, e4) = bind-Returns (publish_created floats clients o) _ v e3 in
      let start =
        Keeps-Returns {P = λ x. x ≡ w.state} (validate_user floats clients user_id) w t
          (Keeps-validate_user floats clients user_id) valid refl in
      let same =
        Keeps-Returns {P = λ x. x ≡ w.state}
          (price_items floats clients requested [] floats.zero_float) t u
          (Keeps-price_items floats clients requested [] floats.zero_float) priced start in
      let p =
        price_items-Priced floats clients requested [] floats.zero_float t u items total priced in
      let c = create_ok items total o u v _ (create-Created floats user_id items total u) stored in
      let (a, kept) = publish_created-Announced floats clients o v x told in
      subst (λ y. Placed order w y) (return_world o x w' e4)
        (subst (λ y. Placed y w x) (return-Returns o x w' e4)
          (Placed-from o total items t u v x w
            (Silent-Returns (validate_user floats clients user_id) w t
              (Silent-validate_user floats clients user_id) valid)
            (Silent-Returns (price_items floats clients requested [] floats.zero_float) t u
              (Silent-price_items floats clients requested [] floats.zero_float) priced)
            (Silent-Returns (create floats user_id items total) u v
              (Silent-create floats user_id items total) stored)
            same kept p c a))

  guarded :
      (b : Bool) (order : Order) (w w' : World Tables)
      → Returns (if b then fail err_empty_items else fill) w order w'
      → Placed order w w'
  unfolding fail
  guarded true order w w' e = absurd (cc)
  guarded false order w w' e = fill-Placed order w w' e

  -- When `Create` returns an order, every requested item is positive, the order has the requested items
  -- at the prices that the product service gave, with the sum of price times quantity as its total, it is
  -- stored as a new order with its items, and OrderCreated was published for it.
  pub create_order-Placed :
      (order : Order) (w w' : World Tables)
      → Returns (create_order floats clients user_id requested) w order w'
      → Placed order w w'
  unfolding create_order fill
  create_order-Placed order w w' e = guarded (is_empty floats clients requested) order w w' e
