-- ===== src/Order/Status.antt =====
-- `Service.UpdateStatus`.
use cartnova_go_microservice.Prelude.{
  ℤ, String, ◌≡◌, refl, ap, ◌∙◌, sym, subst, Bool, true, false, not, Bool-cases, inl, inr, ◌==◌,
  eq_iff, Option, none, some, List, [], ◌∷◌, ◌++◌, ◌<>◌, ==ℤ_iff, if◌then◌else◌, arith,
}
use cartnova_go_microservice.Go.{ok}
use cartnova_go_microservice.World.{
  Event, World, Run, outside_call, perform, now, query, fail, return, ◌>>=◌, ◌>>◌,
}
use cartnova_go_microservice.World.Returns.{
  Returns, bind-Returns, return-Returns, return_world, query_reads,
}
use cartnova_go_microservice.Events.{new_event, publish}
use cartnova_go_microservice.Events.Returns.{IsNew, new_event-Returns, publish-Returns}
use cartnova_go_microservice.Order.Model.{
  err_invalid_status, Order, OrderItem, is_allowed_status, marshal_result_payload,
}
use cartnova_go_microservice.Order.Tables.{OrderRow, Tables, select_items, find_row}
use cartnova_go_microservice.Order.Repository.{
  affected, order_of, found_row, find_by_id, update_status,
}
use cartnova_go_microservice.Order.Service.{order_events_topic, status_title, change_status}
use cartnova_go_microservice.Order.Rows.{StatusSet, update_status-StatusSet}

find_row-id :
    (id : ℤ) (rows : List OrderRow) (row : OrderRow) → find_row id rows ≡ some row → row.id ≡ id
unfolding find_row
find_row-id id [] row e = absurd (cc)
find_row-id id (r ∷ rows) row e = let ih = find_row-id id rows row in grind (arith, ==ℤ_iff)

some_same : {A : Type 0} (x y : A) → some x ≡ some y → x ≡ y
some_same x y e = ground arith

-- The order that `FindByID` reads has a row.
record Found (id : ℤ) (order : Order) (w v : World Tables) : Type 0 where
  pub row : OrderRow
  pub items : List OrderItem
  pub is_row : find_row id w.state.orders ≡ some row
  pub whole : order ≡ order_of row items
  pub state : v.state ≡ w.state
  pub published : v.published ≡ w.published

found_row-Found :
    (id : ℤ) (o : Option OrderRow) (w u v : World Tables) (order : Order)
    → find_row id w.state.orders ≡ o
    → u.state ≡ w.state
    → u.published ≡ w.published
    → Returns (found_row id o) u order v
    → Found id order w v
unfolding found_row fail
found_row-Found id none w u v order f s p e = absurd (cc)
found_row-Found id (some row) w u v order f s p e =
    let (items, x, read, rest) =
      bind-Returns (query λ t. ok (select_items id t.order_items)) _ u e in
    let (_, same, silent) = query_reads (λ t. ok (select_items id t.order_items)) u x read in
    record {
      row = row;
      items = items;
      is_row = f;
      whole = sym (return-Returns (order_of row items) x v rest);
      state = ap (λ y. y.state) (sym (return_world (order_of row items) x v rest)) ∙ same ∙ s;
      published =
          ap (λ y. y.published) (sym (return_world (order_of row items) x v rest)) ∙ silent ∙ p;
    }

find_by_id-Found :
    (id : ℤ) (w v : World Tables) (order : Order)
    → Returns (find_by_id id) w order v
    → Found id order w v
unfolding find_by_id
find_by_id-Found id w v order e =
    let (o, u, read, rest) = bind-Returns (query λ t. ok (find_row id t.orders)) _ w e in
    let (found, same, silent) = query_reads (λ t. ok (find_row id t.orders)) w u read in
    found_row-Found id o w u v order (ground arith) same silent rest

-- The statuses that may be set, and the type of the event that tells of each.
pub data Told : String → String → Type 0 where
  created : Told "CREATED" "OrderCreated"
  confirmed : Told "CONFIRMED" "OrderConfirmed"
  processing : Told "PROCESSING" "OrderProcessing"
  shipped : Told "SHIPPED" "OrderShipped"
  delivered : Told "DELIVERED" "OrderDelivered"
  cancelled : Told "CANCELLED" "OrderCancelled"

is_allowed_status-Told :
    (status : String)
    → is_allowed_status status ≡ true
    → Told status ("Order" <> status_title status)
unfolding is_allowed_status status_title
is_allowed_status-Told status h = try "CREATED" created λ a. try "CONFIRMED" confirmed λ b.
    try "PROCESSING" processing λ c.
      try "SHIPPED" shipped
        λ d. try "DELIVERED" delivered λ e. try "CANCELLED" cancelled λ f. absurd (ground arith)
  where
    try :
        (name : String)
        → Told name ("Order" <> status_title name)
        → ((status == name) ≡ false → Told status ("Order" <> status_title status))
        → Told status ("Order" <> status_title status)
    try name told other = elim (Bool-cases (status == name)) [
      | inl e ↦
          subst (λ s. Told s ("Order" <> status_title s)) (sym ((eq_iff status name).0 e)) told
      | inr e ↦ other e
    ]

-- The row with the id has the status and nothing else changed; the order is that row with its items;
-- and an event of the status was published with the id of the order and of the user in its row.
pub record Changed (id : ℤ) (status : String) (order : Order) (w w' : World Tables) : Type 0 where
  pub numbered : order.id ≡ id
  pub titled : order.status ≡ status
  pub set : StatusSet id status w.state w'.state
  pub whole :
      order ≡ order_of (record set.old { status = status; updated_at = set.time }) order.items
  pub event : Event
  pub told : Told status event.event_type
  pub body :
      event.payload
      ≡ marshal_result_payload (record { order_id = id; user_id = set.old.user_id; reason = "" })
  pub published : w'.published ≡ w.published ++ (order_events_topic, event) ∷ []

module _ (id : ℤ) (status : String) where
  -- The part of `UpdateStatus` behind its guard.
  change : Run Tables Order
  change = do
    order ← find_by_id id
    update_status id status
    event ← new_event ("Order" <> status_title status) (
        ok
          (marshal_result_payload (record { order_id = id; user_id = order.user_id; reason = "" })))
    publish order_events_topic event
    find_by_id id

  -- The status is updated with no event published.
  update_status-published :
      (w v : World Tables) → Returns (update_status id status) w tt v → v.published ≡ w.published
  unfolding update_status affected ◌>>=◌ perform outside_call now fail return
  update_status-published w v e = ground arith

  Changed-between :
      (old order : Order) (event : Event) (w t u x y v : World Tables)
      → is_allowed_status status ≡ true
      → Found id old w t
      → StatusSet id status w.state v.state
      → u.published ≡ t.published
      → IsNew
          ("Order" <> status_title status)
          (ok
            (marshal_result_payload (record { order_id = id; user_id = old.user_id; reason = "" })))
          event
          u
          x
      → (y.published ≡ x.published ++ (order_events_topic, event) ∷ [])
        × (y.committed ≡ x.committed)
        × (y.state ≡ x.state)
      → Found id order y v
      → Changed id status order w v
  Changed-between old order event w t u x y v a before kept quiet new sent found =
      let row_now : found.row ≡ record kept.old { status = status; updated_at = kept.time } =
        some_same _ _ (
          sym found.is_row
          ∙ ap (λ (z : Tables). find_row id z.orders) (sym found.state)
          ∙ kept.written) in
      let row_before : before.row ≡ kept.old = some_same _ _ (sym before.is_row ∙ kept.exists) in
      let user : old.user_id ≡ kept.old.user_id =
        ap (λ (z : Order). z.user_id) before.whole ∙ ap (λ (z : OrderRow). z.user_id) row_before in
      let sent_body : event.payload
          ≡ marshal_result_payload (record { order_id = id; user_id = old.user_id; reason = "" }) =
        ground arith in
      record {
        numbered =
            ap (λ (z : Order). z.id) found.whole
            ∙ find_row-id id y.state.orders found.row found.is_row;
        titled = ap (λ (z : Order). z.status) found.whole ∙ ap (λ (z : OrderRow). z.status) row_now;
        set = kept;
        whole =
            found.whole
            ∙ ap (λ z. order_of z found.items) row_now
            ∙ ap (λ l. order_of (record kept.old { status = status; updated_at = kept.time }) l)
                (sym (ap (λ (z : Order). z.items) found.whole));
        event = event;
        told = subst (Told status) (sym new.typed) (is_allowed_status-Told status a);
        body =
            subst
              (λ n.
                event.payload
                ≡ marshal_result_payload (record { order_id = id; user_id = n; reason = "" }))
              user sent_body;
        published =
            found.published
            ∙ sent.0
            ∙ ap (λ l. l ++ (order_events_topic, event) ∷ [])
                (new.published ∙ quiet ∙ before.published);
      }

  change-Changed :
      (order : Order) (w v : World Tables)
      → is_allowed_status status ≡ true
      → Returns change w order v
      → Changed id status order w v
  unfolding change
  change-Changed order w v a e =
      let (old, t, read, e1) = bind-Returns (find_by_id id) _ w e in
      let (_, u, set, e2) = bind-Returns (update_status id status) _ t e1 in
      let (event, x, new, e3) = bind-Returns (new_event _ _) _ u e2 in
      let (_, y, sent, e4) = bind-Returns (publish order_events_topic event) _ x e3 in
      let f = find_by_id-Found id w t old read in
      let told = new_event-Returns _ _ u x event new in
      let published_to = publish-Returns order_events_topic event x y sent in
      let found = find_by_id-Found id y v order e4 in
      Changed-between old order event w t u x y v a f
        (subst (λ z. StatusSet id status z v.state) (f.state)
          (subst (StatusSet id status t.state) (sym (found.state ∙ published_to.2 ∙ told.state))
            (update_status-StatusSet id status t u set)))
        (update_status-published t u set) told published_to found

  guarded :
      (b : Bool) (order : Order) (w v : World Tables)
      → is_allowed_status status ≡ b
      → Returns (if not b then fail err_invalid_status else change) w order v
      → Changed id status order w v
  unfolding fail
  guarded true order w v a e = change-Changed order w v a e
  guarded false order w v a e = absurd (cc)

  -- `UpdateStatus` that returns an order has set the allowed status in the row with the id and changed no
  -- other order, has published its event for the order and the user in its row, and returns that row
  -- with the status.
  pub change_status-Changed :
      (order : Order) (w v : World Tables)
      → Returns (change_status id status) w order v
      → Changed id status order w v
  unfolding change_status change
  change_status-Changed order w v e = guarded (is_allowed_status status) order w v refl e
