-- ===== src/Order/Tests.antt =====
-- The theorems of the order service at concrete orders.
use cartnova_go_microservice.Prelude.{
  pos, String, ◌≡◌, refl, ◌==◌, parse_int, false, true, some, List, [], ◌∷◌, ◌++◌,
}
use cartnova_go_microservice.Inventory.Model.{unmarshal_order_payload}
use cartnova_go_microservice.Order.Model.{OrderCreatedPayload}
use cartnova_go_microservice.Order.Wire.{created_arrives}
use cartnova_go_microservice.Order.Listing.{Mine, handle_get_mine-Mine}
use cartnova_go_microservice.Go.{foreign, ok, err}
use cartnova_go_microservice.Json.{Json, num, float, arr, cons, nil, obj, end, member}
use cartnova_go_microservice.World.{Run, return, next_serial, now}
use cartnova_go_microservice.World.Transaction.{transaction}
use cartnova_go_microservice.World.Keeps.{Keeps}
use cartnova_go_microservice.World.Samples.{calm, broken, start, whole_floats}
use cartnova_go_microservice.World.Returns.{Returns}
use cartnova_go_microservice.Events.{Message, new_event, publish}
use cartnova_go_microservice.Auth.{Claims}
use cartnova_go_microservice.Http.{json}
use cartnova_go_microservice.Grpc.{number, field}
use cartnova_go_microservice.Order.Model.{
  Order, OrderItem, CreateOrderItem, InventoryResultPayload, unmarshal_result_payload,
  is_allowed_status, marshal_created_payload,
}
use cartnova_go_microservice.Order.Tables.{OrderRow, Tables, insert_order, insert_item}
use cartnova_go_microservice.Order.Repository.{
  create_items, create_body, create, find_by_id, find_by_user_id, update_status,
}
use cartnova_go_microservice.Order.Service.{
  Clients, validate_user, price_item, price_items, publish_created, create_order, change_status,
}
use cartnova_go_microservice.Order.Consumer.{is_inventory_event, process_inventory_event}
use cartnova_go_microservice.Order.Handler.{handle_get_mine, handle_get_by_id, handle_update_status}
use cartnova_go_microservice.Order.Place.{Placed, create_order-Placed}
use cartnova_go_microservice.Order.Settle.{result_redelivery_ignored, status_lost}
use cartnova_go_microservice.Order.Status.{Changed, change_status-Changed}
use cartnova_go_microservice.Order.Access.{
  Entitled, Administered, handle_get_by_id-Entitled, handle_update_status-Administered,
}

abbrev empty : Tables
empty = record { orders = []; order_items = []; processed_events = λ id. false }

abbrev row : OrderRow
row = record {
  id = pos 7;
  user_id = pos 3;
  total_amount = 20;
  status = "CREATED";
  created_at = 1;
  updated_at = 1;
}

abbrev one_order : Tables
one_order = record { orders = row ∷ []; order_items = []; processed_events = λ id. false }

abbrev handled : Tables
handled = record { orders = row ∷ []; order_items = []; processed_events = λ id. "e1" == id }

abbrev item : OrderItem
item = record { id = pos 0; product_id = pos 1; quantity = pos 2; price = 10 }

abbrev clients : Clients
clients = record {
  has_user = true;
  get_user = λ n id. ok [];
  get_product = λ n id. ok (("price", number 10) ∷ []);
}

abbrev requested : List CreateOrderItem
requested = record { product_id = pos 1; quantity = pos 2 } ∷ []

abbrev placed : Order
placed = record {
  id = pos 1;
  user_id = pos 3;
  total_amount = 20;
  status = "CREATED";
  items = record { id = pos 2; product_id = pos 1; quantity = pos 2; price = 10 } ∷ [];
  created_at = 0;
  updated_at = 0;
}

places :
    Returns
      (create_order whole_floats clients (pos 3) requested)
      (start calm empty)
      placed
      (create_order whole_floats clients (pos 3) requested (start calm empty)).1
unfolding create_order validate_user price_items price_item create create_body create_items
    insert_order insert_item publish_created marshal_created_payload transaction next_serial now
    new_event publish field
places = refl

create_order-Placed_example :
    Placed whole_floats clients
      (pos 3)
      requested
      placed
      (start calm empty)
      (create_order whole_floats clients (pos 3) requested (start calm empty)).1
create_order-Placed_example =
    create_order-Placed whole_floats clients (pos 3) requested placed (start calm empty)
      (create_order whole_floats clients (pos 3) requested (start calm empty)).1 places

abbrev silent : String → InventoryResultPayload → Run Tables (Unit {0})
silent event_type payload = return tt

abbrev result : InventoryResultPayload
result = record { order_id = pos 7; user_id = pos 3; reason = "" }

abbrev result_document : Json
result_document = obj (member "OrderID" (num (pos 7)) (member "order_id" (num (pos 3)) end))

abbrev message : Message
message = record {
  event = record {
    id = "e1";
    event_type = "InventoryReserved";
    occurred_at = 1;
    payload = result_document;
  };
  message = record {
    offset = 4;
    value = some (record {
      id = "e1";
      event_type = "InventoryReserved";
      occurred_at = 1;
      payload = result_document;
    });
  };
}

decoded : unmarshal_result_payload result_document ≡ ok result
unfolding unmarshal_result_payload
decoded = refl

is_result : is_inventory_event "InventoryReserved" ≡ true
unfolding is_inventory_event
is_result = refl

result_redelivery_ignored_example :
    ((process_inventory_event silent message (start calm handled)).1.state.orders ≡ row ∷ [])
    × ((process_inventory_event silent message (start calm handled)).1.state.order_items ≡ [])
    × ((process_inventory_event silent message (start calm handled)).1.published ≡ [])
result_redelivery_ignored_example =
    result_redelivery_ignored silent message (start calm handled) refl

status_lost_example :
    let (first, v) = process_inventory_event silent message (start (broken 1) one_order) in
    let (second, u) = process_inventory_event silent message v in
    (first ≡ err (foreign "down"))
    × (second ≡ ok tt)
    × (u.state.orders ≡ row ∷ [])
    × (u.committed ≡ [] ++ 4 ∷ [])
status_lost_example =
    status_lost silent message (start (broken 1) one_order) result "down" is_result decoded refl
      refl refl refl refl refl

abbrev shipped : Order
shipped = record {
  id = pos 7;
  user_id = pos 3;
  total_amount = 20;
  status = "SHIPPED";
  items = [];
  created_at = 1;
  updated_at = 0;
}

ships :
    Returns
      (change_status (pos 7) "SHIPPED")
      (start calm one_order)
      shipped
      (change_status (pos 7) "SHIPPED" (start calm one_order)).1
unfolding change_status find_by_id update_status is_allowed_status new_event publish
ships = refl

change_status-Changed_example :
    Changed
      (pos 7)
      "SHIPPED"
      shipped
      (start calm one_order)
      (change_status (pos 7) "SHIPPED" (start calm one_order)).1
change_status-Changed_example =
    change_status-Changed (pos 7) "SHIPPED" shipped (start calm one_order)
      (change_status (pos 7) "SHIPPED" (start calm one_order)).1 ships

abbrev owner : Claims
owner = record { user_id = pos 3; role = "CUSTOMER"; expires_at = 100; issued_at = 1 }

abbrev admin : Claims
admin = record { user_id = pos 9; role = "ADMIN"; expires_at = 100; issued_at = 1 }

abbrev stored : Order
stored = record {
  id = pos 7;
  user_id = pos 3;
  total_amount = 20;
  status = "CREATED";
  items = [];
  created_at = 1;
  updated_at = 1;
}

shows : (handle_get_by_id (some owner) "7" (start calm one_order)).0 ≡ ok (json 200 stored)
unfolding handle_get_by_id parse_int find_by_id
shows = refl

handle_get_by_id-Entitled_example : Entitled (some owner) stored
handle_get_by_id-Entitled_example =
    handle_get_by_id-Entitled (some owner) "7" (start calm one_order) 200 stored shows

administers :
    (handle_update_status (some admin) "7" (ok "SHIPPED") (start calm one_order)).0
    ≡ ok (json 200 shipped)
unfolding handle_update_status parse_int change_status is_allowed_status find_by_id update_status
    new_event publish
administers = refl

handle_update_status-Administered_example :
    Administered
      (some admin)
      "7"
      (ok "SHIPPED")
      shipped
      (start calm one_order)
      (handle_update_status (some admin) "7" (ok "SHIPPED") (start calm one_order)).1
handle_update_status-Administered_example =
    handle_update_status-Administered (some admin) "7" (ok "SHIPPED") (start calm one_order) 200
      shipped administers

abbrev other_row : OrderRow
other_row = record row { id = pos 8; user_id = pos 4 }

abbrev three_orders : Tables
three_orders = record one_order {
  orders = row ∷ other_row ∷ record row { id = pos 9; total_amount = 35 } ∷ [];
}

abbrev mine : List Order
mine = record stored { id = pos 9; total_amount = 35 } ∷ stored ∷ []

lists : (handle_get_mine (some owner) (start calm three_orders)).0 ≡ ok (json 200 mine)
unfolding handle_get_mine find_by_user_id
lists = refl

handle_get_mine-Mine_example :
    Mine
      (some owner)
      mine
      (start calm three_orders)
      (handle_get_mine (some owner) (start calm three_orders)).1
handle_get_mine-Mine_example =
    handle_get_mine-Mine (some owner) (start calm three_orders) 200 mine lists

abbrev created_payload : OrderCreatedPayload
created_payload = record {
  order_id = pos 7;
  user_id = pos 3;
  items = record item { id = pos 5 } ∷ record item { product_id = pos 2 } ∷ [];
}

abbrev created_document : Json
created_document = obj (
    member "order_id" (num (pos 7)) (
      member "user_id" (num (pos 3)) (
        member "items"
          (arr (
            cons
              (obj (
                member "id" (num (pos 5)) (
                  member "product_id" (num (pos 1))
                    (member "quantity" (num (pos 2)) (member "price" (float 10) end)))))
              (cons
                (obj (
                  member "id" (num (pos 0)) (
                    member "product_id" (num (pos 2))
                      (member "quantity" (num (pos 2)) (member "price" (float 10) end)))))
                nil)))
          end)))

marshals : marshal_created_payload whole_floats created_payload ≡ ok created_document
unfolding marshal_created_payload
marshals = refl

created_arrives_example :
    unmarshal_order_payload created_document
    ≡ ok (record {
      order_id = pos 7;
      user_id = pos 3;
      items =
          record { product_id = pos 1; quantity = pos 2 }
          ∷ record { product_id = pos 2; quantity = pos 2 }
          ∷ [];
    })
created_arrives_example =
    created_arrives whole_floats created_payload created_document refl refl
      (refl, refl, (refl, refl, tt)) marshals
