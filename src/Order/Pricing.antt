-- ===== src/Order/Pricing.antt =====
-- The loop of `Create` over the requested items.
use cartnova_go_microservice.Prelude.{
  String, ℤ, ◌≡◌, refl, ◌∙◌, false, List, [], ◌∷◌, ◌++◌, map, is_nonpos, arith,
}
use mathlib.Core.List.{append-nil, append_assoc}
use mathlib.Core.Path.{ap₂}
use cartnova_go_microservice.Go.{Result, ok, err, Float64, Floats}
use cartnova_go_microservice.World.{World, Run, return, fail, attempt, remote, ◌>>=◌}
use cartnova_go_microservice.World.Keeps.{Keeps, Keeps-bind, keep_rules}
use cartnova_go_microservice.World.Returns.{
  Returns, bind-Returns, return-Returns, Silent, Silent-bind, silent_rules,
}
use cartnova_go_microservice.Prelude.{
  ℕ, suc, pos, sym, ap, subst, Bool, true, ◌||◌, ◌<>◌, format_int, if◌then◌else◌,
}
use cartnova_go_microservice.Grpc.{Struct, field, number_of}
use cartnova_go_microservice.Order.Model.{OrderItem, CreateOrderItem}
use cartnova_go_microservice.Order.Tables.{Tables}
use cartnova_go_microservice.Order.Service.{
  Clients, err_invalid_quantity, or_wrapped, validate_user, price_item, price_items,
}

abbrev pub request_of : OrderItem → CreateOrderItem
request_of item = record { product_id = item.product_id; quantity = item.quantity }

abbrev pub IsPositive : CreateOrderItem → Type 0
IsPositive requested =
    (is_nonpos requested.product_id ≡ false) × (is_nonpos requested.quantity ≡ false)

abbrev pub AllPositive : List CreateOrderItem → Type 0
AllPositive [] = Unit
AllPositive (requested ∷ rest) = IsPositive requested × AllPositive rest

module _ (floats : Floats) where
  open floats use {add, mul, of_int}

  -- The sum of price times quantity, added from the left.
  unfoldable pub sum_prices : Float64 → List OrderItem → Float64
  sum_prices total [] = total
  sum_prices total (item ∷ rest) =
      sum_prices (add total (mul item.price (of_int item.quantity))) rest

pub Keeps-or_wrapped :
    {A : Type 0} {P : Tables → Type 0} (prefix : String) (r : Result A)
    → Keeps P (or_wrapped prefix r)
unfolding or_wrapped
Keeps-or_wrapped prefix (ok a) = search keep_rules
Keeps-or_wrapped prefix (err e) = search keep_rules

Silent-or_wrapped : {A : Type 0} (prefix : String) (r : Result A) → Silent (or_wrapped prefix r)
unfolding or_wrapped
Silent-or_wrapped prefix (ok a) = search silent_rules
Silent-or_wrapped prefix (err e) = search silent_rules

or_wrapped-Returns :
    {A : Type 0} (prefix : String) (r : Result A) (w v : World Tables) {a : A}
    → Returns (or_wrapped prefix r) w a v
    → r ≡ ok a
unfolding or_wrapped
or_wrapped-Returns prefix (ok b) w v e = ap ok (return-Returns b w v e)
or_wrapped-Returns prefix (err x) w v e = absurd (ground arith)

-- A reply that came is that of the service at the time.
remote_replies :
    {A : Type 0} (reply : ℕ → Result A) (w v : World Tables) (r : Result A) (a : A)
    → Returns (attempt (remote reply)) w r v
    → r ≡ ok a
    → reply (suc w.calls) ≡ ok a
unfolding attempt remote
remote_replies reply w v r a e k = ground arith

module _ (floats : Floats) (clients : Clients) where
  pub Keeps-validate_user :
      {P : Tables → Type 0} (user_id : ℤ) → Keeps P (validate_user floats clients user_id)
  unfolding validate_user
  Keeps-validate_user user_id = search (keep_rules, Keeps-or_wrapped)

  pub Silent-validate_user : (user_id : ℤ) → Silent (validate_user floats clients user_id)
  unfolding validate_user
  Silent-validate_user user_id = search (silent_rules, Silent-or_wrapped)

  Keeps-price_item :
      {P : Tables → Type 0} (requested : CreateOrderItem)
      → Keeps P (price_item floats clients requested)
  unfolding price_item
  Keeps-price_item requested = search (keep_rules, Keeps-or_wrapped)

  Silent-price_item : (requested : CreateOrderItem) → Silent (price_item floats clients requested)
  unfolding price_item
  Silent-price_item requested = search (silent_rules, Silent-or_wrapped)

  pub Keeps-price_items :
      {P : Tables → Type 0} (requested : List CreateOrderItem) (items : List OrderItem)
      (total : Float64)
      → Keeps P (price_items floats clients requested items total)
  unfolding price_items
  Keeps-price_items [] items total = search keep_rules
  Keeps-price_items (r ∷ rest) items total =
      Keeps-bind (price_item floats clients r) _ (Keeps-price_item r)
        λ item. Keeps-price_items rest _ _

  pub Silent-price_items :
      (requested : List CreateOrderItem) (items : List OrderItem) (total : Float64)
      → Silent (price_items floats clients requested items total)
  unfolding price_items
  Silent-price_items [] items total = search silent_rules
  Silent-price_items (r ∷ rest) items total =
      Silent-bind (price_item floats clients r) _ (Silent-price_item r)
        λ item. Silent-price_items rest _ _

  -- The price of the item is what the product service answered for its product.
  abbrev pub IsQuoted : OrderItem → Type 0
  IsQuoted item =
      (n : ℕ) × (answer : Struct) × (clients.get_product n (floats.of_int item.product_id)
        ≡ ok answer)
      × (item.price ≡ number_of floats (field "price" answer))

  abbrev pub AllQuoted : List OrderItem → Type 0
  AllQuoted [] = Unit
  AllQuoted (item ∷ rest) = IsQuoted item × AllQuoted rest

  price_item-IsQuoted :
      (requested : CreateOrderItem) (w v : World Tables) (item : OrderItem)
      → Returns (price_item floats clients requested) w item v
      → IsQuoted item
  unfolding price_item
  price_item-IsQuoted requested w v item e =
      asked (is_nonpos requested.product_id || is_nonpos requested.quantity) e
    where
      line : Struct → OrderItem
      line response = record {
        id = pos 0;
        product_id = requested.product_id;
        quantity = requested.quantity;
        price = number_of floats (field "price" response);
      }

      quote_from : Result Struct → Run Tables OrderItem
      quote_from answer = do
        response ← or_wrapped ("get product " <> format_int requested.product_id) answer
        return (line response)

      ask : Run Tables (Result Struct)
      ask = attempt (remote λ n. clients.get_product n (floats.of_int requested.product_id))

      asked :
          (b : Bool)
          → Returns (if b then fail err_invalid_quantity else ask >>= quote_from) w item v
          → IsQuoted item
      asked true e = absurd (ground arith)
      asked false e =
          let (answer, u, got, e1) = bind-Returns ask quote_from w e in
          let (response, t, wrapped, e2) =
            bind-Returns (or_wrapped ("get product " <> format_int requested.product_id) answer)
              (λ r. return (line r)) u e1 in
          let replied =
            remote_replies (λ n. clients.get_product n (floats.of_int requested.product_id)) w u
              answer response got in
          let same = return-Returns (line response) t v e2 in
          (
            suc w.calls,
            response,
            subst
                (λ (i : OrderItem).
                  clients.get_product (suc w.calls) (floats.of_int i.product_id) ≡ ok response)
                same (replied (or_wrapped-Returns _ answer u t wrapped)),
            sym (ap (λ (i : OrderItem). i.price) same),
          )

  price_item-Returns :
      (requested : CreateOrderItem) (w v : World Tables) (item : OrderItem)
      → Returns (price_item floats clients requested) w item v
      → IsPositive requested × (request_of item ≡ requested)
  unfolding price_item
  price_item-Returns requested w v item e = ground arith

  -- What the loop has made of the requested items when it ends without an error.
  pub record Priced (requested : List CreateOrderItem) (items : List OrderItem) (total : Float64)
      (items' : List OrderItem) (total' : Float64) : Type 0 where
    pub new : List OrderItem
    pub appended : items' ≡ items ++ new
    pub matching : map request_of new ≡ requested
    pub summed : total' ≡ sum_prices floats total new
    pub positive : AllPositive requested
    pub quoted : AllQuoted new

  pub price_items-Priced :
      (requested : List CreateOrderItem) (items : List OrderItem) (total : Float64)
      (w v : World Tables) (items' : List OrderItem) (total' : Float64)
      → Returns (price_items floats clients requested items total) w (items', total') v
      → Priced requested items total items' total'
  unfolding price_items sum_prices
  price_items-Priced [] items total w v items' total' e = record {
    new = [];
    appended = rw append-nil (ground arith);
    matching = refl;
    summed = ground arith;
    positive = tt;
    quoted = tt;
  }
  price_items-Priced (r ∷ rest) items total w v items' total' e =
      let (item, u, here, later) = bind-Returns (price_item floats clients r) _ w e in
      let (fits, same) = price_item-Returns r w u item here in
      let p = price_items-Priced rest _ _ u v items' total' later in
      record {
        new = item ∷ p.new;
        appended = p.appended ∙ append_assoc items (item ∷ []) p.new;
        matching = ap₂ ◌∷◌ same p.matching;
        summed = p.summed;
        positive = (fits, p.positive);
        quoted = (price_item-IsQuoted r w u item here, p.quoted);
      }
