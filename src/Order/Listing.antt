-- ===== src/Order/Listing.antt =====
-- The orders of a user, as `GetMine` lists them.
use cartnova_go_microservice.Prelude.{
  ℕ, ◌+◌, ℤ, ◌≡◌, refl, ap, ◌∙◌, Bool, true, false, Option, none, some, List, [], ◌∷◌, map, ltb_ℤ,
  ◌==ℤ◌, if◌then◌else◌, arith, Bool-cases, inl, inr,
}
use cartnova_go_microservice.Go.{Result, ok, err}
use cartnova_go_microservice.Http.{json}
use cartnova_go_microservice.Auth.{Claims}
use cartnova_go_microservice.World.{World, attempt, query, return, ◌>>=◌}
use cartnova_go_microservice.World.Returns.{query_reads}
use cartnova_go_microservice.Order.Model.{Order}
use cartnova_go_microservice.Order.Tables.{OrderRow, Tables, insert_descending, select_by_user}
use cartnova_go_microservice.Order.Repository.{order_of, find_by_user_id}
use cartnova_go_microservice.Order.Handler.{listed, handle_get_mine}

abbrev pub NotBelow : ℤ → List OrderRow → Type 0
NotBelow id [] = Unit
NotBelow id (row ∷ rest) = ltb_ℤ id row.id ≡ false

-- From the newest order to the oldest.
abbrev pub IsDescending : List OrderRow → Type 0
IsDescending [] = Unit
IsDescending (row ∷ rest) = NotBelow row.id rest × IsDescending rest

-- The sum of what `f` says of each row.
unfoldable pub total : (OrderRow → ℕ) → List OrderRow → ℕ
total f [] = 0
total f (row ∷ rest) = f row + total f rest

-- The rows of a user alone.
abbrev pub of_user : ℤ → (OrderRow → ℕ) → OrderRow → ℕ
of_user user_id f row = if row.user_id ==ℤ user_id then f row else 0

insert_NotBelow :
    (id : ℤ) (row : OrderRow) (rows : List OrderRow)
    → ltb_ℤ id row.id ≡ false
    → NotBelow id rows
    → NotBelow id (insert_descending row rows)
unfolding insert_descending
insert_NotBelow id row [] h k = h
insert_NotBelow id row (next ∷ rest) h k =
    elim (ltb_ℤ row.id next.id)
      as (λ b. NotBelow id (if b then next ∷ insert_descending row rest else row ∷ next ∷ rest)) [
        | true ↦ k
        | false ↦ h
      ]

IsDescending-place :
    (b : Bool) (row next : OrderRow) (rest more : List OrderRow)
    → ltb_ℤ row.id next.id ≡ b
    → IsDescending (next ∷ rest)
    → NotBelow next.id more
    → IsDescending more
    → IsDescending (if b then next ∷ more else row ∷ next ∷ rest)
IsDescending-place true row next rest more e h k l = (k, l)
IsDescending-place false row next rest more e h k l = (e, h)

insert_IsDescending :
    (row : OrderRow) (rows : List OrderRow)
    → IsDescending rows
    → IsDescending (insert_descending row rows)
unfolding insert_descending
insert_IsDescending row [] h = (tt, tt)
insert_IsDescending row (next ∷ rest) h = elim (Bool-cases (ltb_ℤ row.id next.id)) [
  | inl e ↦
      IsDescending-place (ltb_ℤ row.id next.id) row next rest (insert_descending row rest) refl h
        (insert_NotBelow next.id row rest (ground arith) h.0) (insert_IsDescending row rest h.1)
  | inr e ↦ rw (e) (e, h)
]

insert_total :
    (f : OrderRow → ℕ) (row : OrderRow) (rows : List OrderRow)
    → total f (insert_descending row rows) ≡ f row + total f rows
unfolding insert_descending total
insert_total f row [] = refl
insert_total f row (next ∷ rest) =
    let ih = insert_total f row rest in
    elim (ltb_ℤ row.id next.id)
      as (λ b.
        total f (if b then next ∷ insert_descending row rest else row ∷ next ∷ rest)
        ≡ f row + (f next + total f rest)) [ true ↦ omega arith | false ↦ refl ]

select_IsDescending :
    (user_id : ℤ) (rows : List OrderRow) → IsDescending (select_by_user user_id rows)
unfolding select_by_user
select_IsDescending user_id [] = tt
select_IsDescending user_id (row ∷ rows) =
    let rest = select_IsDescending user_id rows in
    elim (row.user_id ==ℤ user_id)
      as (λ b. IsDescending (
        if b
        then insert_descending row (select_by_user user_id rows)
        else select_by_user user_id rows)) [
          | true ↦ insert_IsDescending row (select_by_user user_id rows) rest
          | false ↦ rest
        ]

total-select :
    (f : OrderRow → ℕ) (user_id : ℤ) (rows : List OrderRow)
    → total f (select_by_user user_id rows) ≡ total (of_user user_id f) rows
unfolding select_by_user total
total-select f user_id [] = refl
total-select f user_id (row ∷ rows) =
    let ih = total-select f user_id rows in
    let placed = insert_total f row (select_by_user user_id rows) in
    elim (row.user_id ==ℤ user_id)
      as (λ b.
        total f (
          if b
          then insert_descending row (select_by_user user_id rows)
          else select_by_user user_id rows)
        ≡ (if b then f row else 0) + total (of_user user_id f) rows) [
          | true ↦ omega arith
          | false ↦ omega arith
        ]

-- The orders are those of the rows of the user in the claims, without items, from the highest id to the
-- lowest: whatever is added up over the rows comes to what it is over the rows of the user in the table.
pub record Mine (claims : Option Claims) (orders : List Order) (w w' : World Tables) : Type 0 where
  pub who : Claims
  pub present : claims ≡ some who
  pub rows : List OrderRow
  pub shown : orders ≡ map (λ row. order_of row []) rows
  pub descending : IsDescending rows
  pub complete : (f : OrderRow → ℕ) → total f rows ≡ total (of_user who.user_id f) w.state.orders
  pub state : w'.state ≡ w.state

listed-ok :
    (r : Result (List Order)) (w : World Tables) (code : ℕ) (orders : List Order)
    → (listed r w).0 ≡ ok (json code orders)
    → (r ≡ ok orders) × ((listed r w).1 ≡ w)
unfolding listed return
listed-ok (ok found) w code orders h = (ground arith, refl)
listed-ok (err e) w code orders h = absurd (cc)

-- `GetMine` that answers with orders answers with exactly the orders of the user in the claims, each column
-- as it is stored, from the newest to the oldest, and changes nothing.
pub handle_get_mine-Mine :
    (claims : Option Claims) (w : World Tables) (code : ℕ) (orders : List Order)
    → (handle_get_mine claims w).0 ≡ ok (json code orders)
    → Mine claims orders w (handle_get_mine claims w).1
unfolding handle_get_mine find_by_user_id attempt return ◌>>=◌
handle_get_mine-Mine none w code orders h = absurd (cc)
handle_get_mine-Mine (some who) w code orders h =
    let look =
      λ (t : Tables). ok (map (λ row. order_of row []) (select_by_user who.user_id t.orders)) in
    let (found, same) = listed-ok (query look w).0 (query look w).1 code orders h in
    let (shown, state, _) =
      query_reads look w (query look w).1 (ap (λ r. (r, (query look w).1)) found) in
    record {
      who = who;
      present = refl;
      rows = select_by_user who.user_id w.state.orders;
      shown = ground arith;
      descending = select_IsDescending who.user_id w.state.orders;
      complete = λ f. total-select f who.user_id w.state.orders;
      state = ap (λ y. y.state) same ∙ state;
    }
