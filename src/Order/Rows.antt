-- ===== src/Order/Rows.antt =====
-- What an update of a status leaves of the orders.
use cartnova_go_microservice.Prelude.{
  ℕ, ℤ, String, ◌≡◌, refl, some, List, inl, inr, Bool-cases, ◌==ℤ◌, ==ℤ_iff, true, false, [], ◌∷◌,
  arith,
}
use cartnova_go_microservice.World.{World, outside_call, now, fail, return, perform, ◌>>=◌}
use cartnova_go_microservice.World.Returns.{Returns}
use cartnova_go_microservice.Order.Tables.{OrderRow, Tables, has_order, find_row, set_status}
use cartnova_go_microservice.Order.Repository.{affected, update_status}

-- The order with this id had a row, which has the status now, written at some time, and its other
-- columns as before; and nothing else changed.
pub record StatusSet (id : ℤ) (status : String) (t t' : Tables) : Type 0 where
  pub old : OrderRow
  pub time : ℕ
  pub exists : find_row id t.orders ≡ some old
  pub written : find_row id t'.orders ≡ some (record old { status = status; updated_at = time })
  pub others :
      (other : ℤ) → (other ==ℤ id) ≡ false → find_row other t'.orders ≡ find_row other t.orders
  pub order_items : t'.order_items ≡ t.order_items
  pub processed : t'.processed_events ≡ t.processed_events

has_order-find_row :
    (id : ℤ) (rows : List OrderRow)
    → has_order id rows ≡ true
    → (old : OrderRow) × (find_row id rows ≡ some old)
unfolding has_order find_row
has_order-find_row id [] h = absurd (cc)
has_order-find_row id (row ∷ rows) h = elim (Bool-cases (row.id ==ℤ id)) [
  | inl e ↦ (row, rw (e) refl)
  | inr e ↦ let (old, f) = has_order-find_row id rows (ground arith) in (old, rw (e) f)
]

module _ (id : ℤ) (status : String) (time : ℕ) where
  find_row-set_status :
      (rows : List OrderRow) (old : OrderRow)
      → find_row id rows ≡ some old
      → find_row id (set_status id status time rows)
        ≡ some (record old { status = status; updated_at = time })
  unfolding find_row set_status
  find_row-set_status [] old h = absurd (cc)
  find_row-set_status (row ∷ rows) old h = elim (Bool-cases (row.id ==ℤ id)) [
    | inl e ↦ ground arith
    | inr e ↦ let ih = find_row-set_status rows old (ground arith) in ground arith
  ]

  find_row-set_other :
      (other : ℤ) (rows : List OrderRow)
      → (other ==ℤ id) ≡ false
      → find_row other (set_status id status time rows) ≡ find_row other rows
  unfolding find_row set_status
  find_row-set_other other [] h = refl
  find_row-set_other other (row ∷ rows) h =
      let ih = find_row-set_other other rows h in
      elim (Bool-cases (row.id ==ℤ id)) [
        | inl e ↦ let ne : (row.id ==ℤ other) ≡ false = grind (arith, ==ℤ_iff) in rw (e, ne) ih
        | inr e ↦ ground arith
      ]

pub update_status-StatusSet :
    (id : ℤ) (status : String) (w v : World Tables)
    → Returns (update_status id status) w tt v
    → StatusSet id status w.state v.state
unfolding update_status affected ◌>>=◌ perform outside_call now fail return
update_status-StatusSet id status w v e =
    let time = w.outside.clock w.readings in
    let now_rows : v.state.orders ≡ set_status id status time w.state.orders = ground arith in
    let (old, found) = has_order-find_row id w.state.orders (ground arith) in
    record {
      old = old;
      time = time;
      exists = found;
      written = rw (now_rows) (find_row-set_status id status time w.state.orders old found);
      others = λ other h. rw (now_rows) (find_row-set_other id status time other w.state.orders h);
      order_items = ground arith;
      processed = ground arith;
    }
