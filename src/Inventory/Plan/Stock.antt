-- ===== src/Inventory/Plan/Stock.antt =====
-- The quantities of a product: what a plan keeps.
use cartnova_go_microservice.Prelude.{
  ℤ, pos, ◌≡◌, refl, subst, ap, sym, inl, inr, true, Bool-cases, Option, none, some, ◌+ℤ◌, ◌==ℤ◌,
  ==ℤ_iff, int4, neg_part, ◌∙◌, sub-add_move,
}
use cartnova_go_microservice.Inventory.Model.{ReservationItem, Stock, Tables}
use cartnova_go_microservice.Inventory.Plan.Moves.{Moves, moved_stock}

abbrev pub row_total : Option Stock → ℤ
row_total none = pos 0
row_total (some row) = row.available +ℤ row.reserved

-- All units of a product, reserved or not.
abbrev pub total : Tables → ℤ → ℤ
total t p = row_total (t.inventory p)

abbrev pub RowFits : Option Stock → Type 0
RowFits none = Unit
RowFits (some row) =
    (neg_part row.available ≡ 0)
    × (int4 row.available ≡ true)
    × (neg_part row.reserved ≡ 0)
    × (int4 row.reserved ≡ true)

-- No column is below zero or past the range of INT.
pub record Fits (t : Tables) : Type 0 where
  pub row : (p : ℤ) → RowFits (t.inventory p)

-- The row of a product after a move, by whether it is the product that moved.
module _ {ℓ} (P : Option Stock → Type ℓ) {order_id : ℤ} (item : ReservationItem) (t t' : Tables)
    (m : Moves order_id item t t') where
  row-Moves :
      (p : ℤ)
      → (t.inventory p ≡ some m.row → P (some (moved_stock item m.row)))
      → P (t.inventory p)
      → P (t'.inventory p)
  row-Moves p same other = elim (Bool-cases (item.product_id ==ℤ p)) [
    | inl e ↦
        rw (m.moved, e)
          (same (subst (λ q. t.inventory q ≡ some m.row) ((==ℤ_iff item.product_id p).0 e) m.found))
    | inr e ↦ rw (m.moved, e) other
  ]

pub total-Moves :
    {order_id : ℤ} (item : ReservationItem) (t t' : Tables)
    → Moves order_id item t t'
    → (p : ℤ) → total t' p ≡ total t p
total-Moves item t t' m p =
    row-Moves (λ row. row_total row ≡ total t p) item t t' m p
      (λ f. sub-add_move m.row.available m.row.reserved item.quantity ∙ sym (ap row_total f)) refl

pub Fits-Moves :
    {order_id : ℤ} (item : ReservationItem) (t t' : Tables)
    → Moves order_id item t t'
    → Fits t
    → Fits t'
Fits-Moves item t t' m h = record {
  row = λ p.
      row-Moves RowFits item t t' m p
        (λ _. (m.available_nonneg, m.available_fits, m.reserved_nonneg, m.reserved_fits)) (h.row p);
}
