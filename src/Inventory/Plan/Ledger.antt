-- ===== src/Inventory/Plan/Ledger.antt =====
-- The reserved quantity of a product against the reservations that are recorded for it.
use cartnova_go_microservice.Prelude.{
  ℤ, pos, ◌≡◌, ap, ◌∙◌, sym, true, Bool-cases, ◌&&◌, Option, none, some, List, [], ◌∷◌, ◌==◌, ◌+ℤ◌,
  ◌==ℤ◌, ==ℤ_iff, subst, inl, inr, if◌then◌else◌,
}
use cartnova_go_microservice.Inventory.Model.{ReservationItem, Stock, Reservation, Tables}
use cartnova_go_microservice.Inventory.Plan.Moves.{Moves}

abbrev pub row_reserved : Option Stock → ℤ
row_reserved none = pos 0
row_reserved (some row) = row.reserved

-- The sum of the quantities of a product's reservations with the status RESERVED.
abbrev pub held : ℤ → List Reservation → ℤ
held p [] = pos 0
held p (r ∷ rs) =
    let rest = held p rs in
    if (r.product_id ==ℤ p) && (r.status == "RESERVED") then rest +ℤ r.quantity else rest

pub record Balances (t : Tables) : Type 0 where
  pub row : (p : ℤ) → row_reserved (t.inventory p) ≡ held p t.reservations

pub Balances-Moves :
    {order_id : ℤ} (item : ReservationItem) (t t' : Tables)
    → Moves order_id item t t'
    → Balances t
    → Balances t'
Balances-Moves item t t' m h = record { row = row }
  where
    at : {p : ℤ} → (item.product_id ==ℤ p) ≡ true → t.inventory p ≡ some m.row
    at {p} e = subst (λ q. t.inventory q ≡ some m.row) ((==ℤ_iff item.product_id p).0 e) m.found

    row : (p : ℤ) → row_reserved (t'.inventory p) ≡ held p t'.reservations
    row p = elim (Bool-cases (item.product_id ==ℤ p)) [
      | inl e ↦
          rw (m.moved, m.recorded, e)
            (ap (λ x. x +ℤ item.quantity) (sym (ap row_reserved (at e)) ∙ h.row p))
      | inr e ↦ rw (m.moved, m.recorded, e) (h.row p)
    ]
