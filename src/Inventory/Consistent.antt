-- ===== src/Inventory/Consistent.antt =====
-- The invariant of the inventory tables, kept by every operation whatever calls fail.
use cartnova_go_microservice.Prelude.{
  ℤ, pos, String, ◌≡◌, refl, ap, ◌∙◌, inl, inr, true, false, not, ◌||◌, ltb, ◌==◌, if◌then◌else◌,
  Bool-cases, Option, none, some, List, ◌==ℤ◌, ==ℤ_iff, ◌+ℤ◌, int4, neg_part, arith,
}
use cartnova_go_microservice.Go.{Result, ok, err, pg_error}
use cartnova_go_microservice.World.Keeps.{Keeps, Keeps-perform, keep_rules}
use cartnova_go_microservice.Inventory.Model.{Inventory, ReservationItem, Stock, Tables}
use cartnova_go_microservice.Inventory.Tables.{set_stock, upsert_inventory, insert_processed}
use cartnova_go_microservice.Inventory.Repository.{
  single, create_or_update, reserve_order, mark_event_processed,
}
use cartnova_go_microservice.Inventory.Service.{add_stock}
use cartnova_go_microservice.Inventory.Plan.Stock.{Fits, RowFits, Fits-Moves}
use cartnova_go_microservice.Inventory.Plan.Ledger.{Balances, row_reserved, held, Balances-Moves}
use cartnova_go_microservice.Inventory.Reserve.{reserve_order-keeps}

-- Every quantity is within its column's range and at least zero, and the reserved quantity of each
-- product is the sum of its reservations.
pub record Consistent (t : Tables) : Type 0 where
  pub fits : Fits t
  pub balances : Balances t

pub reserve_order-Consistent :
    (order_id : ℤ) (items : List ReservationItem) → Keeps Consistent (reserve_order order_id items)
reserve_order-Consistent order_id items = record {
  at = λ w h.
      reserve_order-keeps order_id items w Consistent
        (λ item t t' m k. record {
          fits = Fits-Moves item t t' m k.fits;
          balances = Balances-Moves item t t' m k.balances;
        })
        h;
}

-- The available quantity that adding `q` leaves.
abbrev pub added : ℤ → Option Stock → ℤ
added q none = q
added q (some row) = row.available +ℤ q

-- What the upsert writes, read off its success.
pub record Upserts (p q : ℤ) (inventory : Inventory) (t t' : Tables) : Type 0 where
  pub reserved : ℤ
  pub available : ℤ
  pub sum : available ≡ added q (t.inventory p)
  pub kept : reserved ≡ row_reserved (t.inventory p)
  pub returned :
      inventory
      ≡ record { product_id = p; available_quantity = available; reserved_quantity = reserved }
  pub available_fits : int4 available ≡ true
  pub available_nonneg : neg_part available ≡ 0
  pub written :
      t'.inventory ≡ set_stock p (record { available = available; reserved = reserved }) t.inventory
  pub reservations : t'.reservations ≡ t.reservations

upsert_row-Upserts :
    (p q : ℤ) (inventory : Inventory) (t t' : Tables) (row : Option Stock)
    → t.inventory p ≡ row
    → upsert_inventory p q t ≡ ok (inventory, t')
    → Upserts p q inventory t t'
unfolding upsert_inventory
upsert_row-Upserts p q inventory t t' none f e = record {
  reserved = pos 0;
  available = q;
  sum = ground arith;
  kept = ground arith;
  returned = ground arith;
  available_fits = ground arith;
  available_nonneg = ground arith;
  written = ground arith;
  reservations = ground arith;
}
upsert_row-Upserts p q inventory t t' (some row) f e = record {
  reserved = row.reserved;
  available = row.available +ℤ q;
  sum = ground arith;
  kept = ground arith;
  returned = ground arith;
  available_fits = ground arith;
  available_nonneg = ground arith;
  written = ground arith;
  reservations = ground arith;
}

Upserts-row :
    (P : Option Stock → Type 0) {p q : ℤ} {inventory : Inventory} {t t' : Tables}
    (u : Upserts p q inventory t t') (i : ℤ)
    → (p ≡ i → P (some (record { available = u.available; reserved = u.reserved })))
    → P (t.inventory i)
    → P (t'.inventory i)
Upserts-row P {p} u i same other = elim (Bool-cases (p ==ℤ i)) [
  | inl e ↦ rw (u.written, e) (same ((==ℤ_iff p i).0 e))
  | inr e ↦ rw (u.written, e) other
]

Upserts-Consistent :
    {p q : ℤ} {inventory : Inventory} (t t' : Tables)
    → Upserts p q inventory t t'
    → Consistent t
    → Consistent t'
Upserts-Consistent {p} t t' u h = record {
  fits = record {
    row = λ i.
        Upserts-row RowFits u i
          (λ _. (
            u.available_nonneg,
            u.available_fits,
            rw (u.kept) (reserved_ok (t.inventory p) (h.fits.row p)).0,
            rw (u.kept) (reserved_ok (t.inventory p) (h.fits.row p)).1,
          ))
          (h.fits.row i);
  };
  balances = record {
    row = λ i. rw (u.reservations) (
        Upserts-row (λ row. row_reserved row ≡ held i t.reservations) u i
          (λ e. u.kept ∙ h.balances.row p ∙ ap (λ j. held j t.reservations) e) (h.balances.row i));
  };
}
  where
    reserved_ok :
        (row : Option Stock)
        → RowFits row
        → (neg_part (row_reserved row) ≡ 0) × (int4 (row_reserved row) ≡ true)
    reserved_ok none k = (refl, refl)
    reserved_ok (some row) k = (k.2, k.3)

pub create_or_update-Consistent : (p q : ℤ) → Keeps Consistent (create_or_update p q)
unfolding create_or_update
create_or_update-Consistent p q = Keeps-perform _ λ t h. written t (upsert_inventory p q t) refl h
  where
    written :
        (t : Tables) (r : Result (Inventory × Tables))
        → upsert_inventory p q t ≡ r
        → Consistent t
        → Consistent (single (λ _. r) t).1
    written t (err e) k h = h
    written t (ok (inventory, t')) k h =
        Upserts-Consistent t t' (upsert_row-Upserts p q inventory t t' (t.inventory p) refl k) h

pub add_stock-Consistent : (p q : ℤ) → Keeps Consistent (add_stock p q)
unfolding add_stock
add_stock-Consistent p q = search (keep_rules, create_or_update-Consistent)

pub mark_event_processed-Consistent : (id : String) → Keeps Consistent (mark_event_processed id)
unfolding mark_event_processed insert_processed
mark_event_processed-Consistent id = Keeps-perform _ λ t h.
    elim (ltb 100 (Prim.Native.String.count id))
      as (λ b.
        Consistent
          (single
            (λ s.
              if b
              then err (pg_error "22001")
              else ok (
                not (s.processed_events id),
                record s { processed_events = λ other. (id == other) || s.processed_events other },
              ))
            t).1) [
              | true ↦ h
              | false ↦ record {
                fits = record { row = h.fits.row };
                balances = record { row = h.balances.row };
              }
            ]
