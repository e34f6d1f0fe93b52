-- ===== src/Product/Coherence.antt =====
-- What the statements of the product service leave of the agreement of the cache with the rows.
use cartnova_go_microservice.Prelude.{
  ℕ, ℤ, ◌≡◌, refl, ◌∙◌, Bool, true, false, none, some, List, [], ◌∷◌, ◌==ℤ◌, ==ℤ_iff, if◌then◌else◌,
  arith,
}
use cartnova_go_microservice.Go.{Result, ok, err, Floats}
use cartnova_go_microservice.World.Clear.{After}
use cartnova_go_microservice.Product.Model.{Product, Entry, Store, find_product}
use cartnova_go_microservice.Product.Tables.{
  has_product, stored_row, insert_row, replace_product, update_row, delete_product,
}
use cartnova_go_microservice.Product.Service.{put_entry}
use cartnova_go_microservice.Product.Cache.{Coherent}
use cartnova_go_microservice.Product.Catalogue.{stored_row-filed}

-- What the cache holds of any other product is its row.
pub record CoherentBut (id : ℤ) (s : Store) : Type 0 where
  pub entry :
      (other : ℤ) (e : Entry) (p : Product)
      → (other ==ℤ id) ≡ false
      → s.cache other ≡ some e
      → e.value ≡ some p
      → find_product other s.products ≡ some p

-- The rows.
find_product-replace :
    (other : ℤ) (p : Product) (rows : List Product)
    → (other ==ℤ p.id) ≡ false
    → find_product other (replace_product p rows) ≡ find_product other rows
unfolding find_product replace_product
find_product-replace other p [] n = refl
find_product-replace other p (q ∷ rest) n =
    let ih = find_product-replace other p rest n in grind (arith, ==ℤ_iff)

find_product-delete :
    (other id : ℤ) (rows : List Product)
    → (other ==ℤ id) ≡ false
    → find_product other (delete_product id rows) ≡ find_product other rows
unfolding find_product delete_product
find_product-delete other id [] n = refl
find_product-delete other id (q ∷ rest) n =
    let ih = find_product-delete other id rest n in grind (arith, ==ℤ_iff)

has_product-found :
    (id : ℤ) (p : Product) (rows : List Product)
    → find_product id rows ≡ some p
    → has_product id rows ≡ true
unfolding has_product
has_product-found id p rows e = ground arith

find_product-insert :
    (id : ℤ) (p q : Product) (rows : List Product)
    → has_product p.id rows ≡ false
    → find_product id rows ≡ some q
    → find_product id (p ∷ rows) ≡ some q
unfolding find_product
find_product-insert id p q rows h e =
    let k = has_product-found id q rows e in grind (arith, ==ℤ_iff)

insert-Coherent :
    (p : Product) (s : Store)
    → Coherent s
    → has_product p.id s.products ≡ false
    → Coherent (record s { products = p ∷ s.products })
insert-Coherent p s c h = record {
  entry = λ id e q k v. find_product-insert id p q s.products h (c.entry id e q k v);
}

pub insert_row-Coherent :
    (r : Result Product) (s : Store)
    → Coherent s
    → After (λ p. Coherent) Coherent (insert_row r s).0 (insert_row r s).1
unfolding insert_row
insert_row-Coherent (err e) s c = c
insert_row-Coherent (ok p) s c = let k = insert-Coherent p s c in ground arith

-- Whether a row was found; if none was, nothing has changed.
abbrev pub Touched : ℤ → Bool → Store → Type 0
Touched id found s = CoherentBut id s × (found ≡ false → Coherent s)

unchanged-Touched : (id : ℤ) (found : Bool) (s : Store) → Coherent s → Touched id found s
unchanged-Touched id found s c =
    (record { entry = λ other e p n k v. c.entry other e p k v }, λ _. c)

replace-CoherentBut :
    (p : Product) (s : Store)
    → Coherent s
    → CoherentBut p.id (record s { products = replace_product p s.products })
replace-CoherentBut p s c = record {
  entry = λ other e q n k v. find_product-replace other p s.products n ∙ c.entry other e q k v;
}

pub update_row-Touched :
    (floats : Floats) (p : Product) (s : Store)
    → Coherent s
    → After
        (Touched p.id)
        Coherent
        (update_row (stored_row floats p s) p.id s).0
        (update_row (stored_row floats p s) p.id s).1
unfolding update_row
update_row-Touched floats p s c = changed (stored_row floats p s) refl
  where
    changed :
        (r : Result Product)
        → stored_row floats p s ≡ r
        → After (Touched p.id) Coherent (update_row r p.id s).0 (update_row r p.id s).1
    changed (err e) k =
        let u = unchanged-Touched p.id (has_product p.id s.products) s c in ground arith
    changed (ok q) e =
        let (f, _) = stored_row-filed floats p q s e in
        let u = unchanged-Touched p.id (has_product p.id s.products) s c in
        let t : CoherentBut p.id (record s { products = replace_product q s.products }) =
          rw (← f) (replace-CoherentBut q s c) in
        ground arith

pub delete_product-Touched :
    (id : ℤ) (s : Store)
    → Coherent s
    → Touched id (has_product id s.products) (record s { products = delete_product id s.products })
delete_product-Touched id s c = (
  record {
    entry = λ other e q n k v. find_product-delete other id s.products n ∙ c.entry other e q k v;
  },
  λ missing. record {
    entry = λ other e q k v.
        let was = c.entry other e q k v in
        grind (
          arith,
          ==ℤ_iff,
          has_product-found id q s.products,
          find_product-delete other id s.products,
        );
  },
)

pub put_entry-none : (id : ℤ) (s : Store) → CoherentBut id s → Coherent (put_entry id none s)
unfolding put_entry
put_entry-none id s c = record {
  entry = λ other e q k v. other_entry other (other ==ℤ id) refl e q k v;
}
  where
    other_entry :
        (other : ℤ) (same : Bool)
        → (other ==ℤ id) ≡ same
        → (e : Entry) (q : Product) → (if same then none else s.cache other) ≡ some e
        → e.value ≡ some q
        → find_product other s.products ≡ some q
    other_entry other true h e q k v = absurd (cc)
    other_entry other false h e q k v = c.entry other e q h k v

pub put_entry-some_row :
    (id : ℤ) (p : Product) (time : ℕ) (s : Store)
    → Coherent s
    → find_product id s.products ≡ some p
    → Coherent (put_entry id (some (record { value = some p; expires = time })) s)
unfolding put_entry
put_entry-some_row id p time s c f = record {
  entry = λ other e q k v. grind (arith, ==ℤ_iff, c.entry other e q);
}
