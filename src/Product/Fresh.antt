-- ===== src/Product/Fresh.antt =====
-- The cache stays that of the rows while no call fails, but for deleted categories.
use cartnova_go_microservice.Prelude.{
  ◌+◌, ◌*◌, ℤ, String, ◌≡◌, refl, Bool, true, false, Option, none, some, ◌==◌, trim_space,
}
use cartnova_go_microservice.Go.{Result, ok, err, Floats}
use cartnova_go_microservice.World.{World, query, attempt, now, next_serial}
use cartnova_go_microservice.World.Computes.{IsClear}
use cartnova_go_microservice.World.Clear.{
  After, Clear, Clear-return, Clear-fail, Clear-perform, Clear-if, Clear-attempt, Clear-now,
  Clear-next_serial, Clear-bind,
}
use cartnova_go_microservice.Product.Model.{
  Product, CreateProductRequest, UpdateProductRequest, Store, find_product,
}
use cartnova_go_microservice.Product.Tables.{stored_row}
use cartnova_go_microservice.Product.Repository
use cartnova_go_microservice.Product.Repository.{affected, update, found_or, find_by_id, delete}
use cartnova_go_microservice.Product.Service.{
  cache_set, cache_get, cache_delete, ignore, remember, invalidate_cache, load, hit_or_load,
  get_by_id, updated, create_product, update_product, delete_by_id,
}
use cartnova_go_microservice.Product.Cache.{Coherent}
use cartnova_go_microservice.Product.Coherence.{
  CoherentBut, Touched, insert_row-Coherent, update_row-Touched, delete_product-Touched,
  put_entry-none, put_entry-some_row,
}

Clear-affected :
    (id : ℤ) (found : Bool)
    → Clear (Touched id found) (affected found) (λ u. CoherentBut id) Coherent
unfolding affected
Clear-affected id true = Clear-return tt λ s h. h.0
Clear-affected id false = Clear-fail _ λ s h. h.1 refl

Clear-update :
    (floats : Floats) (id : ℤ) (p : Product)
    → Clear Coherent (update floats id p) (λ u. CoherentBut id) Coherent
unfolding update
Clear-update floats id p = Clear-bind now _ Clear-now λ time.
    Clear-bind {Q = Touched id} _ affected
      (Clear-perform _ λ s. update_row-Touched floats (record p { id = id; updated_at = time }) s)
      (Clear-affected id)

Clear-delete : (id : ℤ) → Clear Coherent (delete id) (λ u. CoherentBut id) Coherent
unfolding delete
Clear-delete id =
    Clear-bind {Q = Touched id} _ affected (Clear-perform _ (delete_product-Touched id))
      (Clear-affected id)

Clear-create :
    (floats : Floats) (p : Product)
    → Clear Coherent (Repository.create floats p) (λ q. Coherent) Coherent
unfolding Repository.create
Clear-create floats p = Clear-bind next_serial _ Clear-next_serial λ id.
    Clear-bind now _ Clear-now λ time.
      Clear-bind _ _
        (Clear-perform _ λ s.
          insert_row-Coherent
            (stored_row floats
              (record p { id = id; status = "ACTIVE"; created_at = time; updated_at = time }) s)
            s)
        λ q. Clear-return _ λ s h. h

-- The row that was found.
abbrev IsRow : ℤ → Product → Store → Type 0
IsRow id p s = Coherent s × (find_product id s.products ≡ some p)

Clear-find_by_id : (id : ℤ) → Clear Coherent (find_by_id id) (IsRow id) Coherent
unfolding find_by_id query found_or
Clear-find_by_id id =
    Clear-bind {Q = λ o s. Coherent s × (find_product id s.products ≡ o)} _ found_or
      (Clear-perform _ λ s c. (c, refl)) found
  where
    found :
        (o : Option Product)
        → Clear
            (λ s. Coherent s × (find_product id s.products ≡ o))
            (found_or o)
            (IsRow id)
            Coherent
    found none = Clear-fail Repository.err_not_found λ s h. h.0
    found (some p) = Clear-return p λ s h. h

Clear-invalidate_cache :
    (id : ℤ) → Clear (CoherentBut id) (invalidate_cache true id) (λ u. Coherent) Coherent
unfolding invalidate_cache ignore cache_delete
Clear-invalidate_cache id =
    Clear-bind (attempt _) _
      (Clear-attempt {R = Coherent} _ (λ s h. h) (Clear-perform _ (put_entry-none id)))
      λ r. Clear-return tt λ s h. h

Clear-remember :
    (id : ℤ) (p : Product) → Clear (IsRow id p) (remember true id p) (λ u. Coherent) Coherent
unfolding remember ignore cache_set
Clear-remember id p =
    Clear-bind (attempt _) _
      (Clear-attempt {R = Coherent} _ (λ s h. h)
        (Clear-bind now _ Clear-now
          λ time. Clear-perform _ λ s h. put_entry-some_row id p (time + 5 * 60) s h.0 h.1))
      λ r. Clear-return tt λ s h. h

Clear-load : (id : ℤ) → Clear Coherent (load true id) (λ p. Coherent) Coherent
unfolding load
Clear-load id =
    Clear-bind {Q = IsRow id} _ _ (Clear-find_by_id id)
      λ p. Clear-bind _ _ (Clear-remember id p) λ u. Clear-return p λ s h. h

Clear-hit_or_load :
    (id : ℤ) (r : Result (Option Product))
    → Clear Coherent (hit_or_load true id r) (λ p. Coherent) Coherent
unfolding hit_or_load
Clear-hit_or_load id (err e) = Clear-load id
Clear-hit_or_load id (ok none) = Clear-load id
Clear-hit_or_load id (ok (some p)) = Clear-return p λ s h. h

Clear-get_by_id : (id : ℤ) → Clear Coherent (get_by_id true id) (λ p. Coherent) Coherent
unfolding get_by_id cache_get query
Clear-get_by_id id =
    Clear-bind (attempt _) _
      (Clear-attempt {R = Coherent} _ (λ s h. h)
        (Clear-bind now _ Clear-now λ time. Clear-perform _ λ s h. h))
      (Clear-hit_or_load id)

module _ (floats : Floats) (to_upper : String → String) where
  Clear-create_product :
      (request : CreateProductRequest)
      → Clear Coherent (create_product true floats to_upper request) (λ p. Coherent) Coherent
  unfolding create_product
  Clear-create_product request =
      Clear-if (trim_space request.name == "") _ _ (Clear-fail _ λ s h. h) (
        Clear-if (floats.is_negative request.price) _ _ (Clear-fail _ λ s h. h)
          (Clear-create floats _))

  Clear-update_product :
      (id : ℤ) (request : UpdateProductRequest)
      → Clear Coherent (update_product true floats to_upper id request) (IsRow id) Coherent
  unfolding update_product
  Clear-update_product id request =
      Clear-if (trim_space request.name == "") _ _ (Clear-fail _ λ s h. h) (
        Clear-if (floats.is_negative request.price) _ _ (Clear-fail _ λ s h. h) (
          Clear-bind (update floats id (updated true floats to_upper request)) _
            (Clear-update floats id _)
            λ u.
              Clear-bind (invalidate_cache true id) _ (Clear-invalidate_cache id)
                λ v. Clear-find_by_id id))

Clear-delete_by_id : (id : ℤ) → Clear Coherent (delete_by_id true id) (λ u. Coherent) Coherent
unfolding delete_by_id
Clear-delete_by_id id = Clear-bind (delete id) _ (Clear-delete id) λ u. Clear-invalidate_cache id

After-Coherent :
    {A : Type 0} (r : Result A) (s : Store) → After (λ a. Coherent) Coherent r s → Coherent s
After-Coherent (ok a) s h = h
After-Coherent (err e) s h = h

-- While no call fails, a service with Redis whose cached products are the rows leaves them so by GetByID, Create, Update and
-- Delete, whether they return or fail.
pub operations-Coherent :
    (floats : Floats) (to_upper : String → String) (id : ℤ) (creation : CreateProductRequest)
    (change : UpdateProductRequest) (w : World Store)
    → IsClear w
    → Coherent w.state
    → Coherent (get_by_id true id w).1.state
      × Coherent (create_product true floats to_upper creation w).1.state
      × Coherent (update_product true floats to_upper id change w).1.state
      × Coherent (delete_by_id true id w).1.state
operations-Coherent floats to_upper id creation change w c h = (
  After-Coherent _ _ ((Clear-get_by_id id).at w c h),
  After-Coherent _ _ ((Clear-create_product floats to_upper creation).at w c h),
  either _ _ ((Clear-update_product floats to_upper id change).at w c h),
  After-Coherent _ _ ((Clear-delete_by_id id).at w c h),
)
  where
    either : (r : Result Product) (s : Store) → After (IsRow id) Coherent r s → Coherent s
    either (ok p) s h = h.0
    either (err e) s h = h
