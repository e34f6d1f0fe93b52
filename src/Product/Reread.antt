-- ===== src/Product/Reread.antt =====
-- A product read after it was updated.
use cartnova_go_microservice.Prelude.{
  suc, ℤ, String, ◌≡◌, refl, subst, Bool, true, false, Option, none, some, ◌==◌, ==ℤ_iff,
  trim_space,
}
use cartnova_go_microservice.Go.{Result, ok, err, Floats}
use cartnova_go_microservice.World.{World, query, attempt, now, return, perform, ◌>>=◌}
use cartnova_go_microservice.World.Computes.{IsClear}
use cartnova_go_microservice.World.Returns.{Returns}
use cartnova_go_microservice.World.Clear.{
  After, Clear, Clear-return, Clear-fail, Clear-perform, Clear-if, Clear-attempt, Clear-now,
  Clear-weaken, Clear-bind,
}
use cartnova_go_microservice.Product.Model.{Product, UpdateProductRequest, Store, find_product}
use cartnova_go_microservice.Product.Repository
use cartnova_go_microservice.Product.Repository.{affected, update, found_or, find_by_id}
use cartnova_go_microservice.Product.Service.{
  put_entry, cache_delete, cache_get, cache_set, live, hit_or_load, load, remember, ignore,
  invalidate_cache, get_by_id, updated, update_product,
}

abbrev Any : Store → Type 0
Any s = Unit

-- The service has no cache, or the cache does not hold the product.
abbrev Forgotten : Bool → ℤ → Store → Type 0
Forgotten true id s = s.cache id ≡ none
Forgotten false id s = Unit

abbrev IsFresh : Bool → ℤ → Product → Store → Type 0
IsFresh has_redis id p s = Forgotten has_redis id s × (find_product id s.products ≡ some p)

either_way : (r : Result Bool) (s : Store) → After (λ u. Any) Any r s
either_way (ok u) s = tt
either_way (err e) s = tt

Clear-affected : (found : Bool) → Clear Any (affected found) (λ u. Any) Any
unfolding affected
Clear-affected true = Clear-return tt λ s h. tt
Clear-affected false = Clear-fail Repository.err_not_found λ s h. tt

Clear-update :
    (floats : Floats) (id : ℤ) (p : Product) → Clear Any (update floats id p) (λ u. Any) Any
unfolding update
Clear-update floats id p = Clear-bind now _ Clear-now λ time.
    Clear-bind {Q = λ u. Any} _ affected (Clear-perform _ λ s h. either_way _ _) Clear-affected

forgets : (id : ℤ) (s : Store) → (put_entry id none s).cache id ≡ none
unfolding put_entry
forgets id s = rw ((==ℤ_iff id id).1 refl) refl

Clear-invalidate_cache :
    (has_redis : Bool) (id : ℤ)
    → Clear Any
        (invalidate_cache has_redis id)
        (λ u. Forgotten has_redis id)
        (Forgotten has_redis id)
unfolding invalidate_cache ignore cache_delete
Clear-invalidate_cache false id = Clear-return tt λ s h. tt
Clear-invalidate_cache true id =
    Clear-bind (attempt _) _
      (Clear-attempt {R = Forgotten true id} _ (λ s h. h) (Clear-perform _ λ s h. forgets id s))
      λ r. Clear-return tt λ s h. h

Clear-find_by_id :
    (has_redis : Bool) (id : ℤ)
    → Clear (Forgotten has_redis id) (find_by_id id) (IsFresh has_redis id) Any
unfolding find_by_id query found_or
Clear-find_by_id has_redis id =
    Clear-bind {Q = λ o s. Forgotten has_redis id s × (find_product id s.products ≡ o)} _ found_or
      (Clear-perform _ λ s c. (c, refl)) found
  where
    found :
        (o : Option Product)
        → Clear
            (λ s. Forgotten has_redis id s × (find_product id s.products ≡ o))
            (found_or o)
            (IsFresh has_redis id)
            Any
    found none = Clear-fail Repository.err_not_found λ s h. tt
    found (some p) = Clear-return p λ s h. h

module _ (has_redis : Bool) (floats : Floats) (to_upper : String → String) where
  Clear-update_product :
      (id : ℤ) (request : UpdateProductRequest)
      → Clear Any (update_product has_redis floats to_upper id request) (IsFresh has_redis id) Any
  unfolding update_product
  Clear-update_product id request =
      Clear-if (trim_space request.name == "") _ _ (Clear-fail _ λ s h. tt) (
        Clear-if (floats.is_negative request.price) _ _ (Clear-fail _ λ s h. tt) (
          Clear-bind (update floats id (updated has_redis floats to_upper request)) _
            (Clear-update floats id _)
            λ u.
              Clear-bind (invalidate_cache has_redis id) _
                (Clear-weaken _ (λ s h. tt) (Clear-invalidate_cache has_redis id))
                λ v. Clear-find_by_id has_redis id))

-- A product that the cache does not hold is read from its row.
reread :
    (has_redis : Bool) (id : ℤ) (p : Product) (v : World Store)
    → IsClear v
    → IsFresh has_redis id p v.state
    → (get_by_id has_redis id v).0 ≡ ok p
unfolding get_by_id cache_get now query attempt hit_or_load live load find_by_id found_or remember
    ignore cache_set return ◌>>=◌ perform
reread true id p v c (forgotten, row) = rw (c v.calls, forgotten, c (suc v.calls), row) refl
reread false id p v c (forgotten, row) = rw (c v.calls, row) refl

module _ (has_redis : Bool) (floats : Floats) (to_upper : String → String) where
  -- When no call fails, GetByID right after an update returns the product that Update returned, with Redis
  -- or without, and whatever the cache held of it before.
  pub update_then_get :
      (id : ℤ) (change : UpdateProductRequest) (w v : World Store) (p : Product)
      → IsClear w
      → Returns (update_product has_redis floats to_upper id change) w p v
      → (get_by_id has_redis id v).0 ≡ ok p
  update_then_get id change w v p c e =
      let updates = Clear-update_product has_redis floats to_upper id change in
      reread has_redis id p v
        (subst (λ (r : Result Product × World Store). IsClear r.1) e
          (λ k. rw (updates.outside w) (c k)))
        (subst
          (λ (r : Result Product × World Store). After (IsFresh has_redis id) Any r.0 r.1.state) e
          (updates.at w c tt))
