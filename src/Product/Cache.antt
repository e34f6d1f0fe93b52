-- ===== src/Product/Cache.antt =====
-- The cache in front of the products.
use cartnova_go_microservice.Prelude.{
  ℕ, ℤ, ◌≡◌, refl, ap, ◌∙◌, sym, Bool, true, false, Option, none, some, arith,
}
use cartnova_go_microservice.Go.{Result, ok, err}
use cartnova_go_microservice.World.{World, attempt, fail, query, now, ◌>>=◌}
use cartnova_go_microservice.World.Returns.{Returns, bind-Returns, return-Returns, query_reads}
use cartnova_go_microservice.Product.Model.{Product, Entry, Store, find_product}
use cartnova_go_microservice.Product.Repository.{found_or, find_by_id}
use cartnova_go_microservice.Product.Service.{
  live, cache_get, remember, load, hit_or_load, get_by_id,
}

-- What the cache holds of a product is its row.
pub record Coherent (s : Store) : Type 0 where
  pub entry :
      (id : ℤ) (e : Entry) (p : Product)
      → s.cache id ≡ some e
      → e.value ≡ some p
      → find_product id s.products ≡ some p

live-Coherent :
    (s : Store) (id : ℤ) (time : ℕ) (o : Option Entry) (p : Product)
    → Coherent s
    → s.cache id ≡ o
    → live time o ≡ some p
    → find_product id s.products ≡ some p
unfolding live
live-Coherent s id time none p c e h = absurd (cc)
live-Coherent s id time (some entry) p c e h = c.entry id entry p e (ground arith)

found_or-reads :
    (id : ℤ) (o : Option Product) (w u v : World Store) (p : Product)
    → ◌≡◌ {A = Result (Option Product)} (ok (find_product id w.state.products)) (ok o)
    → Returns (found_or o) u p v
    → find_product id w.state.products ≡ some p
unfolding found_or fail
found_or-reads id none w u v p f r = absurd (cc)
found_or-reads id (some q) w u v p f r = ground (arith, return-Returns q u v r)

find_by_id-reads :
    (id : ℤ) (w v : World Store) (p : Product)
    → Returns (find_by_id id) w p v
    → find_product id w.state.products ≡ some p
unfolding find_by_id
find_by_id-reads id w v p e =
    let (o, u, read, rest) = bind-Returns (query λ s. ok (find_product id s.products)) _ w e in
    let (found, _, _) = query_reads (λ s. ok (find_product id s.products)) w u read in
    found_or-reads id o w u v p found rest

module _ (has_redis : Bool) (id : ℤ) where
  load-reads :
      (w v : World Store) (p : Product)
      → Returns (load has_redis id) w p v
      → find_product id w.state.products ≡ some p
  unfolding load
  load-reads w v p e =
      let (q, u, read, e1) = bind-Returns (find_by_id id) _ w e in
      let (_, x, _, e2) = bind-Returns (remember has_redis id q) _ u e1 in
      find_by_id-reads id w u q read ∙ ap some (return-Returns q x v e2)

  cache_get-reads :
      (w u : World Store) (r : Result (Option Product))
      → Returns (attempt (cache_get id)) w r u
      → (u.state ≡ w.state)
        × ((p : Product)
            → r ≡ ok (some p)
            → live (w.outside.clock w.readings) (w.state.cache id) ≡ some p)
  unfolding attempt cache_get now query ◌>>=◌
  cache_get-reads w u r e = (ground arith, λ p h. ground arith)

  hit_or_load-reads :
      (r : Result (Option Product)) (w u v : World Store) (p : Product)
      → Coherent w.state
      → u.state ≡ w.state
      → ((q : Product)
          → r ≡ ok (some q)
          → live (w.outside.clock w.readings) (w.state.cache id) ≡ some q)
      → Returns (hit_or_load has_redis id r) u p v
      → find_product id w.state.products ≡ some p
  unfolding hit_or_load
  hit_or_load-reads (err x) w u v p c s h e =
      ap (λ t. find_product id t.products) (sym s) ∙ load-reads u v p e
  hit_or_load-reads (ok none) w u v p c s h e =
      ap (λ t. find_product id t.products) (sym s) ∙ load-reads u v p e
  hit_or_load-reads (ok (some q)) w u v p c s h e =
      live-Coherent w.state id (w.outside.clock w.readings) (w.state.cache id) q c refl (h q refl)
      ∙ ap some (return-Returns q u v e)

-- With a cache whose values are those of the rows, or with none, a product that `GetByID` returns is
-- the row with the id.
pub get_by_id-reads :
    (has_redis : Bool) (id : ℤ) (w v : World Store) (p : Product)
    → Coherent w.state
    → Returns (get_by_id has_redis id) w p v
    → find_product id w.state.products ≡ some p
unfolding get_by_id
get_by_id-reads true id w v p c e =
    let (r, u, got, rest) = bind-Returns (attempt (cache_get id)) _ w e in
    let (same, hit) = cache_get-reads true id w u r got in
    hit_or_load-reads true id r w u v p c same hit rest
get_by_id-reads false id w v p c e = load-reads false id w v p e
