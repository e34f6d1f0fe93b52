-- ===== src/Product/Service.antt =====
-- internal/product/service.go. `has_redis` is `s.redis != nil`; `to_upper` is
-- `strings.ToUpper`, which the statements do not depend on.
use cartnova_go_microservice.Prelude.{
  ℕ, ◌+◌, ◌*◌, ℤ, String, Bool, Option, none, some, List, ◌==◌, ◌==ℤ◌, ltb, trim_space, pos,
  if◌then◌else◌,
}
use cartnova_go_microservice.Go.{GoError, sentinel, Result, ok, err, Floats}
use cartnova_go_microservice.World.{Run, return, fail, attempt, perform, query, now, ◌>>=◌, ◌>>◌}
use cartnova_go_microservice.Product.Model.{
  Product, CreateProductRequest, UpdateProductRequest, Entry, Store,
}
use cartnova_go_microservice.Product.Repository.{create, update, find_by_id, find_all, delete}

abbrev pub err_invalid_name : GoError
err_invalid_name = sentinel "product name is required"

abbrev pub err_invalid_price : GoError
err_invalid_price = sentinel "price must be zero or greater"

-- The value under a key, unless it is past its time.
unfoldable pub live : ℕ → Option Entry → Option Product
live time none = none
live time (some entry) = if ltb time entry.expires then entry.value else none

-- GET product:id, unmarshalled; `none` for a missing key or a value that does not unmarshal.
unfoldable pub cache_get : ℤ → Run Store (Option Product)
cache_get id = do time ← now; query λ s. ok (live time (s.cache id))

unfoldable pub put_entry : ℤ → Option Entry → Store → Store
put_entry id entry s = record s { cache = λ other. if other ==ℤ id then entry else s.cache other }

-- SET product:id with five minutes to live; times are in seconds. A product always marshals, and
-- unmarshals to itself.
unfoldable pub cache_set : ℤ → Product → Run Store (Unit {0})
cache_set id p = do
  time ← now
  perform λ s. (ok tt, put_entry id (some (record { value = some p; expires = time + 5 * 60 })) s)

-- DEL product:id
unfoldable pub cache_delete : ℤ → Run Store (Unit {0})
cache_delete id = perform λ s. (ok tt, put_entry id none s)

-- A result that is not looked at.
unfoldable pub ignore : Run Store (Unit {0}) → Run Store (Unit {0})
ignore m = do attempt m; return tt

module _ (has_redis : Bool) where
  unfoldable pub remember : ℤ → Product → Run Store (Unit {0})
  remember id p = if has_redis then ignore (cache_set id p) else return tt

  unfoldable pub invalidate_cache : ℤ → Run Store (Unit {0})
  invalidate_cache id = if has_redis then ignore (cache_delete id) else return tt

  -- The part of `GetByID` behind the cache.
  unfoldable pub load : ℤ → Run Store Product
  load id = do p ← find_by_id id; remember id p; return p

  unfoldable pub hit_or_load : ℤ → Result (Option Product) → Run Store Product
  hit_or_load id (err e) = load id
  hit_or_load id (ok none) = load id
  hit_or_load id (ok (some p)) = return p

  unfoldable pub get_by_id : ℤ → Run Store Product
  get_by_id id =
      if has_redis then (do cached ← attempt (cache_get id); hit_or_load id cached) else load id

  module _ (floats : Floats) (to_upper : String → String) where
    unfoldable pub create_product : CreateProductRequest → Run Store Product
    create_product request =
        if trim_space request.name == ""
        then fail err_invalid_name
        else if floats.is_negative request.price
        then fail err_invalid_price
        else create floats (record {
          id = pos 0;
          name = trim_space request.name;
          description = trim_space request.description;
          price = request.price;
          category_id = request.category_id;
          status = "ACTIVE";
          created_at = 0;
          updated_at = 0;
        })

    unfoldable pub updated : UpdateProductRequest → Product
    updated request = record {
      id = pos 0;
      name = trim_space request.name;
      description = trim_space request.description;
      price = request.price;
      category_id = request.category_id;
      status = to_upper (trim_space (if request.status == "" then "ACTIVE" else request.status));
      created_at = 0;
      updated_at = 0;
    }

    unfoldable pub update_product : ℤ → UpdateProductRequest → Run Store Product
    update_product id request =
        if trim_space request.name == ""
        then fail err_invalid_name
        else if floats.is_negative request.price
        then fail err_invalid_price
        else do update floats id (updated request); invalidate_cache id; find_by_id id

  unfoldable pub get_all : (String → String → Bool) → Option ℤ → String → Run Store (List Product)
  get_all ilike category_id search = find_all ilike category_id search

  unfoldable pub delete_by_id : ℤ → Run Store (Unit {0})
  delete_by_id id = do delete id; invalidate_cache id
