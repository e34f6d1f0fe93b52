-- ===== src/Order/Access.antt =====
-- Who sees an order, and who changes one.
use cartnova_go_microservice.Prelude.{
  ℕ, ℤ, String, ◌≡◌, refl, ap, subst, sym, Bool, true, false, not, ◌⊎◌, Option, none, some, ◌==◌,
  eq_iff, ==ℤ_iff, is_nonpos, parse_int, if◌then◌else◌, arith,
}
use cartnova_go_microservice.Go.{Result, ok, err}
use cartnova_go_microservice.Http.{json, error}
use cartnova_go_microservice.Auth.{Claims}
use cartnova_go_microservice.Reply.{error_with_text}
use cartnova_go_microservice.World.{World, attempt, return, text_of, ◌>>=◌}
use cartnova_go_microservice.Order.Model.{Order}
use cartnova_go_microservice.Order.Tables.{Tables}
use cartnova_go_microservice.Order.Service.{get_by_id, change_status}
use cartnova_go_microservice.Order.Handler.{
  may_access, loaded, load, handle_get_by_id, updated, change_to, change, is_admin,
  handle_update_status,
}
use cartnova_go_microservice.Order.Status.{Changed, change_status-Changed}

-- The claims are of an administrator, or of the user of the order.
pub record Entitled (claims : Option Claims) (order : Order) : Type 0 where
  pub who : Claims
  pub present : claims ≡ some who
  pub entitled : (who.role == "ADMIN" ≡ true) ⊎ (who.user_id ≡ order.user_id)

may_access-Entitled :
    (claims : Option Claims) (order : Order)
    → may_access claims order ≡ true
    → Entitled claims order
unfolding may_access
may_access-Entitled none order h = absurd (cc)
may_access-Entitled (some who) order h = record {
  who = who;
  present = refl;
  entitled = grind (arith, ==ℤ_iff);
}

shown-Entitled :
    (claims : Option Claims) (found : Order) (b : Bool) (w : World Tables) (code : ℕ)
    (order : Order)
    → may_access claims found ≡ b
    → ((if b then return (json 200 found) else return (error 403 "you cannot access this order"))
        w).0
      ≡ ok (json code order)
    → Entitled claims order
unfolding return
shown-Entitled claims found true w code order a h =
    subst (Entitled claims) (ground arith) (may_access-Entitled claims found a)
shown-Entitled claims found false w code order a h = absurd (cc)

loaded-Entitled :
    (claims : Option Claims) (r : Result Order) (w : World Tables) (code : ℕ) (order : Order)
    → (loaded claims r w).0 ≡ ok (json code order)
    → Entitled claims order
unfolding loaded return error_with_text text_of ◌>>=◌
loaded-Entitled claims (err e) w code order h = absurd (ground arith)
loaded-Entitled claims (ok found) w code order h =
    shown-Entitled claims found (may_access claims found) w code order refl h

load-Entitled :
    (claims : Option Claims) (id : Option ℤ) (w : World Tables) (code : ℕ) (order : Order)
    → (load claims id w).0 ≡ ok (json code order)
    → Entitled claims order
unfolding load return attempt ◌>>=◌
load-Entitled claims none w code order h = absurd (cc)
load-Entitled claims (some id) w code order h =
    elim (is_nonpos id)
        as (λ b.
          ((if b
                then return (error 400 "invalid order id")
                else (attempt (get_by_id id) >>= loaded claims))
              w).0
            ≡ ok (json code order)
          → Entitled claims order) [
            | true ↦ λ k. absurd (cc)
            | false ↦ λ k. loaded-Entitled claims (get_by_id id w).0 (get_by_id id w).1 code order k
          ]
      h

-- `GetByID` shows an order to nobody but an administrator and the user of the order.
pub handle_get_by_id-Entitled :
    (claims : Option Claims) (path_value : String) (w : World Tables) (code : ℕ) (order : Order)
    → (handle_get_by_id claims path_value w).0 ≡ ok (json code order)
    → Entitled claims order
unfolding handle_get_by_id
handle_get_by_id-Entitled claims path_value w code order h =
    load-Entitled claims (parse_int path_value) w code order h

-- An administrator asked for an allowed status of the order with the id in the path, and it is set.
pub record Administered (claims : Option Claims) (path_value : String) (body : Result String)
    (order : Order) (w w' : World Tables) : Type 0 where
  pub id : ℤ
  pub status : String
  pub who : Claims
  pub present : claims ≡ some who
  pub admin : who.role ≡ "ADMIN"
  pub path : parse_int path_value ≡ some id
  pub asked : body ≡ ok status
  pub changed : Changed id status order w w'

updated-ok :
    (r : Result Order) (w : World Tables) (code : ℕ) (order : Order)
    → (updated r w).0 ≡ ok (json code order)
    → (r ≡ ok order) × ((updated r w).1 ≡ w)
unfolding updated return error_with_text text_of ◌>>=◌
updated-ok (err e) w code order h = absurd (ground arith)
updated-ok (ok found) w code order h = (ground arith, refl)

change_to-Changed :
    (id : ℤ) (body : Result String) (w : World Tables) (code : ℕ) (order : Order)
    → (change_to id body w).0 ≡ ok (json code order)
    → (status : String) × (body ≡ ok status) × Changed id status order w (change_to id body w).1
unfolding change_to return attempt ◌>>=◌
change_to-Changed id (err e) w code order h = absurd (cc)
change_to-Changed id (ok status) w code order h =
    let (returned, same) =
      updated-ok (change_status id status w).0 (change_status id status w).1 code order h in
    (
      status,
      refl,
      subst (Changed id status order w) (sym same) (
          change_status-Changed id status order w (change_status id status w).1
            (ap (λ r. (r, (change_status id status w).1)) returned)),
    )

is_admin-role :
    (claims : Option Claims)
    → is_admin claims ≡ true
    → (who : Claims) × (claims ≡ some who) × (who.role ≡ "ADMIN")
unfolding is_admin
is_admin-role none h = absurd (cc)
is_admin-role (some who) h = (who, refl, (eq_iff who.role "ADMIN").0 h)

change-Administered :
    (claims : Option Claims) (path_value : String) (parsed : Option ℤ) (body : Result String)
    (w : World Tables) (code : ℕ) (order : Order)
    → is_admin claims ≡ true
    → parse_int path_value ≡ parsed
    → (change parsed body w).0 ≡ ok (json code order)
    → Administered claims path_value body order w (change parsed body w).1
unfolding change return
change-Administered claims path_value none body w code order a p h = absurd (cc)
change-Administered claims path_value (some id) body w code order a p h =
    let (who, present, admin) = is_admin-role claims a in
    elim (is_nonpos id)
        as (λ b.
          ((if b then return (error 400 "invalid order id") else change_to id body) w).0
            ≡ ok (json code order)
          → Administered claims path_value body order w
              ((if b then return (error 400 "invalid order id") else change_to id body) w).1) [
                | true ↦ λ k. absurd (cc)
                | false ↦ λ k.
                    let (status, asked, changed) = change_to-Changed id body w code order k in
                    record {
                      id = id;
                      status = status;
                      who = who;
                      present = present;
                      admin = admin;
                      path = p;
                      asked = asked;
                      changed = changed;
                    }
              ]
      h

allowed-Administered :
    (b : Bool) (claims : Option Claims) (path_value : String) (body : Result String)
    (w : World Tables) (code : ℕ) (order : Order)
    → is_admin claims ≡ b
    → ((if not b
          then return (error 403 "admin access required")
          else change (parse_int path_value) body)
        w).0
      ≡ ok (json code order)
    → Administered claims path_value body order w
        ((if not b
            then return (error 403 "admin access required")
            else change (parse_int path_value) body)
          w).1
unfolding return
allowed-Administered true claims path_value body w code order a h =
    change-Administered claims path_value (parse_int path_value) body w code order a refl h
allowed-Administered false claims path_value body w code order a h = absurd (cc)

-- `UpdateStatus` that answers with an order was asked with the claims of an administrator, and has set the
-- status of the body, one of the six, in the row with the id of the path and in no other.
pub handle_update_status-Administered :
    (claims : Option Claims) (path_value : String) (body : Result String) (w : World Tables)
    (code : ℕ) (order : Order)
    → (handle_update_status claims path_value body w).0 ≡ ok (json code order)
    → Administered claims path_value body order w (handle_update_status claims path_value body w).1
unfolding handle_update_status
handle_update_status-Administered claims path_value body w code order h =
    allowed-Administered (is_admin claims) claims path_value body w code order refl h
