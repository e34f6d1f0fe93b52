-- ===== src/Product/Catalogue.antt =====
-- The rows of the product service: unique ids and names, and categories that exist.
use cartnova_go_microservice.Prelude.{
  ℤ, String, ◌≡◌, refl, ◌∙◌, true, false, ◌||◌, Option, none, some, List, [], ◌∷◌, ◌==◌, ◌==ℤ◌,
  ==ℤ_iff, eq_iff, arith,
}
use cartnova_go_microservice.Go.{ok, Floats}
use cartnova_go_microservice.Product.Model.{
  Product, Category, Store, find_product, is_category, has_category,
}
use cartnova_go_microservice.Product.Tables.{
  has_product, stored_row, replace_product, delete_product,
}
use cartnova_go_microservice.Product.Categories.{
  name_taken, rename_category, remove_category, without, clear_category,
}

-- No two products share an id.
abbrev pub AreProducts : List Product → Type 0
AreProducts [] = Unit
AreProducts (p ∷ rest) = (has_product p.id rest ≡ false) × AreProducts rest

-- No two categories share an id or a name.
abbrev pub AreCategories : List Category → Type 0
AreCategories [] = Unit
AreCategories (c ∷ rest) =
    (is_category c.id rest ≡ false) × (name_taken c.id c.name rest ≡ false) × AreCategories rest

-- The category of every product is one of these.
abbrev pub AllFiled : List Category → List Product → Type 0
AllFiled categories [] = Unit
AllFiled categories (p ∷ rest) =
    (has_category p.category_id categories ≡ true) × AllFiled categories rest

-- Every product has a name, and every category.
abbrev pub AllNamed : List Product → Type 0
AllNamed [] = Unit
AllNamed (p ∷ rest) = ((p.name == "") ≡ false) × AllNamed rest

abbrev pub AllTitled : List Category → Type 0
AllTitled [] = Unit
AllTitled (c ∷ rest) = ((c.name == "") ≡ false) × AllTitled rest

-- Ids and the names of categories are unique, the categories of the products exist, and no name is empty.
pub record Catalogue (s : Store) : Type 0 where
  pub products : AreProducts s.products
  pub categories : AreCategories s.categories
  pub filed : AllFiled s.categories s.products
  pub named : AllNamed s.products
  pub titled : AllTitled s.categories

has_product-cons :
    (id : ℤ) (p : Product) (rows : List Product)
    → has_product id (p ∷ rows) ≡ (p.id ==ℤ id) || has_product id rows
unfolding has_product find_product
has_product-cons id p rows = ground arith

pub stored_row-filed :
    (floats : Floats) (p q : Product) (s : Store)
    → stored_row floats p s ≡ ok q
    → (q.id ≡ p.id) × (has_category q.category_id s.categories ≡ true)
unfolding stored_row
stored_row-filed floats p q s e = ground arith

module _ (id : ℤ) (p : Product) where
  has_product-replace :
      (rows : List Product) → has_product id (replace_product p rows) ≡ has_product id rows
  unfolding replace_product
  has_product-replace [] = refl
  has_product-replace (q ∷ rest) =
      let ih = has_product-replace rest in
      let before = has_product-cons id q rest in
      let kept = has_product-cons id q (replace_product p rest) in
      let new =
        has_product-cons id (record p { created_at = q.created_at }) (replace_product p rest) in
      grind (arith, ==ℤ_iff)

has_product-delete :
    (id other : ℤ) (rows : List Product)
    → has_product other rows ≡ false
    → has_product other (delete_product id rows) ≡ false
unfolding delete_product
has_product-delete id other [] h = h
has_product-delete id other (q ∷ rest) h =
    let ih = has_product-delete id other rest in
    let a = has_product-cons other q rest in
    let b = has_product-cons other q (delete_product id rest) in ground arith

is_category-rename :
    (id : ℤ) (name : String) (other : ℤ) (rows : List Category)
    → is_category other (rename_category id name rows) ≡ is_category other rows
unfolding is_category rename_category
is_category-rename id name other [] = refl
is_category-rename id name other (c ∷ rest) =
    let ih = is_category-rename id name other rest in ground arith

is_category-remove :
    (id other : ℤ) (rows : List Category)
    → (other ==ℤ id) ≡ false
    → is_category other rows ≡ true
    → is_category other (remove_category id rows) ≡ true
unfolding is_category remove_category
is_category-remove id other [] n h = h
is_category-remove id other (c ∷ rest) n h =
    let ih = is_category-remove id other rest n in grind (arith, ==ℤ_iff)

is_category-remove_other :
    (id other : ℤ) (rows : List Category)
    → is_category other rows ≡ false
    → is_category other (remove_category id rows) ≡ false
unfolding is_category remove_category
is_category-remove_other id other [] h = h
is_category-remove_other id other (c ∷ rest) h =
    let ih = is_category-remove_other id other rest in ground arith

name_taken-remove :
    (id other : ℤ) (name : String) (rows : List Category)
    → name_taken other name rows ≡ false
    → name_taken other name (remove_category id rows) ≡ false
unfolding name_taken remove_category
name_taken-remove id other name [] h = h
name_taken-remove id other name (c ∷ rest) h =
    let ih = name_taken-remove id other name rest in ground arith

-- Against the rows after a row got a name, for the row itself and for a row with another name.
name_taken-rename :
    (id : ℤ) (name : String) (rows : List Category)
    → name_taken id name (rename_category id name rows) ≡ name_taken id name rows
unfolding name_taken rename_category
name_taken-rename id name [] = refl
name_taken-rename id name (c ∷ rest) = let ih = name_taken-rename id name rest in ground arith

name_taken-rename_other :
    (id other : ℤ) (name text : String) (rows : List Category)
    → (name == text) ≡ false
    → name_taken other text rows ≡ false
    → name_taken other text (rename_category id name rows) ≡ false
unfolding name_taken rename_category
name_taken-rename_other id other name text [] n h = h
name_taken-rename_other id other name text (c ∷ rest) n h =
    let ih = name_taken-rename_other id other name text rest n in ground arith

has_product-clear :
    (id other : ℤ) (rows : List Product)
    → has_product other (clear_category id rows) ≡ has_product other rows
unfolding clear_category
has_product-clear id other [] = refl
has_product-clear id other (q ∷ rest) =
    let ih = has_product-clear id other rest in
    let a = has_product-cons other q rest in
    let b =
      has_product-cons other (record q { category_id = without id q.category_id })
        (clear_category id rest) in
    ground arith

pub AreProducts-replace :
    (p : Product) (rows : List Product) → AreProducts rows → AreProducts (replace_product p rows)
unfolding replace_product
AreProducts-replace p [] h = tt
AreProducts-replace p (q ∷ rest) h =
    let ih = AreProducts-replace p rest h.1 in
    let k = has_product-replace q.id p rest in
    let l = has_product-replace p.id p rest in grind (arith, ==ℤ_iff)

pub AreProducts-delete :
    (id : ℤ) (rows : List Product) → AreProducts rows → AreProducts (delete_product id rows)
unfolding delete_product
AreProducts-delete id [] h = tt
AreProducts-delete id (q ∷ rest) h =
    let ih = AreProducts-delete id rest h.1 in
    let k = has_product-delete id q.id rest h.0 in ground arith

pub AreProducts-clear :
    (id : ℤ) (rows : List Product) → AreProducts rows → AreProducts (clear_category id rows)
unfolding clear_category
AreProducts-clear id [] h = tt
AreProducts-clear id (q ∷ rest) h =
    (has_product-clear id q.id rest ∙ h.0, AreProducts-clear id rest h.1)

pub AreCategories-rename :
    (id : ℤ) (name : String) (rows : List Category)
    → name_taken id name rows ≡ false
    → AreCategories rows
    → AreCategories (rename_category id name rows)
unfolding rename_category name_taken
AreCategories-rename id name [] n h = tt
AreCategories-rename id name (c ∷ rest) n h =
    let ih = AreCategories-rename id name rest in
    let a = is_category-rename id name c.id rest in
    let b = name_taken-rename id name rest in
    let d = name_taken-rename_other id c.id name c.name rest in grind (arith, ==ℤ_iff, eq_iff)

pub AreCategories-remove :
    (id : ℤ) (rows : List Category) → AreCategories rows → AreCategories (remove_category id rows)
unfolding remove_category
AreCategories-remove id [] h = tt
AreCategories-remove id (c ∷ rest) h =
    let ih = AreCategories-remove id rest h.2 in
    let a = is_category-remove_other id c.id rest h.0 in
    let b = name_taken-remove id c.id c.name rest h.1 in ground arith

has_category-without :
    (id : ℤ) (o : Option ℤ) (rows : List Category)
    → has_category o rows ≡ true
    → has_category (without id o) (remove_category id rows) ≡ true
unfolding has_category without
has_category-without id none rows h = refl
has_category-without id (some other) rows h =
    let k = is_category-remove id other rows in ground arith

pub AllFiled-clear :
    (id : ℤ) (categories : List Category) (rows : List Product)
    → AllFiled categories rows
    → AllFiled (remove_category id categories) (clear_category id rows)
unfolding clear_category
AllFiled-clear id categories [] h = tt
AllFiled-clear id categories (p ∷ rest) h =
    (has_category-without id p.category_id categories h.0, AllFiled-clear id categories rest h.1)

pub AllFiled-rename :
    (id : ℤ) (name : String) (categories : List Category) (rows : List Product)
    → AllFiled categories rows
    → AllFiled (rename_category id name categories) rows
unfolding has_category
AllFiled-rename id name categories [] h = tt
AllFiled-rename id name categories (p ∷ rest) h =
    (has_category-rename p.category_id h.0, AllFiled-rename id name categories rest h.1)
  where
    has_category-rename :
        (o : Option ℤ)
        → has_category o categories ≡ true
        → has_category o (rename_category id name categories) ≡ true
    has_category-rename none h = refl
    has_category-rename (some other) h = is_category-rename id name other categories ∙ h

pub AllFiled-cons :
    (c : Category) (categories : List Category) (rows : List Product)
    → AllFiled categories rows
    → AllFiled (c ∷ categories) rows
unfolding has_category is_category
AllFiled-cons c categories [] h = tt
AllFiled-cons c categories (p ∷ rest) h =
    (has_category-cons p.category_id h.0, AllFiled-cons c categories rest h.1)
  where
    has_category-cons :
        (o : Option ℤ) → has_category o categories ≡ true → has_category o (c ∷ categories) ≡ true
    has_category-cons none h = refl
    has_category-cons (some other) h = ground arith

pub AllFiled-replace :
    (categories : List Category) (p : Product) (rows : List Product)
    → has_category p.category_id categories ≡ true
    → AllFiled categories rows
    → AllFiled categories (replace_product p rows)
unfolding replace_product
AllFiled-replace categories p [] n h = tt
AllFiled-replace categories p (q ∷ rest) n h =
    let ih = AllFiled-replace categories p rest n h.1 in ground arith

pub AllFiled-delete :
    (categories : List Category) (id : ℤ) (rows : List Product)
    → AllFiled categories rows
    → AllFiled categories (delete_product id rows)
unfolding delete_product
AllFiled-delete categories id [] h = tt
AllFiled-delete categories id (q ∷ rest) h =
    let ih = AllFiled-delete categories id rest h.1 in ground arith
