-- ===== src/Notification/HubLaws.antt =====
-- The connections that the hub holds.
use cartnova_go_microservice.Prelude.{
  ℕ, ℤ, ◌≡◌, refl, ap, ◌∙◌, inl, inr, ◌&&◌, ==ℤ_iff, sym, Bool, true, false, Option, none, some,
  List, [], ◌∷◌, ◌==ℤ◌, nat_eq, Bool-cases, if◌then◌else◌, arith,
}
use cartnova_go_microservice.Notification.Hub.{
  Hub, insert, delete, put, added, kept, removed, add, remove, members_of, connections,
}

-- Whether a connection is in a set.
unfoldable pub holds : ℕ → List ℕ → Bool
holds connection [] = false
holds connection (c ∷ rest) = if nat_eq c connection then true else holds connection rest

abbrev pub IsDistinct : List ℕ → Type 0
IsDistinct [] = Unit
IsDistinct (c ∷ rest) = (holds c rest ≡ false) × IsDistinct rest

-- An entry of the map has a connection, and none twice.
abbrev pub IsEntry : Option (List ℕ) → Type 0
IsEntry none = Unit
IsEntry (some []) = ⊥
IsEntry (some (c ∷ rest)) = IsDistinct (c ∷ rest)

abbrev pub IsHub : Hub → Type 0
IsHub h = (user_id : ℤ) → IsEntry (h.clients user_id)

holds-insert :
    (d c : ℕ) (set : List ℕ) → holds d (insert c set) ≡ (if nat_eq c d then true else holds d set)
unfolding holds insert
holds-insert d c [] = refl
holds-insert d c (x ∷ rest) = let ih = holds-insert d c rest in ground arith

holds-delete :
    (d c : ℕ) (set : List ℕ) → holds d (delete c set) ≡ (if nat_eq c d then false else holds d set)
unfolding holds delete
holds-delete d c [] = ground arith
holds-delete d c (x ∷ rest) = let ih = holds-delete d c rest in ground arith

IsDistinct-insert : (c : ℕ) (set : List ℕ) → IsDistinct set → IsDistinct (insert c set)
unfolding insert holds
IsDistinct-insert c [] h = (refl, tt)
IsDistinct-insert c (x ∷ rest) h =
    let ih = IsDistinct-insert c rest h.1 in let k = holds-insert x c rest in ground arith

IsDistinct-delete : (c : ℕ) (set : List ℕ) → IsDistinct set → IsDistinct (delete c set)
unfolding delete holds
IsDistinct-delete c [] h = tt
IsDistinct-delete c (x ∷ rest) h =
    let ih = IsDistinct-delete c rest h.1 in let k = holds-delete x c rest in ground arith

holds-added :
    (d c : ℕ) (entry : Option (List ℕ))
    → holds d (added c entry) ≡ (if nat_eq c d then true else holds d (members_of entry))
unfolding added
holds-added d c none = holds-insert d c []
holds-added d c (some set) = holds-insert d c set

members-kept : (set : List ℕ) → members_of (kept set) ≡ set
unfolding kept
members-kept [] = refl
members-kept (c ∷ rest) = refl

holds-removed :
    (d c : ℕ) (entry : Option (List ℕ))
    → holds d (members_of (removed c entry))
      ≡ (if nat_eq c d then false else holds d (members_of entry))
unfolding removed
holds-removed d c none = holds-delete d c []
holds-removed d c (some set) = ap (holds d) (members-kept (delete c set)) ∙ holds-delete d c set

-- `Add` adds the one connection for the one user, and nothing else changes.
pub connections-add :
    (h : Hub) (user_id other : ℤ) (c d : ℕ)
    → holds d (connections other (add user_id c h))
      ≡ (if (other ==ℤ user_id) && nat_eq c d then true else holds d (connections other h))
unfolding add put
connections-add h user_id other c d = elim (Bool-cases (other ==ℤ user_id)) [
  | inl e ↦ rw (e) (
      holds-added d c (h.clients user_id)
      ∙ ap (λ u. if nat_eq c d then true else holds d (connections u h))
          (sym ((==ℤ_iff other user_id).0 e)))
  | inr e ↦ rw (e) refl
]

-- `Remove` removes the one connection of the one user, and nothing else changes.
pub connections-remove :
    (h : Hub) (user_id other : ℤ) (c d : ℕ)
    → holds d (connections other (remove user_id c h))
      ≡ (if (other ==ℤ user_id) && nat_eq c d then false else holds d (connections other h))
unfolding remove put
connections-remove h user_id other c d = elim (Bool-cases (other ==ℤ user_id)) [
  | inl e ↦ rw (e) (
      holds-removed d c (h.clients user_id)
      ∙ ap (λ u. if nat_eq c d then false else holds d (connections u h))
          (sym ((==ℤ_iff other user_id).0 e)))
  | inr e ↦ rw (e) refl
]

IsEntry-holds : (c : ℕ) (set : List ℕ) → holds c set ≡ true → IsDistinct set → IsEntry (some set)
unfolding holds
IsEntry-holds c [] e h = absurd (cc)
IsEntry-holds c (x ∷ rest) e h = h

IsEntry-kept : (set : List ℕ) → IsDistinct set → IsEntry (kept set)
unfolding kept
IsEntry-kept [] h = tt
IsEntry-kept (x ∷ rest) h = h

IsEntry-IsDistinct : (entry : Option (List ℕ)) → IsEntry entry → IsDistinct (members_of entry)
IsEntry-IsDistinct none h = tt
IsEntry-IsDistinct (some []) h = tt
IsEntry-IsDistinct (some (x ∷ rest)) h = h

insert-holds : (c : ℕ) (set : List ℕ) → holds c (insert c set) ≡ true
insert-holds c set = holds-insert c c set ∙ ground arith

IsEntry-added : (c : ℕ) (entry : Option (List ℕ)) → IsEntry entry → IsEntry (some (added c entry))
unfolding added
IsEntry-added c none h =
    IsEntry-holds c (insert c []) (insert-holds c []) (IsDistinct-insert c [] tt)
IsEntry-added c (some set) h =
    IsEntry-holds c (insert c set) (insert-holds c set)
      (IsDistinct-insert c set (IsEntry-IsDistinct (some set) h))

IsEntry-removed : (c : ℕ) (entry : Option (List ℕ)) → IsEntry entry → IsEntry (removed c entry)
unfolding removed
IsEntry-removed c none h = tt
IsEntry-removed c (some set) h =
    IsEntry-kept (delete c set) (IsDistinct-delete c set (IsEntry-IsDistinct (some set) h))

pub IsHub-add : (h : Hub) (user_id : ℤ) (c : ℕ) → IsHub h → IsHub (add user_id c h)
unfolding add put
IsHub-add h user_id c k other =
    elim (other ==ℤ user_id)
      as (λ b. IsEntry (if b then some (added c (h.clients user_id)) else h.clients other)) [
        | true ↦ IsEntry-added c (h.clients user_id) (k user_id)
        | false ↦ k other
      ]

pub IsHub-remove : (h : Hub) (user_id : ℤ) (c : ℕ) → IsHub h → IsHub (remove user_id c h)
unfolding remove put
IsHub-remove h user_id c k other =
    elim (other ==ℤ user_id)
      as (λ b. IsEntry (if b then removed c (h.clients user_id) else h.clients other)) [
        | true ↦ IsEntry-removed c (h.clients user_id) (k user_id)
        | false ↦ k other
      ]
