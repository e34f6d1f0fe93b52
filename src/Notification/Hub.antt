-- ===== src/Notification/Hub.antt =====
-- internal/notification/hub.go. A `*websocket.Conn` is known by its address, a number; a set of
-- connections is the list of its members. `Add` and `Remove` hold the lock, so each is one step.
use cartnova_go_microservice.Prelude.{
  ℕ, ℤ, Option, none, some, List, [], ◌∷◌, ◌==ℤ◌, nat_eq, if◌then◌else◌,
}

-- type Hub struct
pub record Hub : Type 0 where
  pub clients : ℤ → Option (List ℕ)

abbrev pub new_hub : Hub
new_hub = record { clients = λ _. none }

unfoldable pub insert : ℕ → List ℕ → List ℕ
insert connection [] = connection ∷ []
insert connection (c ∷ rest) =
    let more = insert connection rest in if nat_eq c connection then c ∷ rest else c ∷ more

unfoldable pub delete : ℕ → List ℕ → List ℕ
delete connection [] = []
delete connection (c ∷ rest) =
    let less = delete connection rest in if nat_eq c connection then less else c ∷ less

-- `h.clients[userID] = value`, and `delete(h.clients, userID)` for `none`
unfoldable pub put : ℤ → Option (List ℕ) → Hub → Hub
put user_id value h = record {
  clients = λ other. if other ==ℤ user_id then value else h.clients other;
}

-- What `Add` makes of an entry: a missing set is made first.
unfoldable pub added : ℕ → Option (List ℕ) → List ℕ
unfolding insert
added connection none = insert connection []
added connection (some set) = insert connection set

unfoldable pub add : ℤ → ℕ → Hub → Hub
unfolding put added
add user_id connection h = put user_id (some (added connection (h.clients user_id))) h

unfoldable pub kept : List ℕ → Option (List ℕ)
kept [] = none
kept (c ∷ rest) = some (c ∷ rest)

unfoldable pub removed : ℕ → Option (List ℕ) → Option (List ℕ)
unfolding delete kept
removed connection none = none
removed connection (some set) = kept (delete connection set)

unfoldable pub remove : ℤ → ℕ → Hub → Hub
unfolding put removed
remove user_id connection h = put user_id (removed connection (h.clients user_id)) h

-- The connections that `Broadcast` copies while it holds the lock. A set is ranged over in any order;
-- the list has one of them.
abbrev pub members_of : Option (List ℕ) → List ℕ
members_of none = []
members_of (some set) = set

abbrev pub connections : ℤ → Hub → List ℕ
connections user_id h = members_of (h.clients user_id)
