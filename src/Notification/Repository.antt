-- ===== src/Notification/Repository.antt =====
-- internal/notification/repository.go. The key `_id` of both collections is unique.
use cartnova_go_microservice.Prelude.{
  ℤ, String, Bool, false, not, ◌||◌, List, [], ◌∷◌, ◌++◌, ◌==◌, ◌==ℤ◌, if◌then◌else◌,
}
use cartnova_go_microservice.Go.{foreign, Result, ok, err}
use cartnova_go_microservice.World.{Run, return, perform, query, ◌>>=◌, ◌>>◌, new_uuid, now}
use cartnova_go_microservice.Notification.Model.{Notification, Store}

-- A duplicate key becomes `false`, any other error is returned.
unfoldable pub mark_processed : String → Run Store Bool
mark_processed event_id = perform λ s. (
  ok (not (s.processed_events event_id)),
  record s { processed_events = λ other. (event_id == other) || s.processed_events other },
)

unfoldable pub has_notification : String → List Notification → Bool
has_notification id [] = false
has_notification id (n ∷ rest) = (n.id == id) || has_notification id rest

-- `collection.InsertOne`
unfoldable pub insert_one : Notification → Store → Result (Unit {0}) × Store
unfolding has_notification
insert_one n s =
    if has_notification n.id s.notifications
    then (err (foreign "E11000 duplicate key error"), s)
    else (ok tt, record s { notifications = s.notifications ++ n ∷ [] })

unfoldable pub create : ℤ → ℤ → String → String → Run Store Notification
create user_id order_id event_type message = do
  id ← new_uuid
  time ← now
  let notification : Notification = record {
    id = id;
    user_id = user_id;
    order_id = order_id;
    event_type = event_type;
    message = message;
    created_at = time;
  }
  perform (insert_one notification)
  return notification

unfoldable pub of_user : ℤ → List Notification → List Notification
of_user user_id [] = []
of_user user_id (n ∷ rest) =
    let more = of_user user_id rest in if n.user_id ==ℤ user_id then n ∷ more else more

unfoldable pub find_by_user_id : ℤ → Run Store (List Notification)
find_by_user_id user_id = query λ s. ok (of_user user_id s.notifications)
