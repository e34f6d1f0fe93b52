-- ===== src/Notification/Ids.antt =====
-- What the notification service reads of the events that the order service publishes.
use cartnova_go_microservice.Prelude.{
  ap, ℤ, pos, String, ◌≡◌, refl, Bool, true, false, inl, inr, ◌⊎◌, subst, sym, eq_iff,
  append_nonempty, format_int, ◌==◌, ◌<>◌, int64, Bool-cases, if◌then◌else◌, arith,
}
use cartnova_go_microservice.Go.{ok}
use cartnova_go_microservice.Json.{int_field, string_field, store_int, store_string, members}
use cartnova_go_microservice.Order.Model.{
  reason_member, InventoryResultPayload, is_allowed_status, marshal_result_payload,
}
use cartnova_go_microservice.Order.Service.{status_title}
use cartnova_go_microservice.Notification.Model.{unmarshal_order_event}
use cartnova_go_microservice.Notification.Service.{notification_message}

-- Of a payload that the order service marshals, with an int64 user id, the notification service takes
-- the user's id for the order's, and 0 for the user's.
pub swapped_ids :
    (p : InventoryResultPayload)
    → int64 p.user_id ≡ true
    → unmarshal_order_event (marshal_result_payload p)
      ≡ ok (record { order_id = p.user_id; user_id = pos 0; reason = p.reason })
unfolding unmarshal_order_event marshal_result_payload int_field string_field store_int store_string
    members reason_member
swapped_ids p k = elim (Bool-cases (p.reason == "")) [
  | inl e ↦
      rw (e, k)
        (ap (λ r. ok (record { order_id = p.user_id; user_id = pos 0; reason = r }))
          (sym ((eq_iff p.reason "").0 e)))
  | inr e ↦ rw (e, k) refl
]

allowed_statuses :
    (status : String)
    → is_allowed_status status ≡ true
    → (status ≡ "CREATED")
      ⊎ (status ≡ "CONFIRMED")
      ⊎ (status ≡ "PROCESSING")
      ⊎ (status ≡ "SHIPPED")
      ⊎ (status ≡ "DELIVERED")
      ⊎ (status ≡ "CANCELLED")
unfolding is_allowed_status
allowed_statuses status h = ground (
  arith,
  (eq_iff status "CREATED").0,
  (eq_iff status "CONFIRMED").0,
  (eq_iff status "PROCESSING").0,
  (eq_iff status "SHIPPED").0,
  (eq_iff status "DELIVERED").0,
  (eq_iff status "CANCELLED").0,
)

abbrev IsNotified : String → ℤ → String → Type 0
IsNotified reason order_id status =
    (notification_message ("Order" <> status_title status) order_id reason == "") ≡ false

sentence_nonempty :
    (order_id : ℤ) (rest : String) → ((("Order #" <> format_int order_id) <> rest) == "") ≡ false
sentence_nonempty order_id rest =
    append_nonempty ("Order #" <> format_int order_id) rest
      (append_nonempty "Order #" (format_int order_id) refl)

cancelled_nonempty :
    (order_id : ℤ) (b : Bool) (long short : String)
    → ((if b
          then ("Order #" <> format_int order_id) <> long
          else ("Order #" <> format_int order_id) <> short)
        == "")
      ≡ false
cancelled_nonempty order_id true long short = sentence_nonempty order_id long
cancelled_nonempty order_id false long short = sentence_nonempty order_id short

-- Every status that an order can be set to has a notification.
pub allowed_status_notified :
    (status reason : String) (order_id : ℤ)
    → is_allowed_status status ≡ true
    → (notification_message ("Order" <> status_title status) order_id reason == "") ≡ false
unfolding notification_message status_title
allowed_status_notified status reason order_id h = elim (allowed_statuses status h) [
  | inl e ↦ subst (IsNotified reason order_id) (sym e) (sentence_nonempty order_id _)
  | inr (inl e) ↦ subst (IsNotified reason order_id) (sym e) (sentence_nonempty order_id _)
  | inr (inr (inl e)) ↦ subst (IsNotified reason order_id) (sym e) (sentence_nonempty order_id _)
  | inr (inr (inr (inl e))) ↦
      subst (IsNotified reason order_id) (sym e) (sentence_nonempty order_id _)
  | inr (inr (inr (inr (inl e)))) ↦
      subst (IsNotified reason order_id) (sym e) (sentence_nonempty order_id _)
  | inr (inr (inr (inr (inr e)))) ↦
      subst (IsNotified reason order_id) (sym e) (cancelled_nonempty order_id _ _ _)
]
