-- ===== src/EventBus.antt =====
-- app/services/event_bus.py and app/services/notification_service.py: handlers by event type, and the
-- emails that they enqueue. Log lines are left out.
pub mod Delivery
pub mod Quiet
use paysika.Prelude.{
  ℕ, String, Bool, true, false, Option, none, some, List, [], ◌∷◌, ◌++◌, if◌then◌else◌,
}
use paysika.Errors.{type_error}
use paysika.Domain.Events.{
  Event, EventType, type_of, transfer_completed, transfer_failed, deposit_completed, deposit_failed,
  transfer_completed_type, transfer_failed_type, deposit_completed_type, deposit_initiated_type,
  deposit_failed_type,
}
use paysika.Store.{
  Action, Db, Handler, on_transfer_completed, on_transfer_failed, on_deposit_completed,
  on_deposit_failed, send_email, pure, raise, gets, modify, enqueue, is_set, ◌>>=◌, ◌>>◌,
}
use paysika.Accounts.{find_account, find_user}

abbrev pub same_type : EventType → EventType → Bool
same_type transfer_completed_type transfer_completed_type = true
same_type transfer_failed_type transfer_failed_type = true
same_type deposit_completed_type deposit_completed_type = true
same_type deposit_initiated_type deposit_initiated_type = true
same_type deposit_failed_type deposit_failed_type = true
same_type _ _ = false

-- `_get_user_email`.
unfoldable pub get_user_email : ℕ → Db → Option String
get_user_email account_id d = elim (find_account account_id d) [
  | none ↦ none
  | some account ↦ elim (find_user account.user_id d) [ none ↦ none | some user ↦ some user.email ]
]

abbrev present : List (Option String) → List String
present [] = []
present (none ∷ rest) = present rest
present (some email ∷ rest) = email ∷ present rest

-- `_send_email`.
pub send : Event → List String → Action Unit
send event [] = pure tt
send event (recipient ∷ recipients) = enqueue (send_email event (recipient ∷ recipients))

-- The handlers of one address mail nobody if it is missing or empty.
pub send_to_one : Event → Option String → Action Unit
unfolding send
send_to_one event email = if is_set email then send event (present (email ∷ [])) else pure tt

-- `_handle_transfer_completed` and its three companions, each on the events that it is registered
-- for. For any other event, which no registration brings about, the model raises.
pub handle : Handler → Event → Action Unit
unfolding send send_to_one get_user_email
handle on_transfer_completed (transfer_completed t source target amount currency) = do
  d ← gets (λ s. s.db)
  send (transfer_completed t source target amount currency)
      (present (get_user_email source d ∷ get_user_email target d ∷ []))
handle on_transfer_failed (transfer_failed t source target amount currency reason) = do
  d ← gets (λ s. s.db)
  send_to_one (transfer_failed t source target amount currency reason) (get_user_email source d)
handle on_deposit_completed (deposit_completed t account amount currency) = do
  d ← gets (λ s. s.db)
  send_to_one (deposit_completed t account amount currency) (get_user_email account d)
handle on_deposit_failed (deposit_failed t account amount currency reason) = do
  d ← gets (λ s. s.db)
  send_to_one (deposit_failed t account amount currency reason) (get_user_email account d)
handle _ _ = raise type_error

pub subscribe : EventType → Handler → Action Unit
subscribe event_type handler =
    modify (λ s. record s { handlers = s.handlers ++ (event_type, handler) ∷ [] })

pub run_handlers : List (EventType × Handler) → Event → Action Unit
run_handlers [] event = pure tt
run_handlers ((event_type, handler) ∷ rest) event =
    if same_type event_type (type_of event)
    then handle handler event >> run_handlers rest event
    else run_handlers rest event

pub publish : Event → Action Unit
publish event = do subscribed ← gets (λ s. s.handlers); run_handlers subscribed event

pub clear_handlers : Action Unit
clear_handlers = modify (λ s. record s { handlers = [] })

pub register_handlers : Action Unit
unfolding subscribe
register_handlers = do
  subscribe transfer_completed_type on_transfer_completed
  subscribe transfer_failed_type on_transfer_failed
  subscribe deposit_completed_type on_deposit_completed
  subscribe deposit_failed_type on_deposit_failed
