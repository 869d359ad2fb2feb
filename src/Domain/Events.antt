-- ===== src/Domain/Events.antt =====
-- app/domain/events.py: the domain events, with their fields in the order of the source.
use paysika.Prelude.{ℕ, String}
use paysika.Prelude.Int.{ℤ}

pub data Event : Type 0 where
  transfer_completed : ℕ → ℕ → ℕ → ℤ → String → Event
  transfer_failed : ℕ → ℕ → ℕ → ℤ → String → String → Event
  deposit_completed : ℕ → ℕ → ℤ → String → Event
  deposit_initiated : ℕ → ℕ → ℤ → String → Event
  deposit_failed : ℕ → ℕ → ℤ → String → String → Event

-- `type(event)`, the key of the handlers' table.
pub data EventType : Type 0 where
  transfer_completed_type transfer_failed_type deposit_completed_type : EventType
  deposit_initiated_type deposit_failed_type : EventType

unfoldable pub type_of : Event → EventType
type_of (transfer_completed _ _ _ _ _) = transfer_completed_type
type_of (transfer_failed _ _ _ _ _ _) = transfer_failed_type
type_of (deposit_completed _ _ _ _) = deposit_completed_type
type_of (deposit_initiated _ _ _ _) = deposit_initiated_type
type_of (deposit_failed _ _ _ _ _) = deposit_failed_type
