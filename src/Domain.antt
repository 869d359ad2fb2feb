-- ===== src/Domain.antt =====
-- app/domain: enums, the Money value object and the domain events.
pub mod Enums
pub mod Money
pub mod Events
