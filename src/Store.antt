-- ===== src/Store.antt =====
-- The state that the services share: app/models (the tables), app/extensions.py (session, cache and
-- queues), and the actions that read and write it.
mod Rows
mod World
mod Actions
pub mod Freshness
pub mod Keeps
pub use Rows.*
pub use World.*
unfoldable pub use Actions.*
