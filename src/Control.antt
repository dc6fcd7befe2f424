-- ===== src/Control.antt =====
-- internal/control: the control pane, an HTTP service over a PostgreSQL database.
pub mod Session
pub mod Db
pub mod Billing
pub mod Matching
pub mod Accounts
pub mod Sellers
pub mod Tracking
pub mod Frames
pub mod Http
mod Examples
