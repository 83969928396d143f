-- ===== src/Panel.antt =====
-- crates/panel-server: the panel.
pub mod Split
pub mod Dispatcher
pub mod Sessions
pub mod Db
pub mod Ports
pub mod Settings
pub mod Grants
pub mod Rules
pub mod Sweeper
pub mod Util
pub mod Dispatch
pub mod Sample
pub mod Users
