-- ===== src/History.antt =====
-- src/history.rs: the pager that loads a channel's history page by page.
pub mod Pager
pub mod Protocol
pub mod UnderWay
pub mod Loads
pub mod Stall
mod Tests
