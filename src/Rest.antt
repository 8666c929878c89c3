-- ===== src/Rest.antt =====
-- src/rest.rs: the REST dispatcher and the handle by which the frontend submits its commands.
pub mod Commands
pub mod Handle
pub mod Responses
pub mod Dispatcher
pub mod Build
pub mod Submits
pub mod Bodies
pub mod Retries
pub mod Waits
pub mod Schedule
pub mod Reader
pub mod Routes
pub mod Headers
pub mod Whole
mod Tests
