-- ===== src/Gui.antt =====
-- src/gui_app.rs: the graphical client.
pub mod Session
pub mod Rows
pub mod Lists
pub mod Panels
pub mod App
pub mod Valid
pub mod Invariant
pub mod Reachable
pub mod Protocol
pub mod Order
pub mod Effects
pub mod Kept
pub mod Lifecycle
pub mod Journey
pub mod Delivery
mod Tests
