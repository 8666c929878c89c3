-- ===== src/Gateway.antt =====
-- src/gateway: the task that holds the connection to the gateway.
pub mod Payloads
pub mod Emits
pub mod Snapshots
pub mod Bulk
pub mod Recovery
pub mod Connection
pub mod Greeting
pub mod Routing
pub mod Backbone
pub mod Control
pub mod Protocol
pub mod Opening
pub mod Hello
pub mod FirstBeat
pub mod ResumeUrl
pub mod Opens
pub mod Delays
pub mod Sessions
pub mod Frames
pub mod Acks
mod Tests
