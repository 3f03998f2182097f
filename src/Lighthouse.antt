-- ===== src/Lighthouse.antt =====
-- cmd/lighthouse: the signaling server and its dashboard.
pub mod State
pub mod Html
pub mod Events
pub mod Handoffs
pub mod Register
pub mod Peers
pub mod Frame
pub mod Connect
pub mod Signals
pub mod Wakeup
pub mod Serve
pub mod Board
pub mod Startup
pub mod Routes
pub mod Streams
