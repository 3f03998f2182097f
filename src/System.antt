-- ===== src/System.antt =====
-- The programs together: the lighthouse and two clients.
pub mod Punch
pub mod Meet
pub mod Handshakes
pub mod Alive
pub mod Roster
pub mod Restart
pub mod Requests
pub mod Network
pub mod Sidebar
pub mod Delivery
pub mod Conversation
