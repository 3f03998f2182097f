-- ===== src/Mesh.antt =====
-- cmd/quicchat/mesh.go: the client's side of the mesh.
pub mod State
pub mod Names
pub mod Candidates
pub mod Dial
pub mod Links
pub mod Inbound
pub mod Chat
pub mod Backoff
pub mod Start
pub mod Listen
pub mod Loops
pub mod Run
pub mod Flights
