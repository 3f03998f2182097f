-- ===== src/Tests.antt =====
-- Runs of the models at concrete inputs, and the theorems at inputs that meet their hypotheses.
mod Data
mod Server
mod Wakeups
mod Streams
mod Client
mod Arguments
mod Systems
mod Starts
mod Rosters
mod Networks
mod Deliveries
mod Conversations
