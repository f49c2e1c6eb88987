-- ===== src/Tests.antt =====
-- The tests of the model, and concrete inputs for its theorems.
mod Transfers
mod Slots
mod Records
mod Wires
mod Sessions
mod Tasks
mod Endpoints
