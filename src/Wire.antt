-- ===== src/Wire.antt =====
-- endpoint/ipc/wire.h: the shared-memory wires between the server and its clients.
pub mod Ring
pub mod Header
pub mod SimpleWire
pub mod Transfer
pub mod RequestWire
pub mod ResponseWire
pub mod ConnectionQueue
pub mod ResultWire
