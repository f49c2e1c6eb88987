-- ===== src/Endpoint.antt =====
-- The endpoints (src/tateyama/endpoint): the framing of the stream endpoint, and what both kinds of
-- endpoint do with the requests of a session.
pub mod Stream
pub mod Handshake
pub mod AliveTimer
pub mod Expiration
pub mod WireWriter
pub mod Requests
pub mod EndOfRecords
pub mod ResponseWriter
