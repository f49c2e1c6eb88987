-- ===== src/Session.antt =====
-- The session component (src/tateyama/session): session variables, the sessions of the server, and
-- the operations of the session service on them.
pub mod Variables
pub mod Context
pub mod Container
pub mod Numbers
pub mod Bridge
