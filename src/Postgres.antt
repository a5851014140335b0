-- ===== src/Postgres.antt =====
-- `servePostgres` of pkg/postgres.go. Startup has the handshake, Messages the protocol's messages,
-- Handlers and Portals the cases of the switch, and Loop one turn of the message loop and its runs.
pub mod Messages
pub mod Dictionary
pub mod Encoding
pub mod Handlers
pub mod Portals
pub mod Loop
pub mod Startup
pub mod Connection
