-- ===== src/Api.antt =====
-- src/api/client_http.rs: the requests of clients, their commands, and the answers they get.
pub mod Handlers
pub mod Commands
pub mod Reads
mod Tests
