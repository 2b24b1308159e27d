-- ===== src/Api.antt =====
-- The HTTP API (cmd/api/main.go): it reads what the daemon keeps in Redis and answers with JSON.
pub mod Codes
pub mod Sanitize
pub mod Json
pub mod Numbers
pub mod Server
pub mod Pool
pub mod Blocks
pub mod Miners
pub mod FoundBlock
pub mod Stats
pub mod Serve
