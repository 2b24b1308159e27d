-- ===== src/Expiry.antt =====
-- The caches of responses: cmd/api/cache.go, whose entries carry when they expire, and
-- cmd/web/cache.go, whose entries carry when they were made. Times are counted from one origin; the
-- locks make each operation one step.
pub mod Api
pub mod Web
