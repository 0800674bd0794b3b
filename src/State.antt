-- ===== src/State.antt =====
-- internal/state: the names that may log in (principal.go) and the cache of the last sync (cache.go).
pub mod Principal
pub mod Cache
mod Tests
