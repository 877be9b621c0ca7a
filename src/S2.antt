-- ===== src/S2.antt =====
-- The sink and the source of S2 streams: net/s2/src.
pub mod Config
pub mod Queue
pub mod Worker
pub mod Source
mod Tests
