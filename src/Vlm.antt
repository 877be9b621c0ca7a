-- ===== src/Vlm.antt =====
-- The vision-language element: analytics/vlm/src.
pub mod Settings
pub mod Properties
pub mod Config
pub mod Sampler
pub mod Backend
pub mod Element
mod Tests
