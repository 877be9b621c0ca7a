-- ===== src/Nanodet.antt =====
-- The decoder of NanoDet tensors: analytics/nanodet/src/nanodettensordec.
pub mod Float
pub mod Detection
pub mod Nms
pub mod Decode
mod Tests
