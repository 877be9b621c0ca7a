-- ===== src/Inference.antt =====
-- analytics/inference-common/src: model-info, shapes and tensors shared by the inference plugins.
pub mod Shape
pub mod Sections
pub mod ModelInfo
pub mod Tensors
pub mod Decode
pub mod Preprocess
mod Tests
