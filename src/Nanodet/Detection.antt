-- ===== src/Nanodet/Detection.antt =====
-- A detected object: `Detection` of analytics/nanodet/src/nanodettensordec/decode.rs.
use gstsmith_rs.Prelude.{ℕ}
use gstsmith_rs.Nanodet.Float.{F32}

pub record Detection : Type 0 where
  pub class : ℕ
  pub score : F32
  pub x1 : F32
  pub y1 : F32
  pub x2 : F32
  pub y2 : F32
  pub ordinal : ℕ
