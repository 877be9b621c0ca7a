-- ===== src/Inference/Preprocess/Tests.antt =====
-- Runs of analytics/inference-common/src/preprocess.rs on a frame of two pixels.
use gstsmith_rs.Prelude.{
  ℕ, zero, suc, ◌+◌, ◌<◌, ◌≡◌, refl, List, [], ◌∷◌, some, true, pos, codes, ok, arith,
}
use gstsmith_rs.Inference.Shape.{
  uint8, float32, row_major, TensorDescription, ImageLayout, image_layout, image_axes,
}
use gstsmith_rs.Inference.Preprocess.{
  bgr, rgb_order, bgr_order, bytes_per_pixel, rgb_of, write_channels, copy_row, copy_rows,
  copy_pixels, destination, destination_channel, pack, preprocess, packed_uint8, packed_float32,
  range_of,
}
use gstsmith_rs.Inference.Preprocess.Packed.{
  IsPacked, preprocess-IsPacked, preprocess_floats-IsPacked,
}

abbrev planes : TensorDescription ℕ
planes = record {
  name = codes "image";
  id = codes "image";
  data_type = uint8;
  dims = pos 1 ∷ pos 3 ∷ pos 1 ∷ pos 2 ∷ [];
  dim_order = row_major;
  ranges = (0, 255) ∷ [];
}

abbrev planes_layout : ImageLayout
planes_layout = record { channels_first = true; height = 1; width = 2 }

planes_found : image_layout planes.dims ≡ some planes_layout
unfolding image_layout image_axes
planes_found = refl

-- Two pixels and two bytes of padding.
abbrev frame : List ℕ
frame = 10 ∷ 20 ∷ 30 ∷ 11 ∷ 21 ∷ 31 ∷ 0 ∷ 0 ∷ []

preprocess-frame :
    preprocess 0 (λ range byte. byte) frame 8 2 1 bgr rgb_order planes
    ≡ ok (packed_uint8 (30 ∷ 31 ∷ 20 ∷ 21 ∷ 10 ∷ 11 ∷ []))
unfolding preprocess pack copy_pixels copy_rows copy_row write_channels rgb_of bytes_per_pixel
    destination destination_channel image_layout image_axes
preprocess-frame = refl

-- The other order of the channels reverses the planes.
preprocess_reversed :
    preprocess 0 (λ range byte. byte) frame 8 2 1 bgr bgr_order planes
    ≡ ok (packed_uint8 (10 ∷ 11 ∷ 20 ∷ 21 ∷ 30 ∷ 31 ∷ []))
unfolding preprocess pack copy_pixels copy_rows copy_row write_channels rgb_of bytes_per_pixel
    destination destination_channel image_layout image_axes
preprocess_reversed = refl

preprocess-IsPacked_example :
    (out : List ℕ) × (preprocess 0 (λ range byte. byte) frame 8 2 1 bgr rgb_order planes
      ≡ ok (packed_uint8 out))
    × IsPacked (λ c byte. byte) true frame 8 2 1 bgr rgb_order out
unfolding bytes_per_pixel
preprocess-IsPacked_example =
    preprocess-IsPacked 0 (λ range byte. byte) frame 8 2 1 bgr rgb_order planes planes_layout
      planes_found refl refl refl (omega arith) (omega arith) (omega arith) (omega arith)
      (omega arith) (omega arith)

-- The same frame for an input of numbers, with a range for each channel.
abbrev float_planes : TensorDescription ℕ
float_planes = record planes { data_type = float32; ranges = (1, 2) ∷ (3, 4) ∷ (5, 6) ∷ [] }

abbrev first_of : ℕ × ℕ → ℕ → ℕ
first_of range byte = range.0 + byte

abbrev range_at : ℕ → ℕ × ℕ
range_at zero = (1, 2)
range_at (suc zero) = (3, 4)
range_at (suc (suc c)) = (5, 6)

range_of-float_planes : (c : ℕ) → c < 3 → range_of float_planes.ranges c ≡ some (range_at c)
unfolding range_of
range_of-float_planes zero h = refl
range_of-float_planes (suc zero) h = refl
range_of-float_planes (suc (suc zero)) h = refl
range_of-float_planes (suc (suc (suc c))) h = absurd (omega arith)

preprocess_floats-IsPacked_example :
    (out : List ℕ) × (preprocess 0 first_of frame 8 2 1 bgr rgb_order float_planes
      ≡ ok (packed_float32 out))
    × IsPacked (λ c. first_of (range_at c)) true frame 8 2 1 bgr rgb_order out
unfolding bytes_per_pixel
preprocess_floats-IsPacked_example =
    preprocess_floats-IsPacked 0 first_of frame 8 2 1 bgr rgb_order float_planes planes_layout
      range_at planes_found refl refl refl range_of-float_planes (omega arith) (omega arith)
      (omega arith) (omega arith) (omega arith) (omega arith)
