-- ===== src/Inference/Preprocess/Packed.antt =====
-- The bytes of a packed frame: analytics/inference-common/src/preprocess.rs.
use gstsmith_rs.Prelude.{
  ℕ, ◌+◌, ◌*◌, ◌<◌, ◌≤◌, ◌≡◌, refl, ◌∙◌, Bool, true, arith, List, some, length, get_elem?,
  replicate, ok, u64_mod, ltb, leb, ◌==◌, length-replicate,
}
use gstsmith_rs.Inference.Shape.{TensorDescription, uint8, float32, image_layout, ImageLayout}
use gstsmith_rs.Inference.Preprocess.{
  PixelFormat, ChannelOrder, bytes_per_pixel, copy_pixels, pack, preprocess, packed_uint8,
  write_uint8, write_float32, range_of, packed_float32, Write, destination,
}
use gstsmith_rs.Inference.Preprocess.Pixels.{
  offset, Writes, write_uint8-Writes, write_float32-Writes,
}
use mathlib.Core.Option.{map}
use gstsmith_rs.Inference.Preprocess.Frames.{copy_rows-Frame}

-- What a packed tensor holds: at the place of a channel of a pixel, the value of the byte of the
-- source.
pub record IsPacked {V : Type 0} (value : ℕ → ℕ → V) (first : Bool) (source : List ℕ)
    (stride w h : ℕ) (f : PixelFormat) (o : ChannelOrder) (out : List V) : Type 0 where
  pub sized : length out ≡ w * h * 3
  pub values :
      (row column c : ℕ)
      → row < h
      → column < w
      → c < 3
      → get_elem? out (destination first o w h (row * w + column) c)
        ≡ map
            (value c)
            (get_elem? source (row * stride + (column * bytes_per_pixel f + offset f c)))

module _ (source : List ℕ) (stride w h : ℕ) (f : PixelFormat) (o : ChannelOrder)
    (wide : w * bytes_per_pixel f ≤ stride) (row_size : w * bytes_per_pixel f < u64_mod)
    (long : stride * h ≤ length source) (tensor_size : w * h * 3 < u64_mod) where
  copy_pixels-IsPacked :
      {V : Type 0} (v : V) (value : ℕ → ℕ → V) (first : Bool) (write : Write V)
      → Writes first o w h write value
      → (out : List V) × (copy_pixels write source stride w h f (replicate (w * h * 3) v) ≡ ok out)
        × IsPacked value first source stride w h f o out
  unfolding copy_pixels
  copy_pixels-IsPacked v value first write writes =
      let long2 : h * stride ≤ length source = omega arith in
      let (out, run, frame) =
        copy_rows-Frame first o w h value f stride write writes 0 h source (replicate (w * h * 3) v)
          (omega arith) (omega arith) wide long2 (length-replicate (w * h * 3) v) in
      let c : ltb (w * bytes_per_pixel f) u64_mod ≡ true = ground arith in
      (
        out,
        rw c run,
        record {
          sized = frame.sized;
          values = λ row column c hr hk hc.
              let e : 0 + row ≡ row = omega arith in
              let hit = frame.hit row column c hr hk hc in rw e at hit;
        },
      )

  module _ {F : Type 0} (f_zero : F) (scale : F × F → ℕ → F) (input : TensorDescription F)
      (layout : ImageLayout) where
    -- A frame that passes the checks is packed.
    preprocess-pack :
        image_layout input.dims ≡ some layout
        → layout.width ≡ w
        → layout.height ≡ h
        → stride * h < u64_mod
        → preprocess f_zero scale source stride w h f o input
          ≡ pack f_zero scale input.data_type input.ranges source stride w h f o
              layout.channels_first
              (w * h * 3)
    unfolding preprocess
    preprocess-pack found lw lh size =
        let c0 : ltb (w * bytes_per_pixel f) u64_mod ≡ true = ground arith in
        let c1 : leb (w * bytes_per_pixel f) stride ≡ true = ground arith in
        let c2 : ltb (stride * h) u64_mod ≡ true = ground arith in
        let c3 : leb (stride * h) (length source) ≡ true = ground arith in
        let c4 : (layout.width == w) ≡ true = ground arith in
        let c5 : (layout.height == h) ≡ true = ground arith in
        let c6 : ltb (w * h) u64_mod ≡ true = ground arith in
        let c7 : ltb (w * h * 3) u64_mod ≡ true = ground arith in
        rw (c0, c1, c2, c3, found, c4, c5, c6, c7) refl

-- A frame for an input of bytes that declares an image of the frame's size is packed, when the
-- stride is not zero, a row fits into it, the source has the bytes of all rows, and the sizes are
-- those of the machine: the tensor has three values for each pixel, and the value of a channel of a
-- pixel is the byte of the source that the pixel's format has for the channel, with the stride of
-- the rows, in the place the layout and the order of the channels give it.
pub preprocess-IsPacked :
    {F : Type 0} (f_zero : F) (scale : F × F → ℕ → F) (source : List ℕ) (stride w h : ℕ)
    (f : PixelFormat) (o : ChannelOrder) (input : TensorDescription F) (layout : ImageLayout)
    → image_layout input.dims ≡ some layout
    → layout.width ≡ w
    → layout.height ≡ h
    → input.data_type ≡ uint8
    → 0 < stride
    → w * bytes_per_pixel f ≤ stride
    → w * bytes_per_pixel f < u64_mod
    → stride * h ≤ length source
    → stride * h < u64_mod
    → w * h * 3 < u64_mod
    → (out : List ℕ) × (preprocess f_zero scale source stride w h f o input ≡ ok (packed_uint8 out))
      × IsPacked (λ c byte. byte) layout.channels_first source stride w h f o out
unfolding pack
preprocess-IsPacked f_zero scale source stride w h f o input layout found lw lh typed some_stride
      wide row long size tensor =
    let first = layout.channels_first in
    let (out, run, packed) =
      copy_pixels-IsPacked source stride w h f o wide row long tensor 0 (λ c byte. byte) first
        (write_uint8 first o w h) (write_uint8-Writes first o w h) in
    let checked =
      preprocess-pack source stride w h f o wide row long tensor f_zero scale input layout found lw
        lh size in
    (out, checked ∙ rw (typed, run) refl, packed)

-- A frame for an input of floats that declares an image of the frame's size and a range for each
-- channel is packed, when the stride is not zero, a row fits into it, the source has the bytes of
-- all rows, and the sizes are those of the machine: the tensor has three values for each pixel, and
-- the value of a channel of a pixel is the byte of the source that the pixel's format has for the
-- channel, scaled to the range of the channel, in the place the layout and the order of the channels
-- give it.
pub preprocess_floats-IsPacked :
    {F : Type 0} (f_zero : F) (scale : F × F → ℕ → F) (source : List ℕ) (stride w h : ℕ)
    (f : PixelFormat) (o : ChannelOrder) (input : TensorDescription F) (layout : ImageLayout)
    (range : ℕ → F × F)
    → image_layout input.dims ≡ some layout
    → layout.width ≡ w
    → layout.height ≡ h
    → input.data_type ≡ float32
    → ((c : ℕ) → c < 3 → range_of input.ranges c ≡ some (range c))
    → 0 < stride
    → w * bytes_per_pixel f ≤ stride
    → w * bytes_per_pixel f < u64_mod
    → stride * h ≤ length source
    → stride * h < u64_mod
    → w * h * 3 < u64_mod
    → (out : List F) × (preprocess f_zero scale source stride w h f o input
        ≡ ok (packed_float32 out))
      × IsPacked (λ c. scale (range c)) layout.channels_first source stride w h f o out
unfolding pack
preprocess_floats-IsPacked f_zero scale source stride w h f o input layout range found lw lh typed
      ranged some_stride wide row long size tensor =
    let first = layout.channels_first in
    let (out, run, packed) =
      copy_pixels-IsPacked source stride w h f o wide row long tensor f_zero (λ c. scale (range c))
        first (write_float32 f_zero scale input.ranges first o w h)
        (write_float32-Writes first o w h f_zero scale input.ranges range ranged) in
    let checked =
      preprocess-pack source stride w h f o wide row long tensor f_zero scale input layout found lw
        lh size in
    (out, checked ∙ rw (typed, run) refl, packed)
