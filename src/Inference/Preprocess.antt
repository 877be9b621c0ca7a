-- ===== src/Inference/Preprocess.antt =====
-- The packing of a video frame into an input tensor: analytics/inference-common/src/preprocess.rs.
-- The arithmetic of `f32` is the parameter `Scale`: the value of a byte in a range.
pub mod Places
pub mod Pixels
pub mod Rows
pub mod Frames
pub mod Packed
mod Tests
use gstsmith_rs.Prelude.{
  ℕ, zero, suc, ◌+◌, ◌-◌, ◌*◌, Bool, true, false, not, ◌&&◌, Option, none, some, List, [], ◌∷◌,
  ◌==◌, ltb, leb, if◌then◌else◌, length, get_elem?, set, take, drop, replicate, checked_add,
  checked_mul, u64_mod, Result, ok, err, ◌>>=◌, ◌>>◌, guard, ok_or,
}
use gstsmith_rs.Inference.Shape.{
  TensorDescription, ScalarType, uint8, float32, ImageLayout, image_layout,
}

pub data PixelFormat : Type 0 where
  rgb bgr rgba bgra : PixelFormat

pub data ChannelOrder : Type 0 where
  rgb_order bgr_order : ChannelOrder

pub data PreprocessFault : Type 0 where
  row_overflow short_stride size_overflow short_frame other_dimensions : PreprocessFault
  tensor_overflow no_range output_overflow other_type short_row index_overflow : PreprocessFault
  no_red no_green no_blue : PreprocessFault

unfoldable pub destination_channel : ChannelOrder → ℕ → ℕ
destination_channel rgb_order semantic_channel = semantic_channel
destination_channel bgr_order semantic_channel = 2 - semantic_channel

unfoldable pub bytes_per_pixel : PixelFormat → ℕ
bytes_per_pixel rgb = 3
bytes_per_pixel bgr = 3
bytes_per_pixel rgba = 4
bytes_per_pixel bgra = 4

abbrev order : PixelFormat → ℕ → ℕ → ℕ → List ℕ
order rgb red green blue = red ∷ green ∷ blue ∷ []
order rgba red green blue = red ∷ green ∷ blue ∷ []
order bgr red green blue = blue ∷ green ∷ red ∷ []
order bgra red green blue = blue ∷ green ∷ red ∷ []

-- `PixelFormat::rgb`.
unfoldable pub rgb_of : PixelFormat → List ℕ → Result PreprocessFault (List ℕ)
rgb_of format source = do
  red ← ok_or (get_elem? source 0) no_red
  green ← ok_or (get_elem? source 1) no_green
  blue ← ok_or (get_elem? source 2) no_blue
  ok (order format red green blue)

-- What a call of the closure does: an index, a channel and a value written to the output.
abbrev pub Write : Type 0 → Type 0
Write V = ℕ → ℕ → ℕ → List V → Result PreprocessFault (List V)

module _ {V : Type 0} (write : Write V) where
  -- The loop over the channels of a pixel.
  unfoldable pub write_channels : ℕ → ℕ → List ℕ → List V → Result PreprocessFault (List V)
  write_channels index channel [] packed = ok packed
  write_channels index channel (value ∷ values) packed =
      write index channel value packed >>= write_channels index (suc channel) values

  -- The loop over the pixels of a row: of `left` pixels, as many as the bytes hold.
  unfoldable pub copy_row :
      PixelFormat → ℕ → ℕ → ℕ → ℕ → List ℕ → List V → Result PreprocessFault (List V)
  unfolding rgb_of bytes_per_pixel write_channels
  copy_row format width row_index column zero pixels packed = ok packed
  copy_row format width row_index column (suc left) pixels packed =
      let n = bytes_per_pixel format in
      let rest = copy_row format width row_index (suc column) left (drop n pixels) in
      if ltb (length pixels) n then ok packed else (do
        values ← rgb_of format (take n pixels)
        before ← ok_or (checked_mul u64_mod row_index width) index_overflow
        index ← ok_or (checked_add u64_mod before column) index_overflow
        written ← write_channels index 0 values packed
        rest written)

  -- The loop over `left` rows, as many as the source holds.
  unfoldable pub copy_rows :
      PixelFormat → ℕ → ℕ → ℕ → ℕ → ℕ → List ℕ → List V → Result PreprocessFault (List V)
  unfolding copy_row
  copy_rows format stride width row_bytes row_index zero source packed = ok packed
  copy_rows format stride width row_bytes row_index (suc left) source packed =
      let rest =
        copy_rows format stride width row_bytes (suc row_index) left (drop stride source) in
      if ltb (length source) stride then ok packed else (do
        guard (leb row_bytes stride) short_row
        written ←
            copy_row format width row_index 0 width (take row_bytes (take stride source)) packed
        rest written)

  -- The stride is not zero: `chunks_exact` panics on one.
  unfoldable pub copy_pixels :
      List ℕ → ℕ → ℕ → ℕ → PixelFormat → List V → Result PreprocessFault (List V)
  unfolding bytes_per_pixel copy_rows
  copy_pixels source stride width height format packed = do
    row_bytes ← ok_or (checked_mul u64_mod width (bytes_per_pixel format)) row_overflow
    copy_rows format stride width row_bytes 0 height source packed

-- Where a value goes.
unfoldable pub destination : Bool → ChannelOrder → ℕ → ℕ → ℕ → ℕ → ℕ
unfolding destination_channel
destination channels_first channel_order width height index channel =
    let d = destination_channel channel_order channel in
    if channels_first then d * width * height + index else index * 3 + d

-- `packed.get_mut(destination)` and the assignment.
abbrev pub put_value : {V : Type 0} → ℕ → V → List V → Result PreprocessFault (List V)
put_value at v packed = if ltb at (length packed) then ok (set packed at v) else err output_overflow

pub data InputTensor (F : Type 0) : Type 0 where
  packed_uint8 : List ℕ → InputTensor F
  packed_float32 : List F → InputTensor F

abbrev pub write_uint8 : Bool → ChannelOrder → ℕ → ℕ → Write ℕ
write_uint8 first channel_order width height index channel value =
    put_value (destination first channel_order width height index channel) value

-- `filter` of the layout.
abbrev pub fitting : Option ImageLayout → ℕ → ℕ → Option ImageLayout
fitting none width height = none
fitting (some l) width height = if (l.width == width) && (l.height == height) then some l else none

-- One range for all channels, or one for each.
unfoldable pub range_of : {F : Type 0} → List (F × F) → ℕ → Option (F × F)
range_of ranges channel = get_elem? ranges (if length ranges == 1 then 0 else channel)

module _ {F : Type 0} (f_zero : F) (scale : F × F → ℕ → F) where
  abbrev pub write_float32 : List (F × F) → Bool → ChannelOrder → ℕ → ℕ → Write F
  write_float32 ranges first channel_order width height index channel value packed =
      ok_or (range_of ranges channel) no_range >>= λ range.
      put_value (destination first channel_order width height index channel) (scale range value)
        packed

  unfoldable pub pack :
      ScalarType
      → List (F × F)
      → List ℕ
      → ℕ
      → ℕ
      → ℕ
      → PixelFormat
      → ChannelOrder
      → Bool
      → ℕ
      → Result PreprocessFault (InputTensor F)
  unfolding copy_pixels destination range_of
  pack uint8 ranges source stride width height format channel_order first values =
      copy_pixels (write_uint8 first channel_order width height) source stride width height format
        (replicate values 0)
      >>= λ packed. ok (packed_uint8 packed)
  pack float32 ranges source stride width height format channel_order first values =
      copy_pixels (write_float32 ranges first channel_order width height) source stride width height
        format (replicate values f_zero)
      >>= λ packed. ok (packed_float32 packed)
  pack _ ranges source stride width height format channel_order first values = err other_type

  unfoldable pub preprocess :
      List ℕ
      → ℕ
      → ℕ
      → ℕ
      → PixelFormat
      → ChannelOrder
      → TensorDescription F
      → Result PreprocessFault (InputTensor F)
  unfolding bytes_per_pixel image_layout pack
  preprocess source stride width height format channel_order input = do
    min_stride ← ok_or (checked_mul u64_mod width (bytes_per_pixel format)) row_overflow
    guard (leb min_stride stride) short_stride
    source_len ← ok_or (checked_mul u64_mod stride height) size_overflow
    guard (leb source_len (length source)) short_frame
    layout ← ok_or (fitting (image_layout input.dims) width height) other_dimensions
    area ← ok_or (checked_mul u64_mod width height) tensor_overflow
    values ← ok_or (checked_mul u64_mod area 3) tensor_overflow
    pack input.data_type input.ranges source stride width height format channel_order
        layout.channels_first values
