-- ===== src/Inference/Shape.antt =====
-- analytics/inference-common/src/model_info.rs: scalar types, tensor descriptions, and the checks on
-- dimensions.
pub mod Size
pub mod Layout
pub mod Names
pub mod Concrete
use gstsmith_rs.Prelude.{
  ℕ, zero, suc, ◌+◌, ◌*◌, ◌-◌, Bool, true, false, not, ◌&&◌, ◌||◌, List, [], ◌∷◌, Option, none,
  some, ◌==◌, ltb, leb, if◌then◌else◌, length, is_empty, any, all, take, drop, u64_mod, i32_max,
  isize_max, checked_mul, checked_sub, Result, ok, err, ◌>>=◌, ◌>>◌, guard, ok_or, map_err, ℤ, pos,
  negsuc, is_minus_one, try_usize, Text, codes, text_eq, is_some,
}

pub data ScalarType : Type 0 where
  float16 float64 float32 : ScalarType
  int8 int16 int32 int64 : ScalarType
  uint8 uint16 uint32 uint64 : ScalarType

pub data DimOrder : Type 0 where
  row_major col_major : DimOrder

-- Why a model-info or a tensor is refused, by the message.
pub data InfoError : Type 0 where
  unsupported_scalar unsupported_order bad_axes too_large not_concrete dims_mismatch : InfoError
  invalid_file missing_header missing_key unsupported_version empty_text invalid_dir : InfoError
  invalid_dimension empty_dims impossible_dimension wildcard_in_video order_not_row_major :
      InfoError
  unsupported_input invalid_range infinite_range empty_ranges duplicate_id no_output : InfoError
  not_one_input no_input bad_batch bad_image bad_range_count not_an_image : InfoError

-- `ScalarType::parse`.
unfoldable pub parse_scalar : Text → Result InfoError ScalarType
parse_scalar value =
    if text_eq value (codes "float16")
    then ok float16
    else if text_eq value (codes "float64")
    then ok float64
    else if text_eq value (codes "float32")
    then ok float32
    else if text_eq value (codes "int8")
    then ok int8
    else if text_eq value (codes "int16")
    then ok int16
    else if text_eq value (codes "int32")
    then ok int32
    else if text_eq value (codes "int64")
    then ok int64
    else if text_eq value (codes "uint8")
    then ok uint8
    else if text_eq value (codes "uint16")
    then ok uint16
    else if text_eq value (codes "uint32")
    then ok uint32
    else if text_eq value (codes "uint64")
    then ok uint64
    else err unsupported_scalar

unfoldable pub is_supported_input : ScalarType → Bool
is_supported_input float32 = true
is_supported_input uint8 = true
is_supported_input _ = false

-- Bytes per element: `ScalarType::size`.
unfoldable pub scalar_size : ScalarType → ℕ
scalar_size int8 = 1
scalar_size uint8 = 1
scalar_size float16 = 2
scalar_size int16 = 2
scalar_size uint16 = 2
scalar_size float32 = 4
scalar_size int32 = 4
scalar_size uint32 = 4
scalar_size float64 = 8
scalar_size int64 = 8
scalar_size uint64 = 8

unfoldable pub scalar_caps_name : ScalarType → Text
scalar_caps_name float16 = codes "float16"
scalar_caps_name float64 = codes "float64"
scalar_caps_name float32 = codes "float32"
scalar_caps_name int8 = codes "int8"
scalar_caps_name int16 = codes "int16"
scalar_caps_name int32 = codes "int32"
scalar_caps_name int64 = codes "int64"
scalar_caps_name uint8 = codes "uint8"
scalar_caps_name uint16 = codes "uint16"
scalar_caps_name uint32 = codes "uint32"
scalar_caps_name uint64 = codes "uint64"

-- `DimOrder::parse`; a missing value is "row-major".
unfoldable pub parse_order : Option Text → Result InfoError DimOrder
parse_order none = ok row_major
parse_order (some value) =
    if text_eq value (codes "row-major")
    then ok row_major
    else if text_eq value (codes "col-major")
    then ok col_major
    else err unsupported_order

unfoldable pub order_caps_name : DimOrder → Text
order_caps_name row_major = codes "row-major"
order_caps_name col_major = codes "col-major"

-- `F` stands for `f32`. A dimension is an `i32`: a positive size, or the wildcard -1.
pub record TensorDescription (F : Type 0) : Type 0 where
  pub name : Text
  pub id : Text
  pub data_type : ScalarType
  pub dims : List ℤ
  pub dim_order : DimOrder
  pub ranges : List (F × F)

-- `*dim == 0 || i32::try_from(*dim).is_err()`.
abbrev pub bad_axis : ℕ → Bool
bad_axis dim = dim == 0 || ltb i32_max dim

-- `try_fold(size, |size, dim| size.checked_mul(*dim))`.
unfoldable pub checked_product : ℕ → List ℕ → Option ℕ
checked_product size [] = some size
checked_product size (dim ∷ dims) = elim (checked_mul u64_mod size dim) [
  | none ↦ none
  | some size' ↦ checked_product size' dims
]

-- The byte size of a tensor, with every axis and multiplication checked.
unfoldable pub tensor_byte_size : List ℕ → ScalarType → Result InfoError ℕ
tensor_byte_size dims data_type = do
  guard (not (is_empty dims || any bad_axis dims)) bad_axes
  size ← ok_or (checked_product (scalar_size data_type) dims) too_large
  guard (leb size isize_max) too_large
  ok size

-- `usize::try_from(declared) == Ok(actual)`.
abbrev pub is_size : ℤ → ℕ → Bool
is_size (pos n) actual = n == actual
is_size (negsuc n) actual = false

-- `zip(...).all(...)`, which stops at the shorter list.
unfoldable pub axes_match : List ℕ → List ℤ → Bool
axes_match (actual ∷ actuals) (declared ∷ declareds) =
    (is_minus_one declared || is_size declared actual) && axes_match actuals declareds
axes_match _ _ = true

-- `collect::<Result<Vec<usize>, _>>()` of the declared sizes.
unfoldable pub declared_sizes : List ℤ → Option (List ℕ)
declared_sizes [] = some []
declared_sizes (dim ∷ dims) =
    let rest = declared_sizes dims in
    elim (try_usize dim) [
      | none ↦ none
      | some n ↦ elim rest [ none ↦ none | some ns ↦ some (n ∷ ns) ]
    ]

module _ {F : Type 0} where
  -- Actual axes against the declaration, with the byte size.
  unfoldable pub validate_dims : TensorDescription F → List ℕ → Result InfoError ℕ
  validate_dims t dims = do
    guard (length dims == length t.dims && axes_match dims t.dims) dims_mismatch
    tensor_byte_size dims t.data_type

  -- A declaration without wildcards.
  unfoldable pub concrete_dims : TensorDescription F → Result InfoError (List ℕ)
  concrete_dims t = do
    dims ← ok_or (declared_sizes t.dims) not_concrete
    size ← validate_dims t dims
    ok dims

-- `model.is_none_or(|model| usize::try_from(declared) == Ok(model))`.
abbrev model_axis : Option ℕ → ℤ → Bool
model_axis none declared = true
model_axis (some model) declared = is_size declared model

unfoldable pub model_axes_match : List (Option ℕ) → List ℤ → Bool
model_axes_match (model ∷ models) (declared ∷ declareds) =
    (is_minus_one declared || model_axis model declared) && model_axes_match models declareds
model_axes_match _ _ = true

-- Whether a model's shape, whose unknown axes are `none`, accepts the declared dimensions.
unfoldable pub dims_match : List (Option ℕ) → List ℤ → Bool
dims_match model declared = length model == length declared && model_axes_match model declared

pub record ImageLayout : Type 0 where
  pub channels_first : Bool
  pub height : ℕ
  pub width : ℕ

abbrev pub is_value : ℕ → ℤ → Bool
is_value n (pos m) = n == m
is_value n (negsuc m) = false

layout_of : Bool → Option ℕ → Option ℕ → Option ImageLayout
layout_of first (some h) (some w) = some (record { channels_first = first; height = h; width = w })
layout_of first _ _ = none

-- The `match image` of `image_layout`.
unfoldable pub image_axes : List ℤ → Option ImageLayout
unfolding layout_of
image_axes (a ∷ b ∷ c ∷ []) =
    if is_value 3 a && not (is_value 3 c)
    then layout_of true (try_usize b) (try_usize c)
    else if is_value 3 c && not (is_value 3 a)
    then layout_of false (try_usize a) (try_usize b)
    else none
image_axes _ = none

-- Unit dimensions, at least one, and then `3,H,W` or `H,W,3`.
unfoldable pub image_layout : List ℤ → Option ImageLayout
image_layout dims = elim (checked_sub (length dims) 3) [
  | none ↦ none
  | some at ↦
      let leading = take at dims in
      if is_empty leading || any (λ dim. not (is_value 1 dim)) leading
      then none
      else image_axes (drop at dims)
]
