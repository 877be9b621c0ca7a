-- ===== src/Inference/ModelInfo.antt =====
-- analytics/inference-common/src/model_info.rs: reading a model-info file. `f32` is a type `F`, a
-- parameter, as are its operations.
pub mod Parsed
pub mod Image
use gstsmith_rs.Prelude.{
  ℕ, zero, ◌+◌, Bool, true, false, not, ◌&&◌, ◌||◌, List, [], ◌∷◌, ◌++◌, map, Option, none, some,
  ◌==◌, if◌then◌else◌, length, is_empty, any, Result, ok, err, ◌>>=◌, ◌>>◌, guard, ok_or, map_err,
  collect, ℤ, pos, negsuc, is_minus_one, is_not_positive, try_usize, Text, codes, text_eq, trim,
  split, split_once, parse_i32, is_some,
}
use gstsmith_rs.Inference.Sections.{
  Values, get, Section, KeyFile, keep_known, parse_sections, require, non_empty,
}
use gstsmith_rs.Inference.Shape.{
  ScalarType, DimOrder, row_major, col_major, InfoError, invalid_file, missing_header, missing_key,
  unsupported_version, empty_text, invalid_dir, invalid_dimension, empty_dims, impossible_dimension,
  wildcard_in_video, order_not_row_major, unsupported_input, invalid_range, infinite_range,
  empty_ranges, duplicate_id, no_output, not_one_input, no_input, bad_batch, bad_image,
  bad_range_count, not_an_image, parse_scalar, is_supported_input, parse_order, TensorDescription,
  tensor_byte_size, ImageLayout, image_layout, is_value,
}

pub data Direction : Type 0 where
  input output : Direction

-- Which kind of model a model-info describes: one image input, or upstream tensors.
pub data ModelKind : Type 0 where
  image tensor : ModelKind

abbrev parse_dim : Text → Result InfoError ℤ
parse_dim part = ok_or (parse_i32 (trim part)) invalid_dimension

-- `*dimension != -1 && *dimension <= 0`.
abbrev pub impossible : ℤ → Bool
impossible dim = not (is_minus_one dim) && is_not_positive dim

unfoldable pub parse_dims : Text → Result InfoError (List ℤ)
parse_dims value = do
  dims ← collect parse_dim (split b',' value)
  guard (not (is_empty dims)) empty_dims
  guard (not (any impossible dims)) impossible_dimension
  ok dims

-- `usize::try_from(*dim).unwrap_or(1)`: an unknown axis is at least one.
abbrev pub least_size : ℤ → ℕ
least_size (pos n) = n
least_size (negsuc n) = 1

-- What only image models check of the dimensions, and only tensor models of the order.
abbrev pub kind_allows_dims : ModelKind → List ℤ → Bool
kind_allows_dims image dims = not (any is_minus_one dims)
kind_allows_dims tensor dims = true

abbrev pub kind_allows_order : ModelKind → DimOrder → Bool
kind_allows_order tensor col_major = false
kind_allows_order _ order = true

-- `f32`: reading one, and whether it is finite.
pub record Floats (F : Type 0) : Type 0 where
  pub parse : Text → Option F
  pub is_finite : F → Bool

pub record ParsedTensor (F : Type 0) : Type 0 where
  pub direction : Direction
  pub description : TensorDescription F

pub record ParsedModel (F : Type 0) : Type 0 where
  pub group_id : Text
  pub inputs : List (TensorDescription F)
  pub outputs : List (TensorDescription F)

pub record ModelInfo (F : Type 0) : Type 0 where
  pub group_id : Text
  pub input : TensorDescription F
  pub outputs : List (TensorDescription F)

-- The tensor group that an element produces, and the size that its video must have.
pub record CapsContract (F : Type 0) : Type 0 where
  pub group_id : Text
  pub outputs : List (TensorDescription F)
  pub image_size : Option (ℕ × ℕ)

parse_direction : Text → Result InfoError Direction
parse_direction value =
    if text_eq value (codes "input")
    then ok input
    else if text_eq value (codes "output")
    then ok output
    else err invalid_dir

abbrev is_header : Section → Bool
is_header section = text_eq section.name (codes "modelinfo")

find_header : List Section → Option Section
find_header [] = none
find_header (s ∷ ss) = if is_header s then some s else find_header ss

unfoldable pub tensor_sections : List Section → List Section
tensor_sections [] = []
tensor_sections (s ∷ ss) = let rest = tensor_sections ss in if is_header s then rest else s ∷ rest

abbrev ok_part {ℓ} : {A : Type ℓ} → Result InfoError A → Option A
ok_part (ok a) = some a
ok_part (err e) = none

abbrev first_is_one : List ℤ → Bool
first_is_one [] = false
first_is_one (d ∷ ds) = is_value 1 d

module _ {F : Type 0} where
  abbrev pub placed : ParsedTensor F → ParsedModel F → ParsedModel F
  placed t m = elim t.direction [
    | input ↦ record m { inputs = m.inputs ++ t.description ∷ [] }
    | output ↦ record m { outputs = m.outputs ++ t.description ∷ [] }
  ]

  unfoldable pub validate_image_input : TensorDescription F → Result InfoError (Unit {0})
  validate_image_input t = do
    guard (first_is_one t.dims) bad_batch
    guard (is_some (image_layout t.dims)) bad_image
    guard (length t.ranges == 1 || length t.ranges == 3) bad_range_count

  -- `inputs.len() != 1`, and then the only input.
  only_input : List (TensorDescription F) → Result InfoError (TensorDescription F)
  only_input (t ∷ []) = ok t
  only_input _ = err not_one_input

  unfoldable pub image_dimensions : ModelInfo F → Result InfoError (ℕ × ℕ)
  image_dimensions info = ok_or (image_layout info.input.dims) not_an_image >>= λ layout.
      ok (layout.width, layout.height)

  unfoldable pub caps_contract : ModelInfo F → CapsContract F
  caps_contract info = record {
    group_id = info.group_id;
    outputs = info.outputs;
    image_size = ok_part (image_dimensions info);
  }

  unfoldable pub tensor_caps_contract : ParsedModel F → CapsContract F
  tensor_caps_contract info = record {
    group_id = info.group_id;
    outputs = info.outputs;
    image_size = none;
  }

module _ {F : Type 0} (floats : Floats F) (load : Text → Option KeyFile) where
  parse_range : Text → Result InfoError (F × F)
  parse_range range = do
    (low_text, high_text) ← ok_or (split_once b',' range) invalid_range
    low ← ok_or (floats.parse (trim low_text)) invalid_range
    high ← ok_or (floats.parse (trim high_text)) invalid_range
    guard (floats.is_finite low && floats.is_finite high) infinite_range
    ok (low, high)

  unfoldable pub parse_ranges : Text → Result InfoError (List (F × F))
  unfolding parse_range
  parse_ranges value = do
    ranges ← collect parse_range (split b';' value)
    guard (not (is_empty ranges)) empty_ranges
    ok ranges

  tensor_ranges : Section → ModelKind → Direction → ScalarType → Result InfoError (List (F × F))
  tensor_ranges section image input data_type = do
    guard (is_supported_input data_type) unsupported_input
    value ← require section (codes "ranges")
    parse_ranges value
  tensor_ranges section _ _ data_type = ok []

  unfoldable pub parse_tensor : Section → ModelKind → Result InfoError (ParsedTensor F)
  unfolding parse_direction tensor_ranges
  parse_tensor section kind = do
    direction_text ← require section (codes "dir")
    direction ← parse_direction direction_text
    id_text ← require section (codes "id")
    id ← non_empty id_text
    dims_text ← require section (codes "dims")
    dims ← parse_dims dims_text
    type_text ← require section (codes "type")
    data_type ← parse_scalar type_text
    guard (kind_allows_dims kind dims) wildcard_in_video
    size ← tensor_byte_size (map least_size dims) data_type
    dim_order ← parse_order (get section.values (codes "dims-order"))
    guard (kind_allows_order kind dim_order) order_not_row_major
    ranges ← tensor_ranges section kind direction data_type
    ok (record {
      direction = direction;
      description = record {
        name = section.name;
        id = id;
        data_type = data_type;
        dims = dims;
        dim_order = dim_order;
        ranges = ranges;
      };
    })

  -- The loop over the sections; `ids` is the set of the ids so far.
  unfoldable pub add_tensors :
      ModelKind → List Section → List Text → ParsedModel F → Result InfoError (ParsedModel F)
  add_tensors kind [] ids m = ok m
  add_tensors kind (s ∷ ss) ids m = do
    t ← parse_tensor s kind
    guard (not (any (text_eq t.description.id) ids)) duplicate_id
    add_tensors kind ss (t.description.id ∷ ids) (placed t m)

  unfoldable pub parse_model : Text → ModelKind → Result InfoError (ParsedModel F)
  unfolding find_header
  parse_model contents kind = do
    sections ← parse_sections load contents
    header ← ok_or (find_header sections) missing_header
    version ← require header (codes "version")
    guard (text_eq version (codes "1.0")) unsupported_version
    group_text ← require header (codes "group-id")
    group_id ← non_empty group_text
    m ←
        add_tensors kind (tensor_sections sections) []
          (record { group_id = group_id; inputs = []; outputs = [] })
    guard (not (is_empty m.outputs)) no_output
    ok m

  -- `ModelInfo::parse`.
  unfoldable pub parse_image_model : Text → Result InfoError (ModelInfo F)
  unfolding only_input
  parse_image_model contents = do
    parsed ← parse_model contents image
    t ← only_input parsed.inputs
    validate_image_input t
    ok (record { group_id = parsed.group_id; input = t; outputs = parsed.outputs })

  -- `TensorModelInfo::parse`; a `TensorModelInfo` has the fields of a `ParsedModel`.
  unfoldable pub parse_tensor_model : Text → Result InfoError (ParsedModel F)
  parse_tensor_model contents = do
    parsed ← parse_model contents tensor
    guard (not (is_empty parsed.inputs)) no_input
    ok parsed
