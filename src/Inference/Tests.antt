-- ===== src/Inference/Tests.antt =====
-- Runs of analytics/inference-common/src on small inputs, and the theorems at such inputs.
use mathlib.Core.List.{Nodup}
use gstsmith_rs.Prelude.{
  ℕ, ◌*◌, ◌<◌, ◌≡◌, refl, ◌↔◌, ◌⊎◌, List, [], ◌∷◌, map, Option, none, some, true, arith, ok, length,
  All, isize_max, pos, negsuc, Text, codes, text_eq, Returns, trim, split, split_once, parse_i32,
  digits_value, collect, if◌then◌else◌, ◌≤◌,
}
use gstsmith_rs.Inference.Shape.{
  float32, uint8, row_major, TensorDescription, ImageLayout, parse_scalar, scalar_size,
  tensor_byte_size, checked_product, validate_dims, image_layout, image_axes, axes_match,
  is_supported_input, parse_order,
}
use gstsmith_rs.Inference.Shape.Size.{product, IsAxis, tensor_byte_size-ok}
use gstsmith_rs.Inference.Sections.{
  KeyFile, Section, get, keep_known, require, non_empty, parse_sections,
}
use gstsmith_rs.Inference.ModelInfo.{
  image, output, Floats, ModelInfo, parse_dims, parse_ranges, parse_tensor, add_tensors,
  tensor_sections, parse_model, parse_image_model, image_dimensions, caps_contract,
  validate_image_input,
}
use gstsmith_rs.Inference.ModelInfo.Parsed.{
  IsChecked, IsDescription, ids_of, tensor_count, parse_model-Returns,
}
use gstsmith_rs.Inference.ModelInfo.Image.{parse_image_model-Returns}
use gstsmith_rs.Inference.Tensors.{
  Tensor, TensorDataType, TensorDimOrder, other_type, OwnedTensor, with_id, tensor_data_type,
  tensor_dim_order, collect_inputs,
}
use gstsmith_rs.Inference.Tensors.Collect.{Holds, Collects, collect_inputs-Returns}
use gstsmith_rs.Inference.Decode.{TensorValues, decode}
use gstsmith_rs.Inference.Decode.Values.{Decodes, decode-Decodes}

-- Floats that are whole numbers.
abbrev whole_floats : Floats ℕ
whole_floats = record { parse = digits_value 0; is_finite = λ x. true }

abbrev entries : Text → List (Text × Text)
entries name =
    if text_eq name (codes "modelinfo")
    then (codes "version", codes "1.0") ∷ (codes "group-id", codes "g") ∷ []
    else if text_eq name (codes "in")
    then (codes "dir", codes "input")
      ∷ (codes "id", codes " image ")
      ∷ (codes "type", codes "uint8")
      ∷ (codes "dims", codes "1,3, 4,5")
      ∷ (codes "ranges", codes "0,255")
      ∷ []
    else (codes "dir", codes "output")
      ∷ (codes "id", codes "boxes")
      ∷ (codes "type", codes "float32")
      ∷ (codes "dims", codes "1,18")
      ∷ []

abbrev key_file : KeyFile
key_file = record {
  groups = codes "modelinfo" ∷ codes "in" ∷ codes "out" ∷ [];
  keys = λ name. some (map (λ e. e.0) (entries name));
  string = λ name key. get (entries name) key;
}

abbrev load : Text → Option KeyFile
load contents = some key_file

abbrev image_info : ModelInfo ℕ
image_info = record {
  group_id = codes "g";
  input = record {
    name = codes "in";
    id = codes "image";
    data_type = uint8;
    dims = pos 1 ∷ pos 3 ∷ pos 4 ∷ pos 5 ∷ [];
    dim_order = row_major;
    ranges = (0, 255) ∷ [];
  };
  outputs =
      record {
        name = codes "out";
        id = codes "boxes";
        data_type = float32;
        dims = pos 1 ∷ pos 18 ∷ [];
        dim_order = row_major;
        ranges = [];
      }
      ∷ [];
}

parse_image_info : parse_image_model whole_floats load [] ≡ ok image_info
unfolding parse_image_model parse_model parse_sections keep_known require get non_empty trim
    parse_dims parse_ranges parse_tensor add_tensors tensor_sections text_eq split split_once
    parse_i32 digits_value collect parse_scalar tensor_byte_size checked_product scalar_size
    parse_order is_supported_input validate_image_input image_layout image_axes
parse_image_info = refl

parse_image_model-Returns_example :
    Returns
      (λ info.
        ((layout : ImageLayout) × (image_layout info.input.dims ≡ some layout)
          × (image_dimensions info ≡ ok (layout.width, layout.height))
          × ((caps_contract info).image_size ≡ some (layout.width, layout.height)))
        × ((length info.input.ranges ≡ 1) ⊎ (length info.input.ranges ≡ 3))
        × (is_supported_input info.input.data_type ≡ true)
        × (0 < length info.outputs)
        × All (IsDescription image output) info.outputs)
      (parse_image_model whole_floats load [])
parse_image_model-Returns_example = parse_image_model-Returns whole_floats load []

parse_model-Returns_example :
    Returns
      (λ m.
        IsChecked image m
        × Nodup (ids_of m)
        × (0 < length m.outputs)
        × ((sections : List Section) × (parse_sections load [] ≡ ok sections)
            × (tensor_count m ≡ length (tensor_sections sections))))
      (parse_model whole_floats load [] image)
parse_model-Returns_example = parse_model-Returns whole_floats load image []

tensor_byte_size-ok_example : (tensor_byte_size (2 ∷ 3 ∷ []) float32 ≡ ok 24) ↔ (
    (0 < 2)
    × All IsAxis (2 ∷ 3 ∷ [])
    × (24 ≡ scalar_size float32 * product (2 ∷ 3 ∷ []))
    × (24 ≤ isize_max))
tensor_byte_size-ok_example = tensor_byte_size-ok (2 ∷ 3 ∷ []) float32 24

-- The second axis is a wildcard.
abbrev open_tensor : TensorDescription ℕ
open_tensor = record image_info.input { dims = pos 2 ∷ negsuc 0 ∷ [] }

-- A buffer with the tensor of an input, and another.
abbrev carried : List Tensor
carried =
    record {
      id = codes "other";
      data_type = other_type;
      dims = [];
      dims_order = TensorDimOrder.row_major;
      bytes = none;
    }
    ∷ record {
      id = codes "image";
      data_type = TensorDataType.uint8;
      dims = 2 ∷ 1 ∷ [];
      dims_order = TensorDimOrder.row_major;
      bytes = some (7 ∷ 9 ∷ []);
    }
    ∷ []

abbrev taken_input : OwnedTensor ℕ
taken_input = record { description = open_tensor; dims = 2 ∷ 1 ∷ []; bytes = 7 ∷ 9 ∷ [] }

taken_input-valid : validate_dims open_tensor (2 ∷ 1 ∷ []) ≡ ok 2
unfolding validate_dims axes_match tensor_byte_size checked_product scalar_size
taken_input-valid = refl

taken_input-Holds : Holds carried open_tensor taken_input
unfolding with_id text_eq tensor_data_type tensor_dim_order
taken_input-Holds = record {
  found = record {
    id = codes "image";
    data_type = TensorDataType.uint8;
    dims = 2 ∷ 1 ∷ [];
    dims_order = TensorDimOrder.row_major;
    bytes = some (7 ∷ 9 ∷ []);
  };
  only = refl;
  described = refl;
  same_dims = refl;
  same_bytes = refl;
  typed = refl;
  ordered = refl;
  sized = taken_input-valid;
}

collect_inputs-Returns_example :
    Returns (Collects carried (open_tensor ∷ [])) (collect_inputs carried (open_tensor ∷ []))
collect_inputs-Returns_example = collect_inputs-Returns carried (open_tensor ∷ [])

decode-Decodes_example :
    (v : TensorValues) × (decode taken_input ≡ ok v)
    × Decodes uint8 (product (2 ∷ 1 ∷ [])) (7 ∷ 9 ∷ []) v
decode-Decodes_example = decode-Decodes taken_input taken_input-valid (omega arith)
