-- ===== src/Inference/Tensors.antt =====
-- analytics/inference-common/src/tensor.rs: the inputs of a tensor model, read from the tensors that
-- a buffer carries.
pub mod Collect
use gstsmith_rs.Prelude.{
  ℕ, ◌+◌, Bool, true, false, not, ◌&&◌, List, [], ◌∷◌, Option, none, some, ◌==◌, if◌then◌else◌,
  length, all, Result, ok, err, ◌>>=◌, ◌>>◌, guard, map_err, ok_or, collect, Text, text_eq, is_some,
}
use gstsmith_rs.Inference.Shape.{ScalarType, DimOrder, TensorDescription, InfoError, validate_dims}

pub data TensorDataType : Type 0 where
  float16 float64 float32 : TensorDataType
  int8 int16 int32 int64 : TensorDataType
  uint8 uint16 uint32 uint64 : TensorDataType
  other_type : TensorDataType

pub data TensorDimOrder : Type 0 where
  row_major col_major other_order : TensorDimOrder

pub data InputError : Type 0 where
  ambiguous missing type_mismatch order_mismatch unmapped wrong_size : InputError
  bad_dims : InfoError → InputError

unfoldable pub tensor_data_type : ScalarType → TensorDataType
tensor_data_type ScalarType.float16 = TensorDataType.float16
tensor_data_type ScalarType.float64 = TensorDataType.float64
tensor_data_type ScalarType.float32 = TensorDataType.float32
tensor_data_type ScalarType.int8 = TensorDataType.int8
tensor_data_type ScalarType.int16 = TensorDataType.int16
tensor_data_type ScalarType.int32 = TensorDataType.int32
tensor_data_type ScalarType.int64 = TensorDataType.int64
tensor_data_type ScalarType.uint8 = TensorDataType.uint8
tensor_data_type ScalarType.uint16 = TensorDataType.uint16
tensor_data_type ScalarType.uint32 = TensorDataType.uint32
tensor_data_type ScalarType.uint64 = TensorDataType.uint64

unfoldable pub tensor_dim_order : DimOrder → TensorDimOrder
tensor_dim_order DimOrder.row_major = TensorDimOrder.row_major
tensor_dim_order DimOrder.col_major = TensorDimOrder.col_major

-- `!=` on data types, through a number for each.
abbrev type_code : TensorDataType → ℕ
type_code TensorDataType.float16 = 0
type_code TensorDataType.float64 = 1
type_code TensorDataType.float32 = 2
type_code TensorDataType.int8 = 3
type_code TensorDataType.int16 = 4
type_code TensorDataType.int32 = 5
type_code TensorDataType.int64 = 6
type_code TensorDataType.uint8 = 7
type_code TensorDataType.uint16 = 8
type_code TensorDataType.uint32 = 9
type_code TensorDataType.uint64 = 10
type_code TensorDataType.other_type = 11

abbrev order_code : TensorDimOrder → ℕ
order_code TensorDimOrder.row_major = 0
order_code TensorDimOrder.col_major = 1
order_code TensorDimOrder.other_order = 2

-- A tensor of a `GstTensorMeta`; its bytes are none if they cannot be mapped.
pub record Tensor : Type 0 where
  pub id : Text
  pub data_type : TensorDataType
  pub dims : List ℕ
  pub dims_order : TensorDimOrder
  pub bytes : Option (List ℕ)

pub record OwnedTensor (F : Type 0) : Type 0 where
  pub description : TensorDescription F
  pub dims : List ℕ
  pub bytes : List ℕ

module _ {F : Type 0} where
  unfoldable pub read_input : TensorDescription F → Tensor → Result InputError (OwnedTensor F)
  read_input description t = do
    guard (type_code t.data_type == type_code (tensor_data_type description.data_type))
        type_mismatch
    size ← map_err bad_dims (validate_dims description t.dims)
    guard (order_code t.dims_order == order_code (tensor_dim_order description.dim_order))
        order_mismatch
    bytes ← ok_or t.bytes unmapped
    guard (length bytes == size) wrong_size
    ok (record { description = description; dims = t.dims; bytes = bytes })

-- The tensors with an id, in order.
unfoldable pub with_id : Text → List Tensor → List Tensor
with_id id [] = []
with_id id (t ∷ ts) = let rest = with_id id ts in if text_eq t.id id then t ∷ rest else rest

-- `matches.next()`, and then `matches.next().is_some()`.
only_match : List Tensor → Result InputError (Option Tensor)
only_match [] = ok none
only_match (t ∷ []) = ok (some t)
only_match (t ∷ u ∷ ts) = err ambiguous

module _ {F : Type 0} where
  unfoldable pub find_input :
      List Tensor → TensorDescription F → Result InputError (TensorDescription F × Option Tensor)
  unfolding only_match
  find_input tensors description =
      only_match (with_id description.id tensors) >>= λ found. ok (description, found)

  abbrev pub is_found : TensorDescription F × Option Tensor → Bool
  is_found f = is_some f.1

  read_found : TensorDescription F × Option Tensor → Result InputError (OwnedTensor F)
  read_found (description, some t) = read_input description t
  read_found (description, none) = err missing

  -- None if no input is present.
  unfoldable pub collect_inputs :
      List Tensor → List (TensorDescription F) → Result InputError (Option (List (OwnedTensor F)))
  unfolding read_found
  collect_inputs tensors inputs = do
    found ← collect (find_input tensors) inputs
    if all (λ f. not (is_found f)) found then ok none else do
      guard (all is_found found) missing
      owned ← collect read_found found
      ok (some owned)
