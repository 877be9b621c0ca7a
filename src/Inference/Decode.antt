-- ===== src/Inference/Decode.antt =====
-- analytics/inference-common/src/engine.rs: the bytes of a tensor as values. A value of any type is
-- its little-endian bit pattern, a number below 2 to the width.
pub mod Values
use gstsmith_rs.Prelude.{
  ℕ, zero, suc, ◌+◌, ◌*◌, ◌/◌, ◌%◌, Bool, not, List, [], ◌∷◌, ◌==◌, if◌then◌else◌, length, take,
  drop, is_empty, Result, ok, err, ◌>>=◌, ◌>>◌, guard, map_err,
}
use gstsmith_rs.Inference.Shape.{ScalarType, uint8, InfoError, scalar_size, validate_dims}
use gstsmith_rs.Inference.Tensors.{OwnedTensor}

pub data DecodeError : Type 0 where
  bad_shape : InfoError → DecodeError
  wrong_size not_whole : DecodeError

-- `from_le_bytes`.
unfoldable pub from_le_bytes : List ℕ → ℕ
from_le_bytes [] = 0
from_le_bytes (b ∷ bs) = b + 256 * from_le_bytes bs

-- The first `k` chunks of `n` bytes.
unfoldable pub chunks : ℕ → ℕ → List ℕ → List (List ℕ)
chunks n zero bytes = []
chunks n (suc k) bytes = take n bytes ∷ chunks n k (drop n bytes)

-- `as_chunks`: as many chunks as fit, and what is left.
abbrev pub as_chunks : ℕ → List ℕ → List (List ℕ) × List ℕ
as_chunks n bytes = let k = length bytes / n in (chunks n k bytes, drop (k * n) bytes)

unfoldable pub map_le : List (List ℕ) → List ℕ
unfolding from_le_bytes
map_le [] = []
map_le (c ∷ cs) = from_le_bytes c ∷ map_le cs

-- `TensorValues`: the element type, and the values.
pub record TensorValues : Type 0 where
  pub data_type : ScalarType
  pub values : List ℕ

decode_chunks : ScalarType → List (List ℕ) × List ℕ → Result DecodeError TensorValues
decode_chunks t (cs, rest) = do
  guard (is_empty rest) not_whole
  ok (record { data_type = t; values = map_le cs })

-- `Uint8` takes the bytes as they are.
decode_bytes : ScalarType → List ℕ → Result DecodeError TensorValues
unfolding decode_chunks
decode_bytes uint8 bytes = ok (record { data_type = uint8; values = bytes })
decode_bytes t bytes = decode_chunks t (as_chunks (scalar_size t) bytes)

module _ {F : Type 0} where
  unfoldable pub decode : OwnedTensor F → Result DecodeError TensorValues
  unfolding decode_bytes
  decode tensor = do
    size ← map_err bad_shape (validate_dims tensor.description tensor.dims)
    guard (length tensor.bytes == size) wrong_size
    decode_bytes tensor.description.data_type tensor.bytes
