-- ===== src/Inference/Shape/Names.antt =====
-- analytics/inference-common/src/model_info.rs: the names of scalar types and dimension orders.
use gstsmith_rs.Prelude.{◌≡◌, refl, some, ok, arith, Text, codes, text_eq, text_eq→eq}
use gstsmith_rs.Inference.Shape.{
  ScalarType, float16, DimOrder, row_major, parse_scalar, scalar_caps_name, parse_order,
  order_caps_name,
}

-- The name of a scalar type parses as that type.
pub parse_scalar-caps_name : (t : ScalarType) → parse_scalar (scalar_caps_name t) ≡ ok t
unfolding parse_scalar scalar_caps_name text_eq
parse_scalar-caps_name float16 = refl
parse_scalar-caps_name _ = refl

-- And a text that parses as a scalar type is its name.
pub parse_scalar_sound :
    (v : Text) (t : ScalarType) → parse_scalar v ≡ ok t → v ≡ scalar_caps_name t
unfolding parse_scalar scalar_caps_name
parse_scalar_sound v t h = ground (
  arith,
  text_eq→eq v (codes "float16"),
  text_eq→eq v (codes "float64"),
  text_eq→eq v (codes "float32"),
  text_eq→eq v (codes "int8"),
  text_eq→eq v (codes "int16"),
  text_eq→eq v (codes "int32"),
  text_eq→eq v (codes "int64"),
  text_eq→eq v (codes "uint8"),
  text_eq→eq v (codes "uint16"),
  text_eq→eq v (codes "uint32"),
  text_eq→eq v (codes "uint64"),
)

pub parse_order-caps_name : (o : DimOrder) → parse_order (some (order_caps_name o)) ≡ ok o
unfolding parse_order order_caps_name text_eq
parse_order-caps_name row_major = refl
parse_order-caps_name _ = refl
