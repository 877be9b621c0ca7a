-- ===== src/Inference/Shape/Size.antt =====
-- analytics/inference-common/src/model_info.rs: byte sizes, and when they are refused.
use native.Mathlib.Decide.{dec_lt}
use native.Mathlib.Nat.{mul_assoc}
use gstsmith_rs.Prelude.{
  ℕ, ◌*◌, ◌≤◌, ◌<◌, ◌≡◌, refl, ◌↔◌, false, List, [], ◌∷◌, none, some, arith, ltb, if◌then◌else◌,
  length, any, All, u64_mod, i32_max, isize_max, ok, length-pos, is_empty-false,
}
use gstsmith_rs.Inference.Shape.{
  ScalarType, int8, scalar_size, bad_axis, checked_product, tensor_byte_size,
}

unfoldable pub product : List ℕ → ℕ
product [] = 1
product (d ∷ ds) = d * product ds

-- An axis that tensor caps can name.
abbrev pub IsAxis : ℕ → Type 0
IsAxis d = (0 < d) × (d ≤ i32_max)

product_pos : (ds : List ℕ) → All IsAxis ds → 0 < product ds
unfolding product
product_pos [] h = omega arith
product_pos (d ∷ ds) h = grind (arith, product_pos ds h.1)

-- Checking every multiplication refuses no product that fits.
checked_product_exact :
    (size : ℕ) (ds : List ℕ)
    → size < u64_mod
    → All IsAxis ds
    → checked_product size ds
      ≡ (if ltb (size * product ds) u64_mod then some (size * product ds) else none)
unfolding checked_product product
checked_product_exact size [] b h = ground arith
checked_product_exact size (d ∷ ds) b h =
    let grows : size * d ≤ size * (d * product ds) = grind (arith, product_pos ds h.1) in
    elim (dec_lt (size * d) u64_mod) [
      | yes small ↦
          ground
            (arith, checked_product_exact (size * d) ds small h.1, mul_assoc size d (product ds))
      | no large ↦ ground (arith, grows)
    ]

axes-All : (ds : List ℕ) → any bad_axis ds ≡ false → All IsAxis ds
axes-All [] h = tt
axes-All (d ∷ ds) h = (ground arith, axes-All ds (ground arith))

All-axes : (ds : List ℕ) → All IsAxis ds → any bad_axis ds ≡ false
All-axes [] h = refl
All-axes (d ∷ ds) h = ground (arith, All-axes ds h.1)

scalar_size-lt : (t : ScalarType) → scalar_size t < u64_mod
unfolding scalar_size
scalar_size-lt int8 = omega arith
scalar_size-lt _ = omega arith

-- `tensor_byte_size` returns a size exactly when there is an axis, every axis is positive and fits an
-- `i32`, and the product of the axes and the element size is at most `isize::MAX`; and it returns
-- that product. No product that fits is refused on the way.
pub tensor_byte_size-ok :
    (dims : List ℕ) (t : ScalarType) (n : ℕ)
    → (tensor_byte_size dims t ≡ ok n)
      ↔ ((0 < length dims) × All IsAxis dims × (n ≡ scalar_size t * product dims) × (n ≤ isize_max))
unfolding tensor_byte_size
tensor_byte_size-ok dims t n = (forth, back)
  where
    forth :
        tensor_byte_size dims t ≡ ok n
        → (0 < length dims) × All IsAxis dims × (n ≡ scalar_size t * product dims) × (n ≤ isize_max)
    forth h =
        let a = axes-All dims (ground arith) in
        let exact = checked_product_exact (scalar_size t) dims (scalar_size-lt t) a in
        (length-pos dims (ground arith), a, ground (arith, exact), ground (arith, exact))

    back :
        (0 < length dims) × All IsAxis dims × (n ≡ scalar_size t * product dims) × (n ≤ isize_max)
        → tensor_byte_size dims t ≡ ok n
    back (some_axis, a, e, small) = ground (
      arith,
      is_empty-false dims some_axis,
      All-axes dims a,
      checked_product_exact (scalar_size t) dims (scalar_size-lt t) a,
    )
