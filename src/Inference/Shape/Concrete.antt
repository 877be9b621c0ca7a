-- ===== src/Inference/Shape/Concrete.antt =====
-- analytics/inference-common/src/model_info.rs: declarations without wildcards.
use gstsmith_rs.Prelude.{
  ℕ, ◌≡◌, refl, sym, ap, ◌∙◌, ◌↔◌, List, [], ◌∷◌, map, some, Option-cases, arith, ok, ℤ, pos,
  negsuc, inl, inr, subst, ok_or, before_bind,
}
use gstsmith_rs.Inference.Shape.{
  TensorDescription, not_concrete, declared_sizes, validate_dims, concrete_dims, tensor_byte_size,
}
use gstsmith_rs.Inference.Shape.Layout.{Fits, none_left, size, validate_dims-ok}

declared_sizes_sound : (ds : List ℤ) (ns : List ℕ) → declared_sizes ds ≡ some ns → ds ≡ map pos ns
unfolding declared_sizes
declared_sizes_sound [] ns h = ground arith
declared_sizes_sound (pos n ∷ ds) ns h = elim (Option-cases (declared_sizes ds)) [
  | inl e ↦ absurd (ground arith)
  | inr (ms, e) ↦
      let same : ns ≡ n ∷ ms = ground arith in
      rw same (ap (◌∷◌ (pos n)) (declared_sizes_sound ds ms e))
]
declared_sizes_sound (negsuc n ∷ ds) ns h = absurd (cc)

declared_sizes-map : (ns : List ℕ) → declared_sizes (map pos ns) ≡ some ns
unfolding declared_sizes
declared_sizes-map [] = refl
declared_sizes-map (n ∷ ns) = ground (arith, declared_sizes-map ns)

map-Fits : (ns : List ℕ) → Fits ns (map pos ns)
map-Fits [] = none_left
map-Fits (n ∷ ns) = size (map-Fits ns)

module _ {F : Type 0} (t : TensorDescription F) (ns : List ℕ) where
  -- `concrete_dims` returns sizes exactly when they are the declared dimensions, with no wildcard
  -- among them, and the tensor of that shape has a byte size.
  pub concrete_dims-ok :
      (concrete_dims t ≡ ok ns)
      ↔ ((t.dims ≡ map pos ns) × ((n : ℕ) × (tensor_byte_size ns t.data_type ≡ ok n)))
  unfolding concrete_dims
  concrete_dims-ok = (forth, back)
    where
      forth :
          concrete_dims t ≡ ok ns
          → (t.dims ≡ map pos ns) × ((n : ℕ) × (tensor_byte_size ns t.data_type ≡ ok n))
      forth h =
          let (ms, rest, e) = before_bind _ _ (ok_or (declared_sizes t.dims) not_concrete) h in
          let (n, last, v) = before_bind _ _ (validate_dims t ms) rest in
          let same : ms ≡ ns = ground arith in
          let valid = (validate_dims-ok t ms n).0 v in
          (declared_sizes_sound t.dims ns (ground arith), (n, rw same at (valid.1)))

      back :
          (t.dims ≡ map pos ns) × ((n : ℕ) × (tensor_byte_size ns t.data_type ≡ ok n))
          → concrete_dims t ≡ ok ns
      back (e, (n, v)) =
          let fits = subst (Fits ns) (sym e) (map-Fits ns) in
          let valid = (validate_dims-ok t ns n).1 (fits, v) in
          let sizes = ap declared_sizes e ∙ declared_sizes-map ns in ground (arith, sizes, valid)
