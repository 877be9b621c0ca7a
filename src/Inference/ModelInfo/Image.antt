-- ===== src/Inference/ModelInfo/Image.antt =====
-- analytics/inference-common/src/model_info.rs: what an accepted image model-info describes.
use gstsmith_rs.Prelude.{
  ◌<◌, ◌≡◌, refl, subst, length-pos, ◌⊎◌, inl, inr, true, false, not, ◌||◌, List, [], ◌∷◌, Option,
  some, arith, length, is_some, ok, ◌==◌, Returns, done, failed, Returns-bind, Returns-guard,
  Returns-check, Returns-sound, Text, Option-cases, All, is_empty,
}
use gstsmith_rs.Inference.Shape.{
  bad_batch, bad_image, bad_range_count, no_input, TensorDescription, ImageLayout, image_layout,
  is_supported_input,
}
use gstsmith_rs.Inference.Sections.{KeyFile}
use gstsmith_rs.Inference.ModelInfo.{
  input, output, image, tensor, Floats, validate_image_input, only_input, image_dimensions,
  caps_contract, parse_model, parse_image_model, parse_tensor_model, first_is_one,
}
use gstsmith_rs.Inference.ModelInfo.Parsed.{IsChecked, IsDescription, parse_model-Returns}

module _ {F : Type 0} where
  -- What `validate_image_input` makes sure of.
  pub record IsImageInput (t : TensorDescription F) : Type 0 where
    pub layout : ImageLayout
    pub laid_out : image_layout t.dims ≡ some layout
    pub range_count : (length t.ranges ≡ 1) ⊎ (length t.ranges ≡ 3)

  validate_image_input-Returns :
      (t : TensorDescription F) → Returns (λ _. IsImageInput t) (validate_image_input t)
  unfolding validate_image_input
  validate_image_input-Returns t = Returns-guard (first_is_one t.dims) bad_batch _ λ _.
      Returns-guard (is_some (image_layout t.dims)) bad_image _ λ l.
        Returns-check (length t.ranges == 1 || length t.ranges == 3) bad_range_count λ r.
          elim (Option-cases (image_layout t.dims)) [
            | inl e ↦ absurd (cc)
            | inr (layout, e) ↦ record { layout = layout; laid_out = e; range_count = ground arith }
          ]

  only_input-Returns :
      (ts : List (TensorDescription F)) → Returns (λ t. ts ≡ t ∷ []) (only_input ts)
  unfolding only_input
  only_input-Returns [] = failed
  only_input-Returns (t ∷ []) = done refl
  only_input-Returns (t ∷ u ∷ ts) = failed

module _ {F : Type 0} (floats : Floats F) (load : Text → Option KeyFile) where
  -- An image model-info that is accepted has one input, whose element type the preprocessor supports
  -- and whose dimensions are an image; the size of that image is what `image_dimensions` and the caps
  -- contract give, with no failure. It has one range or three, an output, and tensors that were all
  -- checked.
  pub parse_image_model-Returns :
      (contents : Text)
      → Returns
          (λ info.
            ((layout : ImageLayout) × (image_layout info.input.dims ≡ some layout)
              × (image_dimensions info ≡ ok (layout.width, layout.height))
              × ((caps_contract info).image_size ≡ some (layout.width, layout.height)))
            × ((length info.input.ranges ≡ 1) ⊎ (length info.input.ranges ≡ 3))
            × (is_supported_input info.input.data_type ≡ true)
            × (0 < length info.outputs)
            × All (IsDescription image output) info.outputs)
          (parse_image_model floats load contents)
  unfolding parse_image_model image_dimensions caps_contract
  parse_image_model-Returns contents =
      Returns-bind (parse_model floats load contents image) _ λ parsed read.
        Returns-bind (only_input parsed.inputs) _ λ t only.
          Returns-bind (validate_image_input t) _ λ _ valid.
            let (checked, _, some_output, _) =
              Returns-sound _ parsed (parse_model-Returns floats load image contents) read in
            let alone = Returns-sound _ t (only_input-Returns parsed.inputs) only in
            let sound = subst (All (IsDescription image input)) alone checked.inputs_checked in
            let v = Returns-sound _ tt (validate_image_input-Returns t) valid in
            done (
              (v.layout, v.laid_out, rw v.laid_out, rw v.laid_out),
              v.range_count,
              sound.0.supported refl refl,
              some_output,
              checked.outputs_checked,
            )

  -- A tensor model-info that is accepted has an input and an output, and every tensor is in row-major
  -- order.
  pub parse_tensor_model-Returns :
      (contents : Text)
      → Returns
          (λ info. (0 < length info.inputs) × (0 < length info.outputs) × IsChecked tensor info)
          (parse_tensor_model floats load contents)
  unfolding parse_tensor_model
  parse_tensor_model-Returns contents =
      Returns-bind (parse_model floats load contents tensor) _ λ parsed read.
        Returns-guard (not (is_empty parsed.inputs)) no_input _ λ some_input.
          let (checked, _, some_output, _) =
            Returns-sound _ parsed (parse_model-Returns floats load tensor contents) read in
          let filled : is_empty parsed.inputs ≡ false = ground arith in
          done (length-pos parsed.inputs filled, some_output, checked)
