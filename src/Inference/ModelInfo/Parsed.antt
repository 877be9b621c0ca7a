-- ===== src/Inference/ModelInfo/Parsed.antt =====
-- analytics/inference-common/src/model_info.rs: what a parsed model-info satisfies.
use mathlib.Core.List.{
  Perm, Nodup, Mem, perm_middle, map-append, append_assoc, Nodup-cons, Nodup-nil,
  perm_append_singleton, mem-cons, not-mem-nil,
}
use mathlib.Core.List.Perm
use mathlib.Core.Logic.Or
use mathlib.Core.HLevel.{⊥_prop}
use gstsmith_rs.Prelude.{
  ℕ, suc, ◌+◌, ◌<◌, ◌≡◌, sym, ap, subst, ◌∙◌, true, false, not, List, [], ◌∷◌, ◌++◌, map, Option,
  arith, length, is_empty, any, All, collect, split, Result, ok, err, ok_or, Returns, done, failed,
  Returns-bind, Returns-guard, Returns-sound, ℤ, Text, text_eq, text_eq_iff, All-append,
  length-append, codes, length-pos,
}
use gstsmith_rs.Inference.Shape.{
  ScalarType, InfoError, TensorDescription, tensor_byte_size, is_supported_input, empty_dims,
  missing_header, unsupported_version, no_output, duplicate_id, impossible_dimension,
  wildcard_in_video, order_not_row_major, unsupported_input, parse_scalar, parse_order,
}
use gstsmith_rs.Inference.Sections.{Section, KeyFile, non_empty, require, get, parse_sections}
use gstsmith_rs.Inference.ModelInfo.{
  Direction, input, output, ModelKind, image, tensor, Floats, ParsedModel, parse_dims, impossible,
  least_size, parse_ranges, tensor_ranges, parse_tensor, parse_dim, find_header, parse_direction,
  tensor_sections, placed, add_tensors, parse_model, kind_allows_dims, kind_allows_order,
}

-- A positive size, or the wildcard -1.
abbrev pub IsDim : ℤ → Type 0
IsDim d = impossible d ≡ false

-- What the parser checked of a tensor.
pub record IsDescription {F : Type 0} (kind : ModelKind) (direction : Direction)
    (t : TensorDescription F) : Type 0 where
  pub id_text : 0 < length t.id
  pub some_dim : 0 < length t.dims
  pub dims_sound : any impossible t.dims ≡ false
  pub fixed : kind_allows_dims kind t.dims ≡ true
  pub fits : (n : ℕ) × (tensor_byte_size (map least_size t.dims) t.data_type ≡ ok n)
  pub order : kind_allows_order kind t.dim_order ≡ true
  pub supported : kind ≡ image → direction ≡ input → is_supported_input t.data_type ≡ true

non_empty-length : (v r : Text) → non_empty v ≡ ok r → 0 < length r
unfolding non_empty
non_empty-length v r h = length-pos r (ground arith)

parse_dims-Returns :
    (v : Text) → Returns (λ ds. (0 < length ds) × (any impossible ds ≡ false)) (parse_dims v)
unfolding parse_dims
parse_dims-Returns v = Returns-bind (collect parse_dim (split b',' v)) _ λ ds e.
    Returns-guard (not (is_empty ds)) empty_dims _ λ a.
      Returns-guard (not (any impossible ds)) impossible_dimension _ λ b.
        let filled : is_empty ds ≡ false = ground arith in done (length-pos ds filled, ground arith)

module _ {F : Type 0} (floats : Floats F) (load : Text → Option KeyFile) where
  ranges-Returns :
      {P : Type 0} (v : Text)
      → P
      → Returns (λ _. image ≡ image → input ≡ input → P) (parse_ranges floats load v)
  ranges-Returns {P} v p = always (parse_ranges floats load v)
    where
      always :
          (r : Result InfoError (List (F × F))) → Returns (λ _. image ≡ image → input ≡ input → P) r
      always (ok rs) = done (λ _ _. p)
      always (err e) = failed

  tensor_ranges-Returns :
      (s : Section) (kind : ModelKind) (direction : Direction) (t : ScalarType)
      → Returns
          (λ _. kind ≡ image → direction ≡ input → is_supported_input t ≡ true)
          (tensor_ranges floats load s kind direction t)
  unfolding tensor_ranges
  tensor_ranges-Returns s image input t =
      Returns-guard (is_supported_input t) unsupported_input _
        λ a. Returns-bind (require s (codes "ranges")) _ λ v e. ranges-Returns v a
  tensor_ranges-Returns s image output t = done (λ e f. absurd (cc))
  tensor_ranges-Returns s tensor input t = done (λ e f. absurd (cc))
  tensor_ranges-Returns s tensor output t = done (λ e f. absurd (cc))

  pub parse_tensor-Returns :
      (s : Section) (kind : ModelKind)
      → Returns
          (λ t. IsDescription kind t.direction t.description)
          (parse_tensor floats load s kind)
  unfolding parse_tensor
  parse_tensor-Returns s kind = Returns-bind (require s (codes "dir")) _ λ direction_text _.
      Returns-bind (parse_direction direction_text) _ λ direction _.
        Returns-bind (require s (codes "id")) _ λ id_text _.
          Returns-bind (non_empty id_text) _ λ id id_ok.
            Returns-bind (require s (codes "dims")) _ λ dims_text _.
              Returns-bind (parse_dims dims_text) _ λ dims dims_ok.
                Returns-bind (require s (codes "type")) _ λ type_text _.
                  Returns-bind (parse_scalar type_text) _ λ data_type _.
                    Returns-guard (kind_allows_dims kind dims) wildcard_in_video _ λ fixed.
                      Returns-bind (tensor_byte_size (map least_size dims) data_type) _
                        λ size size_ok.
                          Returns-bind (parse_order (get s.values (codes "dims-order"))) _
                            λ dim_order _.
                              Returns-guard (kind_allows_order kind dim_order) order_not_row_major _
                                λ order.
                                  Returns-bind
                                    (tensor_ranges floats load s kind direction data_type) _
                                    λ ranges ranges_ok. done (record {
                                      id_text = non_empty-length id_text id id_ok;
                                      some_dim =
                                          (Returns-sound _ dims (parse_dims-Returns dims_text)
                                            dims_ok).0;
                                      dims_sound =
                                          (Returns-sound _ dims (parse_dims-Returns dims_text)
                                            dims_ok).1;
                                      fixed = fixed;
                                      fits = (size, size_ok);
                                      order = order;
                                      supported =
                                          Returns-sound _ ranges
                                            (tensor_ranges-Returns s kind direction data_type)
                                            ranges_ok;
                                    })

module _ {F : Type 0} where
  -- The ids of a model, inputs first.
  abbrev pub ids_of : ParsedModel F → List Text
  ids_of m = map (λ t. t.id) m.inputs ++ map (λ t. t.id) m.outputs

  -- Every tensor was checked, in its role.
  pub record IsChecked (kind : ModelKind) (m : ParsedModel F) : Type 0 where
    pub inputs_checked : All (IsDescription kind input) m.inputs
    pub outputs_checked : All (IsDescription kind output) m.outputs

  abbrev pub tensor_count : ParsedModel F → ℕ
  tensor_count m = length m.inputs + length m.outputs

  placed-IsChecked :
      (kind : ModelKind) (direction : Direction) (t : TensorDescription F) (m : ParsedModel F)
      → IsDescription kind direction t
      → IsChecked kind m
      → IsChecked kind (placed (record { direction = direction; description = t }) m)
  placed-IsChecked kind input t m d c = record {
    inputs_checked = All-append _ m.inputs (t ∷ []) c.inputs_checked (d, tt);
    outputs_checked = c.outputs_checked;
  }
  placed-IsChecked kind output t m d c = record {
    inputs_checked = c.inputs_checked;
    outputs_checked = All-append _ m.outputs (t ∷ []) c.outputs_checked (d, tt);
  }

  placed-perm :
      (direction : Direction) (t : TensorDescription F) (m : ParsedModel F) (ids : List Text)
      → Perm ids (ids_of m)
      → Perm (t.id ∷ ids) (ids_of (placed (record { direction = direction; description = t }) m))
  placed-perm input t m ids p =
      let e =
        ap (λ l. l ++ map (λ u. u.id) m.outputs) (map-append (λ u. u.id) m.inputs (t ∷ []))
        ∙ append_assoc (map (λ u. u.id) m.inputs) (t.id ∷ []) (map (λ u. u.id) m.outputs) in
      Perm.trans (Perm.cons t.id p) (
        subst (Perm (t.id ∷ ids_of m)) (sym e)
          (Perm.symm (perm_middle (map (λ u. u.id) m.inputs) (map (λ u. u.id) m.outputs))))
  placed-perm output t m ids p =
      let e =
        ap (λ l. map (λ u. u.id) m.inputs ++ l) (map-append (λ u. u.id) m.outputs (t ∷ []))
        ∙ sym (append_assoc (map (λ u. u.id) m.inputs) (map (λ u. u.id) m.outputs) (t.id ∷ [])) in
      Perm.trans (Perm.cons t.id p)
        (subst (Perm (t.id ∷ ids_of m)) (sym e) (Perm.symm (perm_append_singleton t.id (ids_of m))))

  placed-tensor_count :
      (direction : Direction) (t : TensorDescription F) (m : ParsedModel F)
      → tensor_count (placed (record { direction = direction; description = t }) m)
        ≡ suc (tensor_count m)
  placed-tensor_count input t m = omega (arith, length-append {0} m.inputs (t ∷ []))
  placed-tensor_count output t m = omega (arith, length-append {0} m.outputs (t ∷ []))

any-not_mem : (x : Text) (ids : List Text) → any (text_eq x) ids ≡ false → ¬ Mem x ids
any-not_mem x [] h m = not-mem-nil m
any-not_mem x (y ∷ ids) h m =
    Or.elim ⊥_prop (mem-cons.0 m) (λ e. cc (first, (text_eq_iff x y).1 e))
      (λ k. any-not_mem x ids rest k)
  where
    first : text_eq x y ≡ false
    first = ground arith

    rest : any (text_eq x) ids ≡ false
    rest = ground arith

module _ {F : Type 0} (floats : Floats F) (load : Text → Option KeyFile) (kind : ModelKind) where
  -- What the loop has when it ends.
  pub record Collected (from : ℕ) (m : ParsedModel F) : Type 0 where
    pub checked : IsChecked kind m
    pub distinct : Nodup (ids_of m)
    pub counted : tensor_count m ≡ from

  add_tensors-Returns :
      (ss : List Section) (ids : List Text) (m : ParsedModel F)
      → IsChecked kind m
      → Nodup ids
      → Perm ids (ids_of m)
      → Returns (Collected (tensor_count m + length ss)) (add_tensors floats load kind ss ids m)
  unfolding add_tensors
  add_tensors-Returns [] ids m c n p =
      done (record { checked = c; distinct = Perm.nodup p n; counted = omega arith })
  add_tensors-Returns (s ∷ ss) ids m c n p =
      Returns-bind (parse_tensor floats load s kind) _ λ t parsed.
        Returns-guard (not (any (text_eq t.description.id) ids)) duplicate_id _ λ new.
          let d = Returns-sound _ t (parse_tensor-Returns floats load s kind) parsed in
          let fresh = any-not_mem t.description.id ids (ground arith) in
          subst
            (λ k.
              Returns (Collected k)
                (add_tensors floats load kind ss (t.description.id ∷ ids) (placed t m)))
            (omega (arith, placed-tensor_count t.direction t.description m))
            (add_tensors-Returns ss (t.description.id ∷ ids) (placed t m)
              (placed-IsChecked kind t.direction t.description m d c) (Nodup-cons.1 (fresh, n))
              (placed-perm t.direction t.description m ids p))

  -- A model-info that is accepted has an output, every tensor was checked in its role, no two tensors
  -- share an id, and each section but the header's became one tensor.
  pub parse_model-Returns :
      (contents : Text)
      → Returns
          (λ m.
            IsChecked kind m
            × Nodup (ids_of m)
            × (0 < length m.outputs)
            × ((sections : List Section) × (parse_sections load contents ≡ ok sections)
                × (tensor_count m ≡ length (tensor_sections sections))))
          (parse_model floats load contents kind)
  unfolding parse_model
  parse_model-Returns contents = Returns-bind (parse_sections load contents) _ λ sections read.
      Returns-bind (ok_or (find_header sections) missing_header) _ λ header _.
        Returns-bind (require header (codes "version")) _ λ version _.
          Returns-guard (text_eq version (codes "1.0")) unsupported_version _ λ _.
            Returns-bind (require header (codes "group-id")) _ λ group_text _.
              Returns-bind (non_empty group_text) _ λ group_id _.
                let start : ParsedModel F = record {
                  group_id = group_id;
                  inputs = [];
                  outputs = [];
                } in
                Returns-bind (add_tensors floats load kind (tensor_sections sections) [] start) _
                  λ m added. Returns-guard (not (is_empty m.outputs)) no_output _ λ some_output.
                    let c =
                      Returns-sound _ m
                        (add_tensors-Returns (tensor_sections sections) [] start
                          (record { inputs_checked = tt; outputs_checked = tt }) Nodup-nil Perm.nil)
                        added in
                    let filled : is_empty m.outputs ≡ false = ground arith in
                    done (
                      c.checked,
                      c.distinct,
                      length-pos m.outputs filled,
                      (sections, read, c.counted ∙ omega arith),
                    )
