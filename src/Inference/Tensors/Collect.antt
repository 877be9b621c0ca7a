-- ===== src/Inference/Tensors/Collect.antt =====
-- analytics/inference-common/src/tensor.rs: `collect_inputs` and the declared inputs.
use gstsmith_rs.Prelude.{
  ◌<◌, ◌≡◌, refl, sym, ap, subst, ◌∙◌, true, false, not, List, [], ◌∷◌, Option, none, some, arith,
  ◌==◌, length, all, All, ok, collect, Returns, done, failed, Returns-bind, Returns-guard,
  Returns-sound, Each, collect-Returns, Bool-cases, map_err, ok_or, ==_iff, inl, inr,
}
use gstsmith_rs.Inference.Shape.{TensorDescription, validate_dims}
use gstsmith_rs.Inference.Tensors.{
  Tensor, OwnedTensor, bad_dims, missing, type_mismatch, order_mismatch, unmapped, wrong_size,
  tensor_data_type, tensor_dim_order, type_code, order_code, read_input, with_id, find_input,
  is_found, read_found, collect_inputs,
}

module _ {F : Type 0} (tensors : List Tensor) where
  -- An input that is read: the one tensor with its id has the declared type, order and shape, and as
  -- many bytes as the shape takes.
  pub record Holds (d : TensorDescription F) (o : OwnedTensor F) : Type 0 where
    pub found : Tensor
    pub only : with_id d.id tensors ≡ found ∷ []
    pub described : o.description ≡ d
    pub same_dims : o.dims ≡ found.dims
    pub same_bytes : found.bytes ≡ some o.bytes
    pub typed : type_code found.data_type ≡ type_code (tensor_data_type d.data_type)
    pub ordered : order_code found.dims_order ≡ order_code (tensor_dim_order d.dim_order)
    pub sized : validate_dims d o.dims ≡ ok (length o.bytes)

  -- What a search found for an input.
  abbrev Found : TensorDescription F → TensorDescription F × Option Tensor → Type 0
  Found d (d', none) = (d' ≡ d) × (with_id d.id tensors ≡ [])
  Found d (d', some t) = (d' ≡ d) × (with_id d.id tensors ≡ t ∷ [])

  find_input-Found : (d : TensorDescription F) → Returns (Found d) (find_input tensors d)
  unfolding find_input
  find_input-Found d = cases (with_id d.id tensors) refl
    where
      cases :
          (ts : List Tensor) → with_id d.id tensors ≡ ts → Returns (Found d) (find_input tensors d)
      cases [] e = rw (e, find_input) (done (refl, e))
      cases (t ∷ []) e = rw (e, find_input) (done (refl, e))
      cases (t ∷ u ∷ ts) e = rw (e, find_input) failed

  read_input-Holds :
      (d : TensorDescription F) (t : Tensor)
      → with_id d.id tensors ≡ t ∷ []
      → Returns (Holds d) (read_input d t)
  unfolding read_input
  read_input-Holds d t only = Returns-guard _ type_mismatch _ λ typed.
      Returns-bind (map_err bad_dims (validate_dims d t.dims)) _ λ size valid.
        Returns-guard _ order_mismatch _ λ ordered.
          Returns-bind (ok_or t.bytes unmapped) _ λ bytes mapped.
            Returns-guard (length bytes == size) wrong_size _ λ sized. done (record {
              found = t;
              only = only;
              described = refl;
              same_dims = refl;
              same_bytes = ground arith;
              typed = (==_iff _ _).0 typed;
              ordered = (==_iff _ _).0 ordered;
              sized = ground arith;
            })

  none-Found :
      (ds : List (TensorDescription F)) (fs : List (TensorDescription F × Option Tensor))
      → Each Found ds fs
      → all (λ f. not (is_found f)) fs ≡ true
      → All (λ d. with_id d.id tensors ≡ []) ds
  none-Found [] fs h a = tt
  none-Found (d ∷ ds) [] h a = absurd h
  none-Found (d ∷ ds) ((d', none) ∷ fs) h a = (h.0.1, none-Found ds fs h.1 a)
  none-Found (d ∷ ds) ((d', some t) ∷ fs) h a = absurd (cc)

  all-Found :
      (ds : List (TensorDescription F)) (fs : List (TensorDescription F × Option Tensor))
      → Each Found ds fs
      → all is_found fs ≡ true
      → Returns (Each Holds ds) (collect read_found fs)
  unfolding read_found collect
  all-Found [] [] h a = done tt
  all-Found [] (f ∷ fs) h a = absurd h
  all-Found (d ∷ ds) [] h a = absurd h
  all-Found (d ∷ ds) ((d', none) ∷ fs) h a = absurd (cc)
  all-Found (d ∷ ds) ((d', some t) ∷ fs) h a = Returns-bind (read_input d' t) _ λ o read.
      Returns-bind (collect read_found fs) _ λ os reads.
        let held =
          subst (λ e. Returns (Holds d) (read_input e t)) (sym h.0.0)
            (read_input-Holds d t h.0.1) in
        done (
          Returns-sound (read_input d' t) o held read,
          Returns-sound _ os (all-Found ds fs h.1 a) reads,
        )

  -- What `collect_inputs` returns: nothing if no tensor has the id of an input; otherwise one owned
  -- tensor for each input, in order, read from the only tensor with its id, of the declared type,
  -- order and shape, and with the bytes that the shape takes.
  abbrev pub Collects : List (TensorDescription F) → Option (List (OwnedTensor F)) → Type 0
  Collects ds none = All (λ d. with_id d.id tensors ≡ []) ds
  Collects ds (some os) = Each Holds ds os

  pub collect_inputs-Returns :
      (ds : List (TensorDescription F)) → Returns (Collects ds) (collect_inputs tensors ds)
  unfolding collect_inputs
  collect_inputs-Returns ds = Returns-bind (collect (find_input tensors) ds) _ λ fs searched.
      let found =
        Returns-sound _ fs (collect-Returns Found (find_input tensors) find_input-Found ds)
          searched in
      elim (Bool-cases (all (λ f. not (is_found f)) fs)) [
        | inl nobody ↦ rw nobody (done (none-Found ds fs found nobody))
        | inr somebody ↦ rw somebody (
            Returns-guard (all is_found fs) missing _ λ everybody.
              Returns-bind (collect read_found fs) _
                λ os reads. done (Returns-sound _ os (all-Found ds fs found everybody) reads))
      ]

  Holds-find_input :
      (d : TensorDescription F) (o : OwnedTensor F) (h : Holds d o)
      → find_input tensors d ≡ ok (d, some h.found)
  unfolding find_input
  Holds-find_input d o h = ground (arith, h.only)

  Holds-read_input :
      (d : TensorDescription F) (o : OwnedTensor F) (h : Holds d o) → read_input d h.found ≡ ok o
  unfolding read_input
  Holds-read_input d o h =
      let valid = ap (validate_dims d) (sym h.same_dims) ∙ h.sized in
      ground (arith, h.typed, h.ordered, h.same_bytes, h.described, h.same_dims, valid)

  -- What the parts of `collect_inputs` give for inputs that are all there.
  record Ready (ds : List (TensorDescription F)) (os : List (OwnedTensor F)) : Type 0 where
    fs : List (TensorDescription F × Option Tensor)
    searched : collect (find_input tensors) ds ≡ ok fs
    everybody : all is_found fs ≡ true
    reads : collect read_found fs ≡ ok os
    as_many : length fs ≡ length ds

  Holds-Ready :
      (ds : List (TensorDescription F)) (os : List (OwnedTensor F)) → Each Holds ds os → Ready ds os
  unfolding collect read_found
  Holds-Ready [] [] h = record {
    fs = [];
    searched = refl;
    everybody = refl;
    reads = refl;
    as_many = refl;
  }
  Holds-Ready [] (o ∷ os) h = absurd h
  Holds-Ready (d ∷ ds) [] h = absurd h
  Holds-Ready (d ∷ ds) (o ∷ os) h =
      let rest = Holds-Ready ds os h.1 in
      record {
        fs = (d, some h.0.found) ∷ rest.fs;
        searched = rw (Holds-find_input d o h.0, rest.searched);
        everybody = rest.everybody;
        reads = rw (Holds-read_input d o h.0, rest.reads);
        as_many = omega (arith, rest.as_many);
      }

  nobody-false :
      (fs : List (TensorDescription F × Option Tensor))
      → 0 < length fs
      → all is_found fs ≡ true
      → all (λ f. not (is_found f)) fs ≡ false
  nobody-false [] h a = absurd (omega arith)
  nobody-false ((d, some t) ∷ fs) h a = refl
  nobody-false ((d, none) ∷ fs) h a = absurd (cc)

  -- And it does return them: if there is an input, and every input has its one tensor, which fits it,
  -- then `collect_inputs` succeeds with the owned tensors.
  pub collect_inputs_complete :
      (ds : List (TensorDescription F)) (os : List (OwnedTensor F))
      → 0 < length ds
      → Each Holds ds os
      → collect_inputs tensors ds ≡ ok (some os)
  unfolding collect_inputs
  collect_inputs_complete ds os some_input h =
      let r = Holds-Ready ds os h in
      let n = nobody-false r.fs (omega (arith, r.as_many)) r.everybody in
      rw (r.searched, n, r.everybody, r.reads)
