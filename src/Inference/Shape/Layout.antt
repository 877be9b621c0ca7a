-- ===== src/Inference/Shape/Layout.antt =====
-- analytics/inference-common/src/model_info.rs: which dimensions describe an image, and which actual
-- axes fit a declaration.
use gstsmith_rs.Prelude.{
  ℕ, zero, suc, ◌-◌, ◌<◌, ◌≡◌, ◌≢◌, refl, sym, ap, ◌∙◌, ◌⊎◌, inl, inr, ◌↔◌, true, false, not, List,
  [], ◌∷◌, ◌++◌, some, arith, length, take, drop, any, All, ok, ℤ, pos, negsuc, take-append-drop,
  take-append_length, drop-append_length, length-append, length-pos, is_empty-false, ◌==◌,
  and-eq-true, ==_iff,
}
use gstsmith_rs.Inference.Shape.{
  TensorDescription, ImageLayout, is_value, image_axes, image_layout, axes_match, validate_dims,
  tensor_byte_size,
}

-- The three image axes of each layout. No axes have two layouts.
pub data IsImage : List ℤ → ImageLayout → Type 0 where
  planar :
      (h w : ℕ)
      → w ≢ 3
      → IsImage
          (pos 3 ∷ pos h ∷ pos w ∷ [])
          (record { channels_first = true; height = h; width = w })
  packed :
      (h w : ℕ)
      → h ≢ 3
      → IsImage
          (pos h ∷ pos w ∷ pos 3 ∷ [])
          (record { channels_first = false; height = h; width = w })

-- Unit dimensions, at least one, before an image.
abbrev pub IsLeading : List ℤ → Type 0
IsLeading ds = (0 < length ds) × All (λ d. d ≡ pos 1) ds

positive_axes :
    (a b c : ℕ) (l : ImageLayout)
    → image_axes (pos a ∷ pos b ∷ pos c ∷ []) ≡ some l
    → ((a ≡ 3) × (c ≢ 3) × (l ≡ record { channels_first = true; height = b; width = c }))
      ⊎ ((c ≡ 3) × (a ≢ 3) × (l ≡ record { channels_first = false; height = a; width = b }))
unfolding image_axes
positive_axes a b c l h = ground arith

image_axes-IsImage : (ds : List ℤ) (l : ImageLayout) → image_axes ds ≡ some l → IsImage ds l
unfolding image_axes
image_axes-IsImage [] l h = absurd (cc)
image_axes-IsImage (a ∷ []) l h = absurd (cc)
image_axes-IsImage (a ∷ b ∷ []) l h = absurd (cc)
image_axes-IsImage (a ∷ b ∷ c ∷ d ∷ ds) l h = absurd (cc)
image_axes-IsImage (pos a ∷ pos b ∷ pos c ∷ []) l h = elim (positive_axes a b c l h) [
  | inl (e, n, m) ↦ rw (e, m) (planar b c n)
  | inr (e, n, m) ↦ rw (e, m) (packed a b n)
]
image_axes-IsImage (pos a ∷ pos b ∷ negsuc c ∷ []) l h = absurd (ground arith)
image_axes-IsImage (pos a ∷ negsuc b ∷ pos c ∷ []) l h = absurd (ground arith)
image_axes-IsImage (pos a ∷ negsuc b ∷ negsuc c ∷ []) l h = absurd (ground arith)
image_axes-IsImage (negsuc a ∷ pos b ∷ pos c ∷ []) l h = absurd (ground arith)
image_axes-IsImage (negsuc a ∷ pos b ∷ negsuc c ∷ []) l h = absurd (ground arith)
image_axes-IsImage (negsuc a ∷ negsuc b ∷ pos c ∷ []) l h = absurd (ground arith)
image_axes-IsImage (negsuc a ∷ negsuc b ∷ negsuc c ∷ []) l h = absurd (ground arith)

IsImage-image_axes : (ds : List ℤ) (l : ImageLayout) → IsImage ds l → image_axes ds ≡ some l
unfolding image_axes
IsImage-image_axes ds l (planar h w n) = ground arith
IsImage-image_axes ds l (packed h w n) = ground arith

IsImage-length : (ds : List ℤ) (l : ImageLayout) → IsImage ds l → length ds ≡ 3
IsImage-length ds l (planar h w n) = refl
IsImage-length ds l (packed h w n) = refl

units-All : (ds : List ℤ) → any (λ d. not (is_value 1 d)) ds ≡ false → All (λ d. d ≡ pos 1) ds
units-All [] h = tt
units-All (pos n ∷ ds) h = (ground arith, units-All ds (ground arith))
units-All (negsuc n ∷ ds) h = absurd (cc)

All-units : (ds : List ℤ) → All (λ d. d ≡ pos 1) ds → any (λ d. not (is_value 1 d)) ds ≡ false
All-units [] h = refl
All-units (d ∷ ds) h = rw h.0 (All-units ds h.1)

-- A layout is found exactly for unit dimensions followed by the axes of that layout.
pub image_layout_sound :
    (ds : List ℤ) (l : ImageLayout)
    → image_layout ds ≡ some l
    → (leading image : List ℤ) × (ds ≡ leading ++ image) × IsLeading leading × IsImage image l
unfolding image_layout
image_layout_sound ds l h =
    let at : ℕ = length ds - 3 in
    (
      take at ds,
      drop at ds,
      sym (take-append-drop at ds),
      (length-pos (take at ds) (ground arith), units-All (take at ds) (ground arith)),
      image_axes-IsImage (drop at ds) l (ground arith),
    )

pub image_layout_complete :
    (leading image : List ℤ) (l : ImageLayout)
    → IsLeading leading
    → IsImage image l
    → image_layout (leading ++ image) ≡ some l
unfolding image_layout
image_layout_complete leading image l (some_unit, units) i =
    let three = IsImage-length image l i in
    let at : length (leading ++ image) - 3 ≡ length leading =
      omega (arith, length-append leading image) in
    let front = ap (λ k. take k (leading ++ image)) at ∙ take-append_length leading image in
    let back = ap (λ k. drop k (leading ++ image)) at ∙ drop-append_length leading image in
    ground (
      arith,
      three,
      length-append leading image,
      front,
      back,
      is_empty-false leading some_unit,
      All-units leading units,
      IsImage-image_axes image l i,
    )

-- Actual axes that fit declared ones: as many, and each the declared size or any where the
-- declaration is the wildcard.
pub data Fits : List ℕ → List ℤ → Type 0 where
  none_left : Fits [] []
  wildcard : {n : ℕ} {ns : List ℕ} {ds : List ℤ} → Fits ns ds → Fits (n ∷ ns) (negsuc 0 ∷ ds)
  size : {n : ℕ} {ns : List ℕ} {ds : List ℤ} → Fits ns ds → Fits (n ∷ ns) (pos n ∷ ds)

axes_match-Fits :
    (ns : List ℕ) (ds : List ℤ) → length ns ≡ length ds → axes_match ns ds ≡ true → Fits ns ds
unfolding axes_match
axes_match-Fits [] [] e h = none_left
axes_match-Fits [] (d ∷ ds) e h = absurd (omega arith)
axes_match-Fits (n ∷ ns) [] e h = absurd (omega arith)
axes_match-Fits (n ∷ ns) (pos m ∷ ds) e h =
    let (a, b) = and-eq-true (m == n) (axes_match ns ds) h in
    rw ((==_iff m n).0 a) (size (axes_match-Fits ns ds (omega arith) b))
axes_match-Fits (n ∷ ns) (negsuc zero ∷ ds) e h = wildcard (axes_match-Fits ns ds (omega arith) h)
axes_match-Fits (n ∷ ns) (negsuc (suc m) ∷ ds) e h = absurd (cc)

Fits-axes_match :
    {ns : List ℕ} {ds : List ℤ} → Fits ns ds → (length ns ≡ length ds) × (axes_match ns ds ≡ true)
unfolding axes_match
Fits-axes_match none_left = (refl, refl)
Fits-axes_match (wildcard f) = let (a, b) = Fits-axes_match f in (omega arith, b)
Fits-axes_match (size {n = n} f) = let (a, b) = Fits-axes_match f in (omega arith, ground arith)

module _ {F : Type 0} (t : TensorDescription F) (dims : List ℕ) (n : ℕ) where
  -- `validate_dims` returns a size exactly for axes that fit the declaration, and it is their byte
  -- size.
  pub validate_dims-ok :
      (validate_dims t dims ≡ ok n)
      ↔ (Fits dims t.dims × (tensor_byte_size dims t.data_type ≡ ok n))
  unfolding validate_dims
  validate_dims-ok = (forth, back)
    where
      forth :
          validate_dims t dims ≡ ok n
          → Fits dims t.dims × (tensor_byte_size dims t.data_type ≡ ok n)
      forth h = (axes_match-Fits dims t.dims (ground arith) (ground arith), ground arith)

      back :
          Fits dims t.dims × (tensor_byte_size dims t.data_type ≡ ok n)
          → validate_dims t dims ≡ ok n
      back (f, h) = ground (arith, (Fits-axes_match f).0, (Fits-axes_match f).1)
