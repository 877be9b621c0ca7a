-- ===== src/Inference/Preprocess/Pixels.antt =====
-- The values of a packed pixel: analytics/inference-common/src/preprocess.rs.
use gstsmith_rs.Prelude.{
  ℕ, ◌-◌, ◌*◌, ◌<◌, ◌≤◌, ◌≡◌, ◌≢◌, inl, inr, refl, ◌∙◌, Bool, arith, List, [], ◌∷◌, some, length,
  get_elem?, set, take, ok, length-set, get_elem?-set_self, get_elem?-set_ne,
}
use gstsmith_rs.Inference.Preprocess.{
  PixelFormat, rgb, bgr, rgba, bgra, ChannelOrder, bytes_per_pixel, rgb_of, write_channels,
  destination, write_uint8, write_float32, range_of, put_value, Write,
}
use gstsmith_rs.Inference.Preprocess.Places.{destination_lt, destination_ne}

-- The byte of a pixel that holds a channel.
unfoldable pub offset : PixelFormat → ℕ → ℕ
offset rgb channel = channel
offset rgba channel = channel
offset bgr channel = 2 - channel
offset bgra channel = 2 - channel

pub offset_lt : (f : PixelFormat) (c : ℕ) → c < 3 → offset f c < bytes_per_pixel f
unfolding offset bytes_per_pixel
offset_lt rgb c h = h
offset_lt bgr c h = omega arith
offset_lt rgba c h = omega arith
offset_lt bgra c h = omega arith

-- The three values of a pixel, as its format orders them.
pub record Pixel (f : PixelFormat) (source : List ℕ) : Type 0 where
  pub a : ℕ
  pub b : ℕ
  pub c : ℕ
  pub read : rgb_of f (take (bytes_per_pixel f) source) ≡ ok (a ∷ b ∷ c ∷ [])
  pub first : get_elem? source (offset f 0) ≡ some a
  pub second : get_elem? source (offset f 1) ≡ some b
  pub third : get_elem? source (offset f 2) ≡ some c

pub few : (f : PixelFormat) (n : ℕ) → bytes_per_pixel f ≤ n → 3 ≤ n
unfolding bytes_per_pixel
few rgb n h = h
few bgr n h = h
few rgba n h = omega arith
few bgra n h = omega arith

pub read-Pixel : (f : PixelFormat) (s : List ℕ) → bytes_per_pixel f ≤ length s → Pixel f s
unfolding rgb_of bytes_per_pixel offset
read-Pixel rgb (x ∷ y ∷ z ∷ s) h = record {
  a = x;
  b = y;
  c = z;
  read = refl;
  first = refl;
  second = refl;
  third = refl;
}
read-Pixel bgr (x ∷ y ∷ z ∷ s) h = record {
  a = z;
  b = y;
  c = x;
  read = refl;
  first = refl;
  second = refl;
  third = refl;
}
read-Pixel rgba (x ∷ y ∷ z ∷ u ∷ s) h = record {
  a = x;
  b = y;
  c = z;
  read = refl;
  first = refl;
  second = refl;
  third = refl;
}
read-Pixel bgra (x ∷ y ∷ z ∷ u ∷ s) h = record {
  a = z;
  b = y;
  c = x;
  read = refl;
  first = refl;
  second = refl;
  third = refl;
}
read-Pixel rgba (x ∷ y ∷ z ∷ []) h = absurd (omega arith)
read-Pixel bgra (x ∷ y ∷ z ∷ []) h = absurd (omega arith)
read-Pixel f [] h = let k = few f 0 h in absurd (omega arith)
read-Pixel f (x ∷ []) h = let k = few f 1 h in absurd (omega arith)
read-Pixel f (x ∷ y ∷ []) h = let k = few f 2 h in absurd (omega arith)

-- `put_value` succeeds within the tensor.
put_value-ok :
    {V : Type 0} (i : ℕ) (v : V) (packed : List V)
    → i < length packed
    → put_value i v packed ≡ ok (set packed i v)
put_value-ok i v packed hi = ground arith

module _ (first : Bool) (o : ChannelOrder) (w h : ℕ) where
  abbrev pub at : ℕ → ℕ → ℕ
  at i c = destination first o w h i c

  -- A closure writes the values of the pixels of a frame, as `value` has them.
  abbrev pub Writes : {V : Type 0} → Write V → (ℕ → ℕ → V) → Type 0
  Writes {V} write value =
      (i c byte : ℕ) (packed : List V)
      → i < w * h
      → c < 3
      → length packed ≡ w * h * 3
      → write i c byte packed ≡ ok (set packed (at i c) (value c byte))

  pub write_uint8-Writes : Writes (write_uint8 first o w h) (λ c byte. byte)
  write_uint8-Writes i c byte packed hi hc sized =
      let k = destination_lt first o w h i c hi hc in put_value-ok (at i c) byte packed (rw sized k)

  pub write_float32-Writes :
      {F : Type 0} (f_zero : F) (scale : F × F → ℕ → F) (ranges : List (F × F)) (range : ℕ → F × F)
      → ((c : ℕ) → c < 3 → range_of ranges c ≡ some (range c))
      → Writes (write_float32 f_zero scale ranges first o w h) (λ c byte. scale (range c) byte)
  write_float32-Writes f_zero scale ranges range ranged i c byte packed hi hc sized =
      let k = destination_lt first o w h i c hi hc in
      rw (ranged c hc) (put_value-ok (at i c) (scale (range c) byte) packed (rw sized k))

  module _ {V : Type 0} (value : ℕ → ℕ → V) where
    abbrev one : ℕ → ℕ → List V → List V
    one i a packed = set packed (at i 0) (value 0 a)

    abbrev two : ℕ → ℕ → ℕ → List V → List V
    two i a b packed = set (one i a packed) (at i 1) (value 1 b)

    length-one : (i a : ℕ) (packed : List V) → length (one i a packed) ≡ length packed
    length-one i a packed = length-set packed (at i 0) (value 0 a)

    length-two : (i a b : ℕ) (packed : List V) → length (two i a b packed) ≡ length packed
    length-two i a b packed =
        length-set (one i a packed) (at i 1) (value 1 b) ∙ length-one i a packed

    abbrev pub painted : ℕ → ℕ → ℕ → ℕ → List V → List V
    painted i a b c packed = set (two i a b packed) (at i 2) (value 2 c)

    pub length-painted :
        (i a b c : ℕ) (packed : List V) → length (painted i a b c packed) ≡ length packed
    length-painted i a b c packed =
        length-set (two i a b packed) (at i 2) (value 2 c) ∙ length-two i a b packed

    pub write_channels-painted :
        (write : Write V)
        → Writes write value
        → (i a b c : ℕ) (packed : List V) → i < w * h
        → length packed ≡ w * h * 3
        → write_channels write i 0 (a ∷ b ∷ c ∷ []) packed ≡ ok (painted i a b c packed)
    unfolding write_channels
    write_channels-painted write writes i a b c packed hi sized =
        let l1 = length-one i a packed ∙ sized in
        let l2 = length-two i a b packed ∙ sized in
        let e0 = writes i 0 a packed hi (omega arith) sized in
        let e1 = writes i 1 b (one i a packed) hi (omega arith) l1 in
        let e2 = writes i 2 c (two i a b packed) hi (omega arith) l2 in rw e0 (rw e1 (rw e2 refl))

    pub get_elem?-painted_ne :
        (i a b c j d : ℕ) (packed : List V)
        → i < w * h
        → j < w * h
        → d < 3
        → i ≢ j
        → get_elem? (painted i a b c packed) (at j d) ≡ get_elem? packed (at j d)
    get_elem?-painted_ne i a b c j d packed hi hj hd n =
        let ne : (x : ℕ) → x < 3 → at i x ≢ at j d =
          λ x hx. destination_ne first o w h i j x d hi hj hx hd (inl n) in
        get_elem?-set_ne (two i a b packed) (at i 2) (at j d) (value 2 c) (ne 2 (omega arith))
        ∙ get_elem?-set_ne (one i a packed) (at i 1) (at j d) (value 1 b) (ne 1 (omega arith))
        ∙ get_elem?-set_ne packed (at i 0) (at j d) (value 0 a) (ne 0 (omega arith))

    module _ (i a b c : ℕ) (packed : List V) (hi : i < w * h)
        (sized : length packed ≡ w * h * 3) where
      inside : (d : ℕ) → d < 3 → at i d < length packed
      inside d hd = let k = destination_lt first o w h i d hi hd in rw sized k

      apart : (x y : ℕ) → x < 3 → y < 3 → x ≢ y → at i x ≢ at i y
      apart x y hx hy n = destination_ne first o w h i i x y hi hi hx hy (inr n)

      pub painted_first : get_elem? (painted i a b c packed) (at i 0) ≡ some (value 0 a)
      painted_first =
          get_elem?-set_ne (two i a b packed) (at i 2) (at i 0) (value 2 c)
            (apart 2 0 (omega arith) (omega arith) (omega arith))
          ∙ get_elem?-set_ne (one i a packed) (at i 1) (at i 0) (value 1 b)
              (apart 1 0 (omega arith) (omega arith) (omega arith))
          ∙ get_elem?-set_self packed (at i 0) (value 0 a) (inside 0 (omega arith))

      pub painted_second : get_elem? (painted i a b c packed) (at i 1) ≡ some (value 1 b)
      painted_second =
          get_elem?-set_ne (two i a b packed) (at i 2) (at i 1) (value 2 c)
            (apart 2 1 (omega arith) (omega arith) (omega arith))
          ∙ get_elem?-set_self (one i a packed) (at i 1) (value 1 b)
              (rw (length-one i a packed) (inside 1 (omega arith)))

      pub painted_third : get_elem? (painted i a b c packed) (at i 2) ≡ some (value 2 c)
      painted_third =
          get_elem?-set_self (two i a b packed) (at i 2) (value 2 c)
            (rw (length-two i a b packed) (inside 2 (omega arith)))
