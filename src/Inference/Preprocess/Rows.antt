-- ===== src/Inference/Preprocess/Rows.antt =====
-- The bytes of the rows of a packed frame: analytics/inference-common/src/preprocess.rs.
use gstsmith_rs.Prelude.{
  ℕ, zero, suc, ◌+◌, ◌*◌, ◌<◌, ◌≤◌, ◌≡◌, inl, inr, refl, sym, ◌∙◌, ap, Bool, true, false, arith,
  List, length, get_elem?, drop, ok, u64_mod, ltb, length-drop, get_elem?-drop,
}
use gstsmith_rs.Inference.Preprocess.{PixelFormat, ChannelOrder, bytes_per_pixel, copy_row, Write}
use gstsmith_rs.Inference.Preprocess.Places.{three}
use gstsmith_rs.Inference.Preprocess.Pixels.{
  offset, Pixel, read-Pixel, at, Writes, painted, length-painted, write_channels-painted,
  get_elem?-painted_ne, painted_first, painted_second, painted_third,
}
use mathlib.Core.Option.{map}
use native.Mathlib.Nat.{suc-mul}

module _ {V : Type 0} (first : Bool) (o : ChannelOrder) (w h : ℕ) (value : ℕ → ℕ → V)
    (f : PixelFormat) where
  -- The tensor after `left` pixels from the index `start`: each value of them at its place, and what
  -- stood at the places of the earlier indices.
  pub record Row (start left : ℕ) (pixels : List ℕ) (packed out : List V) : Type 0 where
    pub sized : length out ≡ w * h * 3
    pub hit :
        (k c : ℕ)
        → k < left
        → c < 3
        → get_elem? out (at first o w h (start + k) c)
          ≡ map (value c) (get_elem? pixels (k * bytes_per_pixel f + offset f c))
    pub kept :
        (j c : ℕ)
        → j < start
        → c < 3
        → get_elem? out (at first o w h j c) ≡ get_elem? packed (at first o w h j c)

  painted-hit :
      (i c : ℕ) (pixels : List ℕ) (packed : List V) (p : Pixel f pixels)
      → i < w * h
      → length packed ≡ w * h * 3
      → c < 3
      → get_elem? (painted first o w h value i p.a p.b p.c packed) (at first o w h i c)
        ≡ map (value c) (get_elem? pixels (offset f c))
  painted-hit i c pixels packed p hi sized hc = elim (three c hc) [
    | inl e ↦ rw e (
        painted_first first o w h value i p.a p.b p.c packed hi sized
        ∙ sym (ap (map (value 0)) p.first))
    | inr (inl e) ↦ rw e (
        painted_second first o w h value i p.a p.b p.c packed hi sized
        ∙ sym (ap (map (value 1)) p.second))
    | inr (inr e) ↦ rw e (
        painted_third first o w h value i p.a p.b p.c packed hi sized
        ∙ sym (ap (map (value 2)) p.third))
  ]

  Row-cons-hit :
      (i left : ℕ) (pixels : List ℕ) (packed out : List V) (p : Pixel f pixels)
      → i + suc left ≤ w * h
      → length packed ≡ w * h * 3
      → Row
          (suc i)
          left
          (drop (bytes_per_pixel f) pixels)
          (painted first o w h value i p.a p.b p.c packed)
          out
      → (k c : ℕ) → k < suc left
      → c < 3
      → get_elem? out (at first o w h (i + k) c)
        ≡ map (value c) (get_elem? pixels (k * bytes_per_pixel f + offset f c))
  Row-cons-hit i left pixels packed out p bound sized r zero c hk hc =
      let e : i + 0 ≡ i = omega arith in
      let e0 : 0 * bytes_per_pixel f + offset f c ≡ offset f c = omega arith in
      rw (e, e0)
        (r.kept i c (omega arith) hc ∙ painted-hit i c pixels packed p (omega arith) sized hc)
  Row-cons-hit i left pixels packed out p bound sized r (suc k) c hk hc =
      let n = bytes_per_pixel f in
      let e : i + suc k ≡ suc i + k = omega arith in
      let m : suc k * n ≡ n + k * n = suc-mul k n ∙ omega arith in
      let e0 : suc k * n + offset f c ≡ n + (k * n + offset f c) = rw m (omega arith) in
      rw (e, e0)
        (r.hit k c (omega arith) hc
          ∙ ap (map (value c)) (get_elem?-drop n pixels (k * n + offset f c)))

  -- A row after a pixel is the longer row.
  Row-cons :
      (i left : ℕ) (pixels : List ℕ) (packed out : List V) (p : Pixel f pixels)
      → i + suc left ≤ w * h
      → length packed ≡ w * h * 3
      → Row
          (suc i)
          left
          (drop (bytes_per_pixel f) pixels)
          (painted first o w h value i p.a p.b p.c packed)
          out
      → Row i (suc left) pixels packed out
  Row-cons i left pixels packed out p bound sized r = record {
    sized = r.sized;
    hit = Row-cons-hit i left pixels packed out p bound sized r;
    kept = λ j c hj hc.
        r.kept j c (omega arith) hc
        ∙ get_elem?-painted_ne first o w h value i p.a p.b p.c j c packed (omega arith)
            (omega arith) hc (λ e. absurd (omega arith));
  }

  pub copy_row-Row :
      (write : Write V)
      → Writes first o w h write value
      → (row column left : ℕ) (pixels : List ℕ) (packed : List V) → w * h < u64_mod
      → row * w + column + left ≤ w * h
      → left * bytes_per_pixel f ≤ length pixels
      → length packed ≡ w * h * 3
      → (out : List V) × (copy_row write f w row column left pixels packed ≡ ok out)
        × Row (row * w + column) left pixels packed out
  unfolding copy_row
  copy_row-Row write writes row column zero pixels packed small bound long sized = (
    packed,
    refl,
    record { sized = sized; hit = λ k c hk. absurd (omega arith); kept = λ j c hj hc. refl },
  )
  copy_row-Row write writes row column (suc left) pixels packed small bound long sized =
      let n = bytes_per_pixel f in
      let i = row * w + column in
      let product = suc-mul left n in
      let p = read-Pixel f pixels (omega arith) in
      let painted_row = painted first o w h value i p.a p.b p.c packed in
      let e = length-drop n pixels in
      let (out, run, r) =
        copy_row-Row write writes row (suc column) left (drop n pixels) painted_row small
          (omega arith) (rw e (omega arith))
          (length-painted first o w h value i p.a p.b p.c packed ∙ sized) in
      let next : row * w + suc column ≡ suc i = omega arith in
      let c0 : ltb (length pixels) n ≡ false = ground arith in
      let c1 : ltb (row * w) u64_mod ≡ true = ground arith in
      let c2 : ltb i u64_mod ≡ true = ground arith in
      let done =
        write_channels-painted first o w h value write writes i p.a p.b p.c packed (omega arith)
          sized in
      (
        out,
        rw c0 (rw p.read (rw c1 (rw c2 (rw done run)))),
        Row-cons i left pixels packed out p (omega arith) sized (rw next at r),
      )
