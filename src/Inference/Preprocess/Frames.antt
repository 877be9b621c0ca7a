-- ===== src/Inference/Preprocess/Frames.antt =====
-- The rows of a packed frame: analytics/inference-common/src/preprocess.rs.
use gstsmith_rs.Prelude.{
  ℕ, zero, suc, ◌+◌, ◌*◌, ◌<◌, ◌≤◌, ◌≡◌, refl, ap, ◌∙◌, Bool, true, false, arith, List, length,
  get_elem?, take, drop, ok, u64_mod, ltb, leb, length-take, length-drop, get_elem?-drop,
  get_elem?-take,
}
use gstsmith_rs.Inference.Preprocess.{PixelFormat, ChannelOrder, bytes_per_pixel, copy_rows, Write}
use gstsmith_rs.Inference.Preprocess.Pixels.{offset, offset_lt, at, Writes}
use gstsmith_rs.Inference.Preprocess.Rows.{Row, copy_row-Row}
use mathlib.Core.Option.{map}
use native.Mathlib.Nat.{suc-mul, mul-le-mul_right}

module _ {V : Type 0} (first : Bool) (o : ChannelOrder) (w h : ℕ) (value : ℕ → ℕ → V)
    (f : PixelFormat) (stride : ℕ) where
  -- The tensor after `left` rows from `row`.
  pub record Frame (row left : ℕ) (source : List ℕ) (packed out : List V) : Type 0 where
    pub sized : length out ≡ w * h * 3
    pub hit :
        (r k c : ℕ)
        → r < left
        → k < w
        → c < 3
        → get_elem? out (at first o w h ((row + r) * w + k) c)
          ≡ map (value c) (get_elem? source (r * stride + (k * bytes_per_pixel f + offset f c)))
    pub kept :
        (j c : ℕ)
        → j < row * w
        → c < 3
        → get_elem? out (at first o w h j c) ≡ get_elem? packed (at first o w h j c)

  abbrev cut : List ℕ → List ℕ
  cut source = take (w * bytes_per_pixel f) (take stride source)

  get_elem?-cut :
      (source : List ℕ) (k c : ℕ)
      → w * bytes_per_pixel f ≤ stride
      → k < w
      → c < 3
      → get_elem? (cut source) (k * bytes_per_pixel f + offset f c)
        ≡ get_elem? source (k * bytes_per_pixel f + offset f c)
  get_elem?-cut source k c wide hk hc =
      let n = bytes_per_pixel f in
      let i = k * n + offset f c in
      let most : suc k * n ≤ w * n = mul-le-mul_right n hk in
      let product = suc-mul k n in
      let short = offset_lt f c hc in
      get_elem?-take (w * n) (take stride source) i (omega arith)
      ∙ get_elem?-take stride source i (omega arith)

  Frame_cons-hit :
      (row left : ℕ) (source : List ℕ) (packed middle out : List V)
      → w * bytes_per_pixel f ≤ stride
      → Row first o w h value f (row * w + 0) w (cut source) packed middle
      → Frame (suc row) left (drop stride source) middle out
      → (r k c : ℕ) → r < suc left
      → k < w
      → c < 3
      → get_elem? out (at first o w h ((row + r) * w + k) c)
        ≡ map (value c) (get_elem? source (r * stride + (k * bytes_per_pixel f + offset f c)))
  Frame_cons-hit row left source packed middle out wide now rest zero k c hr hk hc =
      let i = k * bytes_per_pixel f + offset f c in
      let e : row + 0 ≡ row = omega arith in
      let e1 : row * w + 0 + k ≡ row * w + k = omega arith in
      let e2 : 0 * stride + i ≡ i = omega arith in
      let product = suc-mul row w in
      let hit = now.hit k c hk hc in
      rw (e, e2)
        (rest.kept (row * w + k) c (omega arith) hc
          ∙ (rw e1 at hit)
          ∙ ap (map (value c)) (get_elem?-cut source k c wide hk hc))
  Frame_cons-hit row left source packed middle out wide now rest (suc r) k c hr hk hc =
      let i = k * bytes_per_pixel f + offset f c in
      let e : row + suc r ≡ suc row + r = omega arith in
      let product = suc-mul r stride in
      let e1 : suc r * stride + i ≡ stride + (r * stride + i) = omega arith in
      rw (e, e1)
        (rest.hit r k c (omega arith) hk hc
          ∙ ap (map (value c)) (get_elem?-drop stride source (r * stride + i)))

  pub copy_rows-Frame :
      (write : Write V)
      → Writes first o w h write value
      → (row left : ℕ) (source : List ℕ) (packed : List V) → w * h < u64_mod
      → row + left ≤ h
      → w * bytes_per_pixel f ≤ stride
      → left * stride ≤ length source
      → length packed ≡ w * h * 3
      → (out : List V) × (copy_rows write f stride w (w * bytes_per_pixel f) row left source packed
          ≡ ok out)
        × Frame row left source packed out
  unfolding copy_rows
  copy_rows-Frame write writes row zero source packed small bound wide long sized = (
    packed,
    refl,
    record { sized = sized; hit = λ r k c hr. absurd (omega arith); kept = λ j c hj hc. refl },
  )
  copy_rows-Frame write writes row (suc left) source packed small bound wide long sized =
      let n = bytes_per_pixel f in
      let product = suc-mul left stride in
      let rows : suc row * w ≤ h * w = mul-le-mul_right w (omega arith) in
      let here = suc-mul row w in
      let area : h * w ≡ w * h = omega arith in
      let taken = length-take stride source in
      let taken2 = length-take (w * n) (take stride source) in
      let (middle, run, now) =
        copy_row-Row first o w h value f write writes row 0 w (cut source) packed small
          (omega arith) (rw taken2 (rw taken (omega arith))) sized in
      let e = length-drop stride source in
      let (out, runs, rest) =
        copy_rows-Frame write writes (suc row) left (drop stride source) middle small (omega arith)
          wide (rw e (omega arith)) now.sized in
      let c0 : ltb (length source) stride ≡ false = ground arith in
      let c1 : leb (w * n) stride ≡ true = ground arith in
      (
        out,
        rw c0 (rw c1 (rw run runs)),
        record {
          sized = rest.sized;
          hit = Frame_cons-hit row left source packed middle out wide now rest;
          kept = λ j c hj hc. rest.kept j c (omega arith) hc ∙ now.kept j c (omega arith) hc;
        },
      )
