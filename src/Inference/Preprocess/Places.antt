-- ===== src/Inference/Preprocess/Places.antt =====
-- Where the values of a frame go: analytics/inference-common/src/preprocess.rs.
use gstsmith_rs.Prelude.{ℕ, ◌+◌, ◌*◌, ◌<◌, ◌≡◌, ◌≢◌, ◌⊎◌, inl, inr, Bool, true, false, arith}
use gstsmith_rs.Inference.Preprocess.{
  ChannelOrder, rgb_order, bgr_order, destination_channel, destination,
}

mul_assoc : (x y z : ℕ) → x * y * z ≡ x * (y * z)
mul_assoc x y z = omega arith

pub three : (c : ℕ) → c < 3 → (c ≡ 0) ⊎ ((c ≡ 1) ⊎ (c ≡ 2))
three c h = ground arith

destination_channel_lt : (o : ChannelOrder) (c : ℕ) → c < 3 → destination_channel o c < 3
unfolding destination_channel
destination_channel_lt rgb_order c h = h
destination_channel_lt bgr_order c h = omega arith

destination_channel_ne :
    (o : ChannelOrder) (c d : ℕ)
    → c < 3
    → d < 3
    → c ≢ d
    → destination_channel o c ≢ destination_channel o d
unfolding destination_channel
destination_channel_ne rgb_order c d h k n = n
destination_channel_ne bgr_order c d h k n = λ e. n (omega arith)

-- A place in the order of planes is of one index and one plane.
plane_eq :
    (area i j x y : ℕ)
    → i < area
    → j < area
    → x < 3
    → y < 3
    → x * area + i ≡ y * area + j
    → (i ≡ j) × (x ≡ y)
plane_eq area i j x y hi hj hx hy e = elim (three x hx) [
  | inl a ↦ elim (three y hy) [
    | inl b ↦ let f = rw (a, b) at e in (omega arith, omega arith)
    | inr (inl b) ↦ let f = rw (a, b) at e in absurd (omega arith)
    | inr (inr b) ↦ let f = rw (a, b) at e in absurd (omega arith)
  ]
  | inr (inl a) ↦ elim (three y hy) [
    | inl b ↦ let f = rw (a, b) at e in absurd (omega arith)
    | inr (inl b) ↦ let f = rw (a, b) at e in (omega arith, omega arith)
    | inr (inr b) ↦ let f = rw (a, b) at e in absurd (omega arith)
  ]
  | inr (inr a) ↦ elim (three y hy) [
    | inl b ↦ let f = rw (a, b) at e in absurd (omega arith)
    | inr (inl b) ↦ let f = rw (a, b) at e in absurd (omega arith)
    | inr (inr b) ↦ let f = rw (a, b) at e in (omega arith, omega arith)
  ]
]

plane_lt : (area i x : ℕ) → i < area → x < 3 → x * area + i < area * 3
plane_lt area i x hi hx = elim (three x hx) [
  | inl a ↦ rw a (omega arith)
  | inr (inl a) ↦ rw a (omega arith)
  | inr (inr a) ↦ rw a (omega arith)
]

pub destination_lt :
    (first : Bool) (o : ChannelOrder) (width height i c : ℕ)
    → i < width * height
    → c < 3
    → destination first o width height i c < width * height * 3
unfolding destination
destination_lt true o width height i c hi hc =
    rw (mul_assoc (destination_channel o c) width height)
      (plane_lt (width * height) i (destination_channel o c) hi (destination_channel_lt o c hc))
destination_lt false o width height i c hi hc = let h = destination_channel_lt o c hc in omega arith

pub destination_ne :
    (first : Bool) (o : ChannelOrder) (width height i j c d : ℕ)
    → i < width * height
    → j < width * height
    → c < 3
    → d < 3
    → ((i ≢ j) ⊎ (c ≢ d))
    → destination first o width height i c ≢ destination first o width height j d
unfolding destination
destination_ne true o width height i j c d hi hj hc hd n = λ e.
    let x = destination_channel o c in
    let y = destination_channel o d in
    let planes = rw (mul_assoc x width height, mul_assoc y width height) at e in
    let (same, channel) =
      plane_eq (width * height) i j x y hi hj (destination_channel_lt o c hc)
        (destination_channel_lt o d hd) planes in
    elim n [ inl k ↦ k same | inr k ↦ destination_channel_ne o c d hc hd k channel ]
destination_ne false o width height i j c d hi hj hc hd n = λ e.
    let hx = destination_channel_lt o c hc in
    let hy = destination_channel_lt o d hd in
    let same : i ≡ j = omega arith in
    let channel : destination_channel o c ≡ destination_channel o d = omega arith in
    elim n [ inl k ↦ k same | inr k ↦ destination_channel_ne o c d hc hd k channel ]
