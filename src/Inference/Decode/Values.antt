-- ===== src/Inference/Decode/Values.antt =====
-- analytics/inference-common/src/engine.rs: the values of a tensor, and the bytes that
-- they stand for.
use gstsmith_rs.Prelude.{
  ℕ, zero, suc, ◌+◌, ◌*◌, ◌/◌, ◌%◌, ◌<◌, ◌≡◌, refl, sym, ap, ◌∙◌, List, [], ◌∷◌, ◌++◌, arith,
  length, take, drop, All, ok, take-append-drop, length-take, length-drop, drop_all,
}
use gstsmith_rs.Inference.Shape.{ScalarType, uint8, scalar_size, validate_dims}
use gstsmith_rs.Inference.Shape.Size.{product, tensor_byte_size-ok}
use gstsmith_rs.Inference.Shape.Layout.{validate_dims-ok}
use gstsmith_rs.Inference.Tensors.{OwnedTensor}
use gstsmith_rs.Inference.Decode.{
  from_le_bytes, chunks, map_le, TensorValues, decode_chunks, decode_bytes, as_chunks, decode,
}

abbrev pub IsByte : ℕ → Type 0
IsByte b = b < 256

-- `to_le_bytes` of a value of `n` bytes.
unfoldable pub to_le_bytes : ℕ → ℕ → List ℕ
to_le_bytes zero v = []
to_le_bytes (suc n) v = v % 256 ∷ to_le_bytes n (v / 256)

-- The bytes of values of `n` bytes each.
unfoldable pub encode : ℕ → List ℕ → List ℕ
unfolding to_le_bytes
encode n [] = []
encode n (v ∷ vs) = to_le_bytes n v ++ encode n vs

to_le_bytes-from : (bs : List ℕ) → All IsByte bs → to_le_bytes (length bs) (from_le_bytes bs) ≡ bs
unfolding to_le_bytes from_le_bytes
to_le_bytes-from [] h = refl
to_le_bytes-from (b ∷ bs) h =
    let low : (b + 256 * from_le_bytes bs) % 256 ≡ b = omega arith in
    let high : (b + 256 * from_le_bytes bs) / 256 ≡ from_le_bytes bs = omega arith in
    rw (low, high, to_le_bytes-from bs h.1)

All-take : (n : ℕ) (bs : List ℕ) → All IsByte bs → All IsByte (take n bs)
All-take zero bs h = tt
All-take (suc n) [] h = tt
All-take (suc n) (b ∷ bs) h = (h.0, All-take n bs h.1)

All-drop : (n : ℕ) (bs : List ℕ) → All IsByte bs → All IsByte (drop n bs)
All-drop zero bs h = h
All-drop (suc n) [] h = tt
All-drop (suc n) (b ∷ bs) h = All-drop n bs h.1

encode-map_le :
    (n k : ℕ) (bs : List ℕ)
    → length bs ≡ k * n
    → All IsByte bs
    → encode n (map_le (chunks n k bs)) ≡ bs
unfolding encode map_le chunks
encode-map_le n zero [] e h = refl
encode-map_le n zero (b ∷ bs) e h = absurd (omega arith)
encode-map_le n (suc k) bs e h =
    let len : length (take n bs) ≡ n = grind (arith, length-take n bs) in
    let rest : length (drop n bs) ≡ k * n = grind (arith, length-drop n bs) in
    let first =
      ap (λ m. to_le_bytes m (from_le_bytes (take n bs))) (sym len)
      ∙ to_le_bytes-from (take n bs) (All-take n bs h) in
    rw (first, encode-map_le n k (drop n bs) rest (All-drop n bs h)) (take-append-drop n bs)

length-map_le-chunks : (n k : ℕ) (bs : List ℕ) → length (map_le (chunks n k bs)) ≡ k
unfolding map_le chunks
length-map_le-chunks n zero bs = refl
length-map_le-chunks n (suc k) bs = ap suc (length-map_le-chunks n k (drop n bs))

encode_bytes : (bs : List ℕ) → All IsByte bs → encode 1 bs ≡ bs
unfolding encode
encode_bytes [] h = refl
encode_bytes (b ∷ bs) h = let low : b % 256 ≡ b = omega arith in rw (low, encode_bytes bs h.1)

-- What decoding a whole number of elements gives.
abbrev pub Decodes : ScalarType → ℕ → List ℕ → TensorValues → Type 0
Decodes t count bytes v =
    (v.data_type ≡ t) × (length v.values ≡ count) × (encode (scalar_size t) v.values ≡ bytes)

module _ (t : ScalarType) (count : ℕ) (bytes : List ℕ)
    (sized : length bytes ≡ count * scalar_size t) (whole : All IsByte bytes) where
  decode_chunks-Decodes :
      length bytes / scalar_size t ≡ count
      → (v : TensorValues) × (decode_chunks t (as_chunks (scalar_size t) bytes) ≡ ok v)
        × Decodes t count bytes v
  unfolding decode_chunks
  decode_chunks-Decodes k =
      let rest = drop_all (count * scalar_size t) bytes (omega arith) in
      (
        record { data_type = t; values = map_le (chunks (scalar_size t) count bytes) },
        rw (k, rest),
        (
          refl,
          length-map_le-chunks (scalar_size t) count bytes,
          encode-map_le (scalar_size t) count bytes sized whole,
        ),
      )

decode_bytes-Decodes :
    (t : ScalarType) (count : ℕ) (bytes : List ℕ)
    → length bytes ≡ count * scalar_size t
    → All IsByte bytes
    → (v : TensorValues) × (decode_bytes t bytes ≡ ok v) × Decodes t count bytes v
unfolding decode_bytes scalar_size
decode_bytes-Decodes uint8 count bytes e h =
    (record { data_type = uint8; values = bytes }, refl, (refl, omega arith, encode_bytes bytes h))
decode_bytes-Decodes _ count bytes e h = decode_chunks-Decodes _ count bytes e h (omega arith)

-- A tensor whose bytes are as many as its shape takes, as `collect_inputs` makes sure, is decoded: to
-- the element type and one value for each element of the shape, whose little-endian bytes are the
-- bytes of the tensor.
pub decode-Decodes :
    {F : Type 0} (o : OwnedTensor F)
    → validate_dims o.description o.dims ≡ ok (length o.bytes)
    → All IsByte o.bytes
    → (v : TensorValues) × (decode o ≡ ok v)
      × Decodes o.description.data_type (product o.dims) o.bytes v
unfolding decode
decode-Decodes o valid whole =
    let sized = (validate_dims-ok o.description o.dims (length o.bytes)).0 valid in
    let exact = (tensor_byte_size-ok o.dims o.description.data_type (length o.bytes)).0 sized.1 in
    let (v, e, d) =
      decode_bytes-Decodes o.description.data_type (product o.dims) o.bytes (omega arith) whole in
    (v, ground (arith, valid, e), d)
