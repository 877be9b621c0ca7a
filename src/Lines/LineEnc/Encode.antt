-- ===== src/Lines/LineEnc/Encode.antt =====
-- text/lines/src/lineenc/imp.rs: what `transform` writes into the output that `transform_size` asks
-- for.
use mathlib.Core.List.{append_assoc}
use gstsmith_rs.Prelude.{
  ℕ, ◌+◌, ◌≤◌, ◌<◌, ◌≡◌, refl, sym, ap, ◌∙◌, Bool, true, false, not, ◌++◌, some, ok, arith,
  if◌then◌else◌, length, take, drop, take-append_length, length-append, is_empty-false, inl, inr,
  Bool-cases, length-drop,
}
use gstsmith_rs.Lines.Delimiter.{Bytes}
use gstsmith_rs.Lines.LineEnc.{
  sink, ends_with, copy_into, output_size, write_output, Maps, transform, transform_size,
}

-- The record with its delimiter, once.
unfoldable pub encoded : Bytes → Bytes → Bytes
encoded delimiter input = if ends_with input delimiter then input else input ++ delimiter

copy_into-ok :
    (target bytes : Bytes) (from : ℕ)
    → from + length bytes ≤ length target
    → copy_into target from bytes
      ≡ some (take from target ++ (bytes ++ drop (from + length bytes) target))
unfolding copy_into
copy_into-ok target bytes from h = ground arith

-- What `write_output` writes starts with the encoded record.
write_output-true :
    (input delimiter output : Bytes)
    → length output ≡ length input + length delimiter
    → (rest : Bytes) × (write_output true input delimiter output
        ≡ ok ((input ++ delimiter) ++ rest))
unfolding write_output
write_output-true input delimiter output h =
    let e : 0 + length input ≡ length input = omega arith in
    let tail = drop (0 + length input) output in
    let first = copy_into-ok output input 0 (omega arith) in
    let fits : length input + length delimiter ≤ length (input ++ tail) =
      omega (arith, length-append input tail, length-drop (0 + length input) output) in
    let second = copy_into-ok (input ++ tail) delimiter (length input) fits in
    (
      drop (length input + length delimiter) (input ++ tail),
      rw (first, second, take-append_length input tail)
          (ap ok (sym (append_assoc input delimiter _))),
    )

write_output-false :
    (input delimiter output : Bytes)
    → length input ≤ length output
    → (rest : Bytes) × (write_output false input delimiter output ≡ ok (input ++ rest))
unfolding write_output
write_output-false input delimiter output h =
    (drop (0 + length input) output, rw (copy_into-ok output input 0 (omega arith)))

-- `transform` past its checks.
transform_written :
    (maps : Maps) (delimiter input output written : Bytes) (b : Bool) (size : ℕ)
    → maps.reads_input ≡ true
    → maps.writes_output ≡ true
    → 0 < length delimiter
    → ends_with input delimiter ≡ b
    → output_size (not b) (length input) (length delimiter) ≡ ok size
    → write_output (not b) input delimiter output ≡ ok written
    → transform maps delimiter input output ≡ ok (take size written)
unfolding transform
transform_written maps delimiter input output written b size r w h e s o =
    rw (is_empty-false delimiter h, r, e, s, w, o)

-- If GStreamer maps both buffers, the output has the size that `transform_size` asked for, and the
-- delimiter is not empty, then `transform` succeeds whatever the output held, and leaves exactly the
-- record, with the delimiter behind it unless the record ends with it already.
pub transform-encoded :
    (maps : Maps) (delimiter input output : Bytes)
    → maps.reads_input ≡ true
    → maps.writes_output ≡ true
    → 0 < length delimiter
    → transform_size sink (length input) delimiter ≡ some (length output)
    → transform maps delimiter input output ≡ ok (encoded delimiter input)
unfolding transform_size encoded output_size
transform-encoded maps delimiter input output r w h size =
    elim (Bool-cases (ends_with input delimiter)) [
      | inl ends ↦
          let (rest, o) = write_output-false input delimiter output (ground arith) in
          transform_written maps delimiter input output (input ++ rest) true (length input) r w h
            ends refl o
          ∙ rw ends (ap ok (take-append_length input rest))
      | inr unended ↦
          let (rest, o) = write_output-true input delimiter output (ground arith) in
          transform_written maps delimiter input output ((input ++ delimiter) ++ rest) false
            (length input + length delimiter) r w h unended (ground arith) o
          ∙ rw (unended, ← length-append input delimiter)
              (ap ok (take-append_length (input ++ delimiter) rest))
    ]
