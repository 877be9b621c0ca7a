-- ===== src/Lines/LineEnc.antt =====
-- text/lines/src/lineenc/imp.rs: the element `lineenc`.
pub mod Encode
use Prim.Native.String.{String}
use text.Mathlib.Text.{◌==◌ as str_eq}
use gstsmith_rs.Prelude.{
  ℕ, ◌+◌, ◌-◌, Bool, true, false, not, ◌&&◌, List, [], ◌∷◌, ◌++◌, Option, none, some, leb,
  if◌then◌else◌, length, take, drop, is_empty, u64_mod, checked_add, Result, ok, err, ◌>>=◌, ◌>>◌,
  guard, ok_or,
}
use gstsmith_rs.Lines.Delimiter.{Bytes, starts_with}

pub data PadDirection : Type 0 where
  sink src unknown : PadDirection

-- Why `transform` fails, by the message that it posts.
pub data EncFault : Type 0 where
  empty_delimiter input_unreadable size_overflow output_unwritable : EncFault
  no_payload_room no_delimiter_room : EncFault

-- `<[u8]>::ends_with`.
unfoldable pub ends_with : Bytes → Bytes → Bool
unfolding starts_with
ends_with xs d = leb (length d) (length xs) && starts_with d (drop (length xs - length d) xs)

-- `slice.get_mut(from..from + bytes.len())` and `copy_from_slice`: none if the range does not fit.
unfoldable pub copy_into : Bytes → ℕ → Bytes → Option Bytes
copy_into target from bytes =
    if leb (from + length bytes) (length target)
    then some (take from target ++ (bytes ++ drop (from + length bytes) target))
    else none

unfoldable pub start : Bytes → Result EncFault (Unit {0})
start delimiter = guard (not (is_empty delimiter)) empty_delimiter

-- The setting is the delimiter. A value of another type, and an unknown name, change nothing.
unfoldable pub set_property : String → Option Bytes → Bytes → Bytes
set_property name value delimiter =
    if str_eq name "delimiter" then elim value [ some d ↦ d | none ↦ delimiter ] else delimiter

-- The size of the output buffer that the base class allocates for an input of `size` bytes.
unfoldable pub transform_size : PadDirection → ℕ → Bytes → Option ℕ
transform_size sink size delimiter = checked_add u64_mod size (length delimiter)
transform_size src size delimiter = some size
transform_size unknown size delimiter = none

-- What GStreamer answers when the two buffers are mapped.
pub record Maps : Type 0 where
  pub reads_input : Bool
  pub writes_output : Bool

-- `output_size` of `transform`.
unfoldable pub output_size : Bool → ℕ → ℕ → Result EncFault ℕ
output_size true size delimiter_len = ok_or (checked_add u64_mod size delimiter_len) size_overflow
output_size false size delimiter_len = ok size

-- The copies of `transform`, into the allocated output.
unfoldable pub write_output : Bool → Bytes → Bytes → Bytes → Result EncFault Bytes
write_output append_delimiter input delimiter output = do
  payload_written ← ok_or (copy_into output 0 input) no_payload_room
  if append_delimiter
      then ok_or (copy_into payload_written (length input) delimiter) no_delimiter_room
      else ok payload_written

-- The output buffer is cut to its size at the end (`set_size`).
unfoldable pub transform : Maps → Bytes → Bytes → Bytes → Result EncFault Bytes
transform maps delimiter input output = do
  guard (not (is_empty delimiter)) empty_delimiter
  guard maps.reads_input input_unreadable
  let append_delimiter = not (ends_with input delimiter)
  size ← output_size append_delimiter (length input) (length delimiter)
  guard maps.writes_output output_unwritable
  written ← write_output append_delimiter input delimiter output
  ok (take size written)
