-- ===== src/Lines/Tests.antt =====
-- Runs of text/lines/src on small inputs, and the theorems about it at such inputs.
use gstsmith_rs.Prelude.{
  Bool, ℕ, zero, suc, ◌≤◌, ◌<◌, ◌≡◌, refl, ◌⊎◌, true, false, List, [], ◌∷◌, ◌++◌, map, some, arith,
  ok, drop, take, u32_mod, All,
}
use gstsmith_rs.Lines.Delimiter.{Bytes, starts_with, Clear, Absent, naive_find, naive_find_laws}
use gstsmith_rs.Lines.Framing.{Cuts}
use gstsmith_rs.Lines.LineParse.{
  Settings, octet_stream, LineParse, Call, find_delimiter, checked_lookahead, frame_action,
  handle_frame,
}
use gstsmith_rs.Lines.LineParse.Calls.{IsConfigured, IsSmooth, frame_of, after}
use gstsmith_rs.Lines.LineParse.Bounds.{frame_action_bounds, handle_frame-err-Clear}
use gstsmith_rs.Lines.LineParse.Progress.{Hands, Asks, handle_frame_progress}
use gstsmith_rs.Lines.LineParse.Stream.{
  Reach, begin, arrive, handle, IsFresh, pending, total, frames-Cuts, chunks_irrelevant,
}
use gstsmith_rs.Lines.LineEnc.{ends_with, Maps, transform_size, transform}
use gstsmith_rs.Lines.LineEnc.Encode.{encoded, transform-encoded}
use gstsmith_rs.Lines.RoundTrip.{IsRecord, input, encode_all, frames-encode_all}

-- "::", and records of at most four bytes.
abbrev colons : Settings
colons = record { delimiter = b':' ∷ b':' ∷ []; max_record_size = 4; omit_empty = false }

abbrev colons-IsConfigured : IsConfigured colons 6
colons-IsConfigured = record { nonempty = omega arith; sum = refl; small = omega arith }

abbrev element : LineParse
element = record {
  settings = colons;
  scan_offset = 0;
  min_frame_size = 1;
  pushed_caps = [];
  frames = [];
}

abbrev call : Bytes → Call
call bytes = record {
  buffer = some bytes;
  readable = true;
  has_current_caps = true;
  upstream_caps = octet_stream;
  accepts_caps = true;
  draining = false;
  copies_flags = true;
  finishes = ok tt;
}

abbrev drain_call : Bytes → Call
drain_call bytes = record (call bytes) { draining = true }

abbrev call-IsSmooth : (bytes : Bytes) → IsSmooth (call bytes) bytes
call-IsSmooth bytes = record {
  buffered = refl;
  readable = refl;
  accepts = refl;
  copies = refl;
  finishes = refl;
}

abbrev drain_call-IsSmooth : (bytes : Bytes) → IsSmooth (drain_call bytes) bytes
drain_call-IsSmooth bytes = record {
  buffered = refl;
  readable = refl;
  accepts = refl;
  copies = refl;
  finishes = refl;
}

-- "ab:" and ":c", with a call after each, and both at once.
abbrev part : Bytes
part = b'a' ∷ b'b' ∷ b':' ∷ []

abbrev whole : Bytes
whole = part ++ b':' ∷ b'c' ∷ []

abbrev waiting : LineParse
waiting = record element { scan_offset = 2; min_frame_size = 4 }

abbrev framed : LineParse
framed = record element { frames = record { payload = some (b'a' ∷ b'b' ∷ []); consumed = 4 } ∷ [] }

handle_part : handle_frame naive_find (call part) element ≡ (waiting, ok tt)
unfolding handle_frame checked_lookahead find_delimiter naive_find
handle_part = refl

handle_whole : handle_frame naive_find (call whole) waiting ≡ (framed, ok tt)
unfolding handle_frame checked_lookahead find_delimiter naive_find
handle_whole = refl

handle_at_once : handle_frame naive_find (call whole) element ≡ (framed, ok tt)
unfolding handle_frame checked_lookahead find_delimiter naive_find
handle_at_once = refl

element-IsFresh : IsFresh naive_find naive_find_laws colons 6 colons-IsConfigured element
element-IsFresh = record { same = refl; unscanned = refl; nothing = refl }

in_parts : Reach naive_find element whole framed
unfolding handle_frame checked_lookahead find_delimiter naive_find total
in_parts = handle (call whole) (call-IsSmooth whole) refl refl (
    arrive (b':' ∷ b'c' ∷ [])
      (handle (call part) (call-IsSmooth part) refl refl (arrive part begin)))

at_once : Reach naive_find element whole framed
unfolding handle_frame checked_lookahead find_delimiter naive_find total
at_once = handle (call whole) (call-IsSmooth whole) refl refl (arrive whole begin)

one_byte-Absent : Absent colons.delimiter (pending whole framed)
unfolding starts_with total
one_byte-Absent zero = refl
one_byte-Absent (suc zero) = refl
one_byte-Absent (suc (suc q)) = refl

chunks_irrelevant_example :
    (framed.frames ≡ framed.frames) × (pending whole framed ≡ pending whole framed)
chunks_irrelevant_example =
    chunks_irrelevant naive_find naive_find_laws colons 6 colons-IsConfigured element
      element-IsFresh in_parts one_byte-Absent at_once one_byte-Absent

frames-Cuts_example :
    (rs : List Bytes) × Cuts colons.delimiter whole rs (pending whole framed)
    × (framed.frames ≡ map (frame_of colons) rs)
frames-Cuts_example =
    frames-Cuts naive_find naive_find_laws colons 6 colons-IsConfigured element element-IsFresh
      in_parts

frame_action_bounds_example : (2 ≤ 4) × (b'a' ∷ b'b' ∷ [] ≡ take 2 whole) × (2 ≤ 4) × (4 < u32_mod)
unfolding frame_action find_delimiter naive_find
frame_action_bounds_example =
    frame_action_bounds naive_find (call whole) colons 6 2 2 whole (b'a' ∷ b'b' ∷ []) 4 refl refl

-- Six bytes and no delimiter yet.
abbrev long : Bytes
long = b'a' ∷ b'a' ∷ b'a' ∷ b'a' ∷ b'a' ∷ b':' ∷ []

handle_frame-err-Clear_example : Clear colons.delimiter (long ++ b':' ∷ []) 5
unfolding handle_frame checked_lookahead find_delimiter naive_find
handle_frame-err-Clear_example =
    handle_frame-err-Clear naive_find naive_find_laws (call long) element long 6 colons-IsConfigured
      (call-IsSmooth long) (λ q h. absurd (omega arith)) _ (b':' ∷ []) refl refl

handle_frame_progress_example :
    let e = after (handle_frame naive_find (call part) element) in
    Hands element e part ⊎ Asks element e part 6
unfolding handle_frame checked_lookahead find_delimiter naive_find
handle_frame_progress_example =
    handle_frame_progress naive_find naive_find_laws (call part) element part 6 colons-IsConfigured
      (call-IsSmooth part) (λ q h. absurd (omega arith)) refl refl

whole-Clear : Clear colons.delimiter whole 2
unfolding starts_with
whole-Clear zero h = refl
whole-Clear (suc zero) h = refl
whole-Clear (suc (suc q)) h = absurd (omega arith)

both_maps : Maps
both_maps = record { reads_input = true; writes_output = true }

transform-encoded_example :
    transform both_maps colons.delimiter part (0 ∷ 0 ∷ 0 ∷ 0 ∷ 0 ∷ [])
    ≡ ok (encoded colons.delimiter part)
unfolding both_maps transform_size
transform-encoded_example =
    transform-encoded both_maps colons.delimiter part (0 ∷ 0 ∷ 0 ∷ 0 ∷ 0 ∷ []) refl refl
      (omega arith) refl

-- "ab::" and "c", as lineenc writes them, in one chunk.
abbrev records : List (Bytes × Bool)
records = (b'a' ∷ b'b' ∷ [], true) ∷ (b'c' ∷ [], false) ∷ []

abbrev written : Bytes
written = b'a' ∷ b'b' ∷ b':' ∷ b':' ∷ b'c' ∷ b':' ∷ b':' ∷ []

written_lem : encode_all colons.delimiter (map (input colons.delimiter) records) ≡ written
unfolding encode_all encoded ends_with
written_lem = refl

abbrev parsed : LineParse
parsed = record framed {
  frames = framed.frames ++ record { payload = some (b'c' ∷ []); consumed = 3 } ∷ [];
}

parsed-Reach : Reach naive_find element written parsed
unfolding handle_frame checked_lookahead find_delimiter naive_find total
parsed-Reach =
    handle (call (drop 4 written)) (call-IsSmooth (drop 4 written)) refl refl
      (handle (call written) (call-IsSmooth written) refl refl (arrive written begin))

records-IsRecord : All (λ r. IsRecord colons.delimiter r.0) records
unfolding starts_with
records-IsRecord = ((refl, first), ((refl, second), tt))
  where
    first : Clear colons.delimiter (b'a' ∷ b'b' ∷ b':' ∷ b':' ∷ []) 2
    first zero h = refl
    first (suc zero) h = refl
    first (suc (suc q)) h = absurd (omega arith)

    second : Clear colons.delimiter (b'c' ∷ b':' ∷ b':' ∷ []) 1
    second zero h = refl
    second (suc q) h = absurd (omega arith)

frames-encode_all_example : parsed.frames ≡ map (λ r. frame_of colons r.0) records
unfolding encode_all encoded ends_with starts_with total
frames-encode_all_example =
    frames-encode_all naive_find naive_find_laws colons 6 colons-IsConfigured element parsed records
      records-IsRecord element-IsFresh parsed-Reach (λ q. nothing q)
  where
    nothing : (q : ℕ) → starts_with colons.delimiter (drop {A = ℕ} q []) ≡ false
    nothing zero = refl
    nothing (suc q) = refl
