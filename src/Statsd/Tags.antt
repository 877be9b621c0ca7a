-- ===== src/Statsd/Tags.antt =====
-- Values of metric tags: `sanitize_tag_value` of utils/statsd/src/metrics.rs.
pub mod Clean
use gstsmith_rs.Prelude.{
  ℕ, Bool, ◌||◌, ◌&&◌, List, [], ◌∷◌, ◌++◌, leb, ◌==◌, if◌then◌else◌, Text, length, is_empty,
}

abbrev pub max_tag_value_bytes : ℕ
max_tag_value_bytes = 192

-- An ASCII letter or digit, or one of `_`, `-`, `.` and `/`.
unfoldable pub is_tag_char : ℕ → Bool
is_tag_char c =
    ((leb b'0' c && leb c b'9') || (leb b'A' c && leb c b'Z') || (leb b'a' c && leb c b'z'))
    || (c == b'_' || c == b'-' || c == b'.' || c == b'/')

unfoldable pub tag_char : ℕ → ℕ
unfolding is_tag_char
tag_char c = if is_tag_char c then c else b'_'

-- The loop over the characters. What is pushed is ASCII, so that each takes one byte.
unfoldable pub push_chars : Text → Text → Text
unfolding tag_char
push_chars [] sanitized = sanitized
push_chars (c ∷ cs) sanitized =
    let rest = push_chars cs (sanitized ++ tag_char c ∷ []) in
    if leb max_tag_value_bytes (length sanitized) then sanitized else rest

unfoldable pub sanitize_tag_value : Text → Text
unfolding push_chars
sanitize_tag_value value =
    let sanitized = push_chars value [] in if is_empty sanitized then b'_' ∷ [] else sanitized
