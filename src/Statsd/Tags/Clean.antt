-- ===== src/Statsd/Tags/Clean.antt =====
-- What a sanitized tag value looks like: utils/statsd/src/metrics.rs.
use gstsmith_rs.Prelude.{
  ℕ, zero, suc, ◌+◌, ◌<◌, ◌≤◌, ◌≡◌, refl, ap, sym, ◌∙◌, subst, true, false, [], ◌∷◌, ◌++◌, map, leb,
  if◌then◌else◌, Text, length, length-append, length-take, take, take_all, is_empty, arith, All,
  Bool-cases, inl, inr,
}
use gstsmith_rs.Statsd.Tags.{
  max_tag_value_bytes, is_tag_char, tag_char, push_chars, sanitize_tag_value,
}
use mathlib.Core.Path.{ap₂}
use mathlib.Core.List.{append_assoc, append-nil}

-- A text that a tag may have as its value.
pub record IsTagValue (t : Text) : Type 0 where
  pub some_char : 0 < length t
  pub short : length t ≤ max_tag_value_bytes
  pub allowed : All (λ c. is_tag_char c ≡ true) t

tag_char-allowed : (c : ℕ) → is_tag_char (tag_char c) ≡ true
unfolding tag_char is_tag_char
tag_char-allowed c = elim (Bool-cases (is_tag_char c)) [ inl h ↦ rw h h | inr h ↦ rw h refl ]

tag_char_kept : (c : ℕ) → is_tag_char c ≡ true → tag_char c ≡ c
unfolding tag_char
tag_char_kept c h = rw h refl

map-tag_char-allowed : (t : Text) → All (λ c. is_tag_char c ≡ true) (map tag_char t)
map-tag_char-allowed [] = tt
map-tag_char-allowed (c ∷ cs) = (tag_char-allowed c, map-tag_char-allowed cs)

map-tag_char_kept : (t : Text) → All (λ c. is_tag_char c ≡ true) t → map tag_char t ≡ t
map-tag_char_kept [] h = refl
map-tag_char_kept (c ∷ cs) h = ap₂ (◌∷◌) (tag_char_kept c h.0) (map-tag_char_kept cs h.1)

length-map-tag_char : (t : Text) → length (map tag_char t) ≡ length t
length-map-tag_char [] = refl
length-map-tag_char (c ∷ cs) = ap suc (length-map-tag_char cs)

push_chars-eq :
    (cs s : Text) (n : ℕ)
    → length s + n ≡ max_tag_value_bytes
    → push_chars cs s ≡ s ++ map tag_char (take n cs)
unfolding push_chars
push_chars-eq [] s zero h = sym (append-nil s)
push_chars-eq [] s (suc n) h = sym (append-nil s)
push_chars-eq (c ∷ cs) s zero h =
    let e : leb max_tag_value_bytes (length s) ≡ true = ground arith in rw e (sym (append-nil s))
push_chars-eq (c ∷ cs) s (suc n) h =
    let e : leb max_tag_value_bytes (length s) ≡ false = ground arith in
    let l = length-append s (tag_char c ∷ []) in
    let rest = push_chars-eq cs (s ++ tag_char c ∷ []) n (omega arith) in
    rw e (rest ∙ append_assoc s (tag_char c ∷ []) (map tag_char (take n cs)))

is_empty-map-take : (t : Text) → is_empty (map tag_char (take max_tag_value_bytes t)) ≡ is_empty t
is_empty-map-take [] = refl
is_empty-map-take (c ∷ cs) = refl

-- A tag value is the first 192 characters, each that is not allowed replaced by `_`, and `_` for an
-- empty text.
pub sanitize_tag_value-eq :
    (t : Text)
    → sanitize_tag_value t
      ≡ (if is_empty t then b'_' ∷ [] else map tag_char (take max_tag_value_bytes t))
unfolding sanitize_tag_value
sanitize_tag_value-eq t = rw (push_chars-eq t [] max_tag_value_bytes refl, is_empty-map-take t) refl

sanitized-IsTagValue :
    (t : Text)
    → IsTagValue (if is_empty t then b'_' ∷ [] else map tag_char (take max_tag_value_bytes t))
unfolding is_tag_char
sanitized-IsTagValue [] = record {
  some_char = omega arith;
  short = omega arith;
  allowed = (refl, tt);
}
sanitized-IsTagValue (c ∷ cs) =
    let l = length-map-tag_char (take max_tag_value_bytes (c ∷ cs)) in
    let k = length-take max_tag_value_bytes (c ∷ cs) in
    record {
      some_char = omega arith;
      short = omega arith;
      allowed = map-tag_char-allowed (take max_tag_value_bytes (c ∷ cs));
    }

kept-IsTagValue :
    (t : Text)
    → IsTagValue t
    → (if is_empty t then b'_' ∷ [] else map tag_char (take max_tag_value_bytes t)) ≡ t
kept-IsTagValue [] h = absurd (omega (arith, h.some_char))
kept-IsTagValue (c ∷ cs) h =
    ap (map tag_char) (take_all max_tag_value_bytes (c ∷ cs) h.short)
    ∙ map-tag_char_kept (c ∷ cs) h.allowed

-- Every tag value is one to 192 allowed characters, whatever the text, and a text that is a tag
-- value already is left as it is.
pub sanitize_tag_value-IsTagValue :
    (t : Text) → IsTagValue (sanitize_tag_value t) × (IsTagValue t → sanitize_tag_value t ≡ t)
sanitize_tag_value-IsTagValue t =
    let e = sanitize_tag_value-eq t in
    (subst IsTagValue (sym e) (sanitized-IsTagValue t), λ h. e ∙ kept-IsTagValue t h)
