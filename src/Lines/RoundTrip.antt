-- ===== src/Lines/RoundTrip.antt =====
-- text/lines/src: what lineparse makes of the bytes that lineenc writes.
use gstsmith_rs.Prelude.{
  ℕ, zero, suc, ◌+◌, ◌-◌, ◌<◌, ◌≡◌, refl, sym, ap, ◌∙◌, subst, Bool, true, false, leb, inl, inr,
  List, [], ◌∷◌, ◌++◌, map, arith, length, take, drop, All, Bool-cases, drop-append_length,
  take-append_length, length-append,
}
use mathlib.Core.List.{append_assoc}
use gstsmith_rs.Lines.Delimiter.{
  Bytes, starts_with, Absent, FirstAt, Find, MemmemLaws, FirstAt-append, starts_with-drop-append,
}
use gstsmith_rs.Lines.Framing.{Cuts, uncut, cut, Cuts-unique}
use gstsmith_rs.Lines.LineEnc.{ends_with}
use gstsmith_rs.Lines.LineEnc.Encode.{encoded}
use gstsmith_rs.Lines.LineParse.{Settings, LineParse}
use gstsmith_rs.Lines.LineParse.Calls.{IsConfigured, frame_of}
use gstsmith_rs.Lines.LineParse.Stream.{Reach, IsFresh, pending, frames-Cuts}

-- A record that a delimiter behind it ends: none starts earlier, not even one that runs into it.
abbrev pub IsRecord : Bytes → Bytes → Type 0
IsRecord d r = FirstAt d (r ++ d) (length r)

-- The output of lineenc for the records in order.
unfoldable pub encode_all : Bytes → List Bytes → Bytes
encode_all d [] = []
encode_all d (r ∷ rs) = encoded d r ++ encode_all d rs

-- A record as lineenc is given it, with its delimiter or without.
abbrev pub input : Bytes → Bytes × Bool → Bytes
input d (r, true) = r ++ d
input d (r, false) = r

map-map_first :
    {B : Type 0} (g : Bytes → B) (rs : List (Bytes × Bool))
    → map g (map (λ r. r.0) rs) ≡ map (λ r. g r.0) rs
map-map_first g [] = refl
map-map_first g (r ∷ rs) = ap (λ t. g r.0 ∷ t) (map-map_first g rs)

starts_with-nil : (d : Bytes) (q : ℕ) → 0 < length d → starts_with d (drop q []) ≡ false
unfolding starts_with
starts_with-nil [] q h = absurd (omega arith)
starts_with-nil (x ∷ d) zero h = refl
starts_with-nil (x ∷ d) (suc q) h = refl

module _ (d : Bytes) (nonempty : 0 < length d) where
  ends_with-append : (r : Bytes) → IsRecord d r → ends_with (r ++ d) d ≡ true
  unfolding ends_with
  ends_with-append r f =
      let n = length-append r d in
      let start : length (r ++ d) - length d ≡ length r = omega arith in
      let fits : leb (length d) (length (r ++ d)) ≡ true = ground arith in rw fits (rw start f.0)

  encoded-IsRecord : (r : Bytes) → IsRecord d r → encoded d r ≡ r ++ d
  unfolding encoded ends_with
  encoded-IsRecord r f = elim (Bool-cases (ends_with r d)) [
    | inl ends ↦
        let early = f.1 (length r - length d) in
        let known = starts_with-drop-append d r d (length r - length d) in
        ground (arith, early, known)
    | inr unended ↦ rw unended
  ]

  -- A record that comes with its delimiter is written as it is, and another gets one.
  encoded-input : (r : Bytes) (b : Bool) → IsRecord d r → encoded d (input d (r, b)) ≡ r ++ d
  unfolding encoded
  encoded-input r true f = rw (ends_with-append r f) refl
  encoded-input r false f = encoded-IsRecord r f

  -- What lineenc writes for such records is cut into those records.
  pub encode_all-Cuts :
      (rs : List (Bytes × Bool))
      → All (λ r. IsRecord d r.0) rs
      → Cuts d (encode_all d (map (input d) rs)) (map (λ r. r.0) rs) []
  unfolding encode_all
  encode_all-Cuts [] h = uncut
  encode_all-Cuts ((r, b) ∷ rs) h =
      let rest = encode_all d (map (input d) rs) in
      let whole = FirstAt-append d (r ++ d) rest (length r) nonempty h.0 in
      let front : take (length r) ((r ++ d) ++ rest) ≡ r =
        ap (take (length r)) (append_assoc r d rest) ∙ take-append_length r _ in
      let back : drop (length r + length d) ((r ++ d) ++ rest) ≡ rest =
        ap (λ k. drop k ((r ++ d) ++ rest)) (sym (length-append r d))
        ∙ drop-append_length (r ++ d) rest in
      let tail = subst (λ t. Cuts d t (map (λ r. r.0) rs) []) (sym back) (encode_all-Cuts rs h.1) in
      rw (encoded-input r b h.0) (
        subst (λ t. Cuts d ((r ++ d) ++ rest) (t ∷ map (λ r. r.0) rs) []) front
          (cut (length r) whole tail))

-- Of records, each followed by its first delimiter, that lineenc is given with or without that
-- delimiter: whatever chunks its output comes in, and whatever calls of the handler succeed before
-- the end of the stream, once no delimiter is unread, the frames of lineparse are the records, in
-- order, without the delimiter; the empty ones among them are dropped if so configured.
pub frames-encode_all :
    (find : Find) (laws : MemmemLaws find) (s : Settings) (lookahead : ℕ)
    (v : IsConfigured s lookahead) (e₀ e : LineParse) (rs : List (Bytes × Bool))
    → All (λ r. IsRecord s.delimiter r.0) rs
    → IsFresh find laws s lookahead v e₀
    → Reach find e₀ (encode_all s.delimiter (map (input s.delimiter) rs)) e
    → Absent s.delimiter (pending (encode_all s.delimiter (map (input s.delimiter) rs)) e)
    → e.frames ≡ map (λ r. frame_of s r.0) rs
frames-encode_all find laws s lookahead v e₀ e rs h fresh r a =
    let (rs', c, f) = frames-Cuts find laws s lookahead v e₀ fresh r in
    let same =
      Cuts-unique s.delimiter v.nonempty c a (encode_all-Cuts s.delimiter v.nonempty rs h)
        (λ q. starts_with-nil s.delimiter q v.nonempty) in
    f ∙ ap (map (frame_of s)) same ∙ map-map_first (frame_of s) rs
