-- ===== src/Lines/LineParse/Stream.antt =====
-- text/lines/src/lineparse/imp.rs over a whole stream: the base class buffers the chunks that
-- arrive, and hands all the bytes that no frame has taken to each call of `handle_frame`.
use mathlib.Core.List.{map-append}
use gstsmith_rs.Prelude.{
  ℕ, ◌+◌, ◌≡◌, refl, sym, ap, ◌∙◌, subst, inl, inr, false, List, [], ◌∷◌, ◌++◌, map, arith, length,
  take, drop, ok,
}
use gstsmith_rs.Lines.Delimiter.{Bytes, Absent, FirstAt, Find, MemmemLaws, Clear}
use gstsmith_rs.Lines.Framing.{
  Cuts, uncut, taken, Cuts-append, Cuts-concat, Cuts-rest, Cuts-unique, joined, Cuts-joined,
}
use native.Mathlib.Decide.{dec_lt}
use gstsmith_rs.Lines.LineParse.{Settings, next_offset, LineParse, Call, Frame, handle_frame}
use gstsmith_rs.Lines.LineParse.Scan.{
  Scanned, Scanned-append, Scanned-zero, Scanned-next_offset, occurrence_cases,
}
use gstsmith_rs.Lines.LineParse.Calls.{
  IsConfigured, IsSmooth, frame_of, Framed, Waiting, after, result, handle_frame_found,
  handle_frame_too_long, handle_frame_waits, handle_frame_exceeded,
}

-- The input bytes that the frames have taken.
unfoldable pub total : List Frame → ℕ
total [] = 0
total (f ∷ fs) = f.consumed + total fs

-- The bytes that the base class holds: the input less what the frames took.
abbrev pub pending : Bytes → LineParse → Bytes
pending input e = drop (total e.frames) input

module _ (find : Find) (e₀ : LineParse) where
  -- An element that started as `e₀` has been given `input` in chunks, with calls of `handle_frame`
  -- between them. All calls before the end of the stream succeed.
  pub data Reach : Bytes → LineParse → Type 0 where
    begin : Reach [] e₀
    arrive :
        {input : Bytes} {e : LineParse} (chunk : Bytes) → Reach input e → Reach (input ++ chunk) e
    handle :
        {input : Bytes} {e : LineParse} (c : Call)
        → IsSmooth c (pending input e)
        → c.draining ≡ false
        → result (handle_frame find c e) ≡ ok tt
        → Reach input e
        → Reach input (after (handle_frame find c e))

-- What the parser keeps: its frames are the records of a cut of the input, and the search
-- remembers the truth about the bytes that are left.
pub record Inv (s : Settings) (input : Bytes) (e : LineParse) : Type 0 where
  pub settings : e.settings ≡ s
  pub records : List Bytes
  pub rest : Bytes
  pub cuts : Cuts s.delimiter input records rest
  pub framed : e.frames ≡ map (frame_of s) records
  pub scanned : Scanned s.delimiter rest e.scan_offset

total-map : (s : Settings) (rs : List Bytes) → total (map (frame_of s) rs) ≡ taken s.delimiter rs
unfolding total taken frame_of
total-map s [] = refl
total-map s (r ∷ rs) = omega (arith, total-map s rs)

module _ (find : Find) (laws : MemmemLaws find) (s : Settings) (lookahead : ℕ)
    (v : IsConfigured s lookahead) where
  -- The rest of the invariant is what the base class holds.
  Inv-pending : {input : Bytes} {e : LineParse} (i : Inv s input e) → i.rest ≡ pending input e
  Inv-pending {input} i =
      Cuts-rest s.delimiter v.nonempty i.cuts
      ∙ ap (λ k. drop k input) (sym (ap total i.framed ∙ total-map s i.records))

  arrive-Inv :
      {input : Bytes} {e : LineParse} (chunk : Bytes) → Inv s input e → Inv s (input ++ chunk) e
  arrive-Inv {input} {e} chunk i = record {
    settings = i.settings;
    records = i.records;
    rest = i.rest ++ chunk;
    cuts = Cuts-append s.delimiter v.nonempty chunk i.cuts;
    framed = i.framed;
    scanned = Scanned-append s.delimiter i.rest chunk e.scan_offset i.scanned;
  }

  found-Inv :
      {input : Bytes} {e e' : LineParse} (p : ℕ) (i : Inv s input e)
      → FirstAt s.delimiter i.rest p
      → Framed e e' (frame_of s (take p i.rest))
      → Inv s input e'
  found-Inv p i f g = record {
    settings = g.kept ∙ i.settings;
    records = i.records ++ take p i.rest ∷ [];
    rest = drop (p + length s.delimiter) i.rest;
    cuts = Cuts-concat s.delimiter v.nonempty p i.cuts f;
    framed =
        g.frames
        ∙ ap (λ fs. fs ++ frame_of s (take p i.rest) ∷ []) i.framed
        ∙ sym (map-append (frame_of s) i.records (take p i.rest ∷ []));
    scanned = subst (Scanned s.delimiter _) (sym g.offset) (Scanned-zero s.delimiter _);
  }

  waits-Inv :
      {input : Bytes} {e e' : LineParse} (i : Inv s input e)
      → Absent s.delimiter i.rest
      → Waiting e e' i.rest
      → Inv s input e'
  waits-Inv i a w = record {
    settings = w.unchanged ∙ i.settings;
    records = i.records;
    rest = i.rest;
    cuts = i.cuts;
    framed = w.same_frames ∙ i.framed;
    scanned =
        subst (Scanned s.delimiter i.rest)
          (sym (w.next ∙ ap (λ (t : Settings). next_offset i.rest t.delimiter) i.settings))
          (Scanned-next_offset s.delimiter i.rest v.nonempty a);
  }

  -- The call at bytes `bytes`, which are what the invariant calls the rest.
  handle-Inv :
      {input : Bytes} {e : LineParse} (c : Call) (i : Inv s input e)
      → IsSmooth c i.rest
      → c.draining ≡ false
      → result (handle_frame find c e) ≡ ok tt
      → Inv s input (after (handle_frame find c e))
  handle-Inv {input} {e} c i smooth live fine =
      elim (occurrence_cases find laws i.rest e.settings.delimiter) [
        | inr (p, f) ↦ elim (dec_lt e.settings.max_record_size p) [
          | yes long ↦ absurd (
              cc (
                fine,
                (handle_frame_too_long find laws c e i.rest lookahead v' smooth known p f long).0,
              ))
          | no short ↦
              found-Inv p i (subst (λ (t : Settings). FirstAt t.delimiter i.rest p) i.settings f) (
                subst (λ t. Framed e (after (handle_frame find c e)) (frame_of t (take p i.rest)))
                  i.settings
                  (handle_frame_found find laws c e i.rest lookahead v' smooth known p f
                    (omega arith)).1)
        ]
        | inl a ↦ elim (dec_lt (length i.rest) lookahead) [
          | yes room ↦
              waits-Inv i (subst (λ (t : Settings). Absent t.delimiter i.rest) i.settings a)
                (handle_frame_waits find laws c e i.rest lookahead v' smooth known a live room).1
          | no full ↦ absurd (
              cc (
                fine,
                (handle_frame_exceeded find laws c e i.rest lookahead v' smooth known a live
                    (omega arith)).0,
              ))
        ]
      ]
    where
      v' : IsConfigured e.settings lookahead
      v' = subst (λ t. IsConfigured t lookahead) (sym i.settings) v

      known : Clear e.settings.delimiter i.rest e.scan_offset
      known =
          subst (λ (t : Settings). Clear t.delimiter i.rest e.scan_offset) (sym i.settings)
            i.scanned.0

  -- `start` leaves such an element.
  pub record IsFresh (e : LineParse) : Type 0 where
    pub same : e.settings ≡ s
    pub unscanned : e.scan_offset ≡ 0
    pub nothing : e.frames ≡ []

  module _ (e₀ : LineParse) (fresh : IsFresh e₀) where
    begin-Inv : Inv s [] e₀
    begin-Inv = record {
      settings = fresh.same;
      records = [];
      rest = [];
      cuts = uncut;
      framed = fresh.nothing;
      scanned = subst (Scanned s.delimiter []) (sym fresh.unscanned) (Scanned-zero s.delimiter []);
    }

    pub Reach-Inv : {input : Bytes} {e : LineParse} → Reach find e₀ input e → Inv s input e
    Reach-Inv begin = begin-Inv
    Reach-Inv (arrive chunk r) = arrive-Inv chunk (Reach-Inv r)
    Reach-Inv (handle c smooth live fine r) =
        let i = Reach-Inv r in
        handle-Inv c i (subst (IsSmooth c) (sym (Inv-pending i)) smooth) live fine

    -- However the stream is cut into chunks and whenever the handler is called, the frames that were
    -- handed on are the records of the stream, in order, with its delimiters removed and empty ones
    -- dropped if so configured, and what is left of the input follows the last of their delimiters.
    pub frames-Cuts :
        {input : Bytes} {e : LineParse}
        → Reach find e₀ input e
        → (rs : List Bytes) × Cuts s.delimiter input rs (pending input e)
          × (e.frames ≡ map (frame_of s) rs)
    frames-Cuts {input} r =
        let i = Reach-Inv r in
        (i.records, subst (Cuts s.delimiter input i.records) (Inv-pending i) i.cuts, i.framed)

    -- Two runs over the same input that leave no delimiter unread hand on the same frames, and hold
    -- back the same bytes, whatever the chunks and the successful calls before the end of the stream
    -- were.
    pub chunks_irrelevant :
        {input : Bytes} {e e' : LineParse}
        → Reach find e₀ input e
        → Absent s.delimiter (pending input e)
        → Reach find e₀ input e'
        → Absent s.delimiter (pending input e')
        → (e.frames ≡ e'.frames) × (pending input e ≡ pending input e')
    chunks_irrelevant {input} r a r' a' =
        let (rs, c, f) = frames-Cuts r in
        let (rs', c', f') = frames-Cuts r' in
        let same = Cuts-unique s.delimiter v.nonempty c a c' a' in
        let frames = f ∙ ap (map (frame_of s)) same ∙ sym f' in
        (frames, ap (λ fs. drop (total fs) input) frames)

    -- No byte is lost or made up: with its delimiters put back and the unread bytes behind them, the
    -- records are the input.
    pub input-joined :
        {input : Bytes} {e : LineParse}
        → Reach find e₀ input e
        → (rs : List Bytes) × (e.frames ≡ map (frame_of s) rs)
          × (input ≡ joined s.delimiter rs (pending input e))
    input-joined r = let (rs, c, f) = frames-Cuts r in (rs, f, Cuts-joined s.delimiter c)
