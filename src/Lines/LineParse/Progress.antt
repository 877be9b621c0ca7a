-- ===== src/Lines/LineParse/Progress.antt =====
-- text/lines/src/lineparse/imp.rs: what a call that succeeds hands on or asks for.
use native.Mathlib.Decide.{dec_lt}
use gstsmith_rs.Prelude.{
  ℕ, ◌+◌, ◌≤◌, ◌<◌, ◌≡◌, ◌⊎◌, inl, inr, true, false, ok, ◌++◌, ◌∷◌, [], arith, length, take,
  length-take,
}
use gstsmith_rs.Lines.Delimiter.{Bytes, Clear, Find, MemmemLaws, Occurs-bound}
use gstsmith_rs.Lines.LineParse.{LineParse, Call, Frame, handle_frame}
use gstsmith_rs.Lines.LineParse.Scan.{occurrence_cases}
use gstsmith_rs.Lines.LineParse.Calls.{
  IsConfigured, IsSmooth, frame_of, Framed, after, result, handle_frame_found,
  handle_frame_too_long, handle_frame_waits, handle_frame_exceeded, handle_frame_drained,
  handle_frame_unterminated,
}

-- One frame more, which takes some of the buffered bytes.
abbrev pub Hands : LineParse → LineParse → Bytes → Type 0
Hands e e' bytes =
    (f : Frame) × (e'.frames ≡ e.frames ++ f ∷ []) × (0 < f.consumed) × (f.consumed ≤ length bytes)

-- No frame, and a call only with more bytes than were buffered, but no more than a record and its
-- delimiter may have.
abbrev pub Asks : LineParse → LineParse → Bytes → ℕ → Type 0
Asks e e' bytes lookahead =
    (e'.frames ≡ e.frames) × (length bytes < e'.min_frame_size) × (e'.min_frame_size ≤ lookahead)

module _ (find : Find) (laws : MemmemLaws find) (c : Call) (e : LineParse) (bytes : Bytes)
    (lookahead : ℕ) (v : IsConfigured e.settings lookahead) (smooth : IsSmooth c bytes)
    (scanned : Clear e.settings.delimiter bytes e.scan_offset) where
  found-Hands :
      (p : ℕ) (e' : LineParse)
      → p + length e.settings.delimiter ≤ length bytes
      → Framed e e' (frame_of e.settings (take p bytes))
      → Hands e e' bytes
  unfolding frame_of
  found-Hands p e' h g = (
    frame_of e.settings (take p bytes),
    g.frames,
    omega (arith, v.nonempty),
    omega (arith, length-take p bytes),
  )

  -- Before the end of the stream, where GStreamer refuses nothing and no delimiter starts before the
  -- scan offset, a call that succeeds hands on one frame, which takes at least one byte of the
  -- buffer, or hands on none and asks for more bytes than are buffered, but no more than
  -- `lookahead`; so with `lookahead` bytes in the buffer it hands on a frame.
  pub handle_frame_progress :
      c.draining ≡ false
      → result (handle_frame find c e) ≡ ok tt
      → let e' = after (handle_frame find c e) in Hands e e' bytes ⊎ Asks e e' bytes lookahead
  handle_frame_progress live fine = elim (occurrence_cases find laws bytes e.settings.delimiter) [
    | inr (p, f) ↦ elim (dec_lt e.settings.max_record_size p) [
      | yes long ↦ absurd (
          cc (
            fine,
            (handle_frame_too_long find laws c e bytes lookahead v smooth scanned p f long).0,
          ))
      | no short ↦ inl (
          found-Hands p _ (Occurs-bound e.settings.delimiter bytes p v.nonempty f.0)
            (handle_frame_found find laws c e bytes lookahead v smooth scanned p f (omega arith)).1)
    ]
    | inl a ↦ elim (dec_lt (length bytes) lookahead) [
      | yes room ↦
          let w =
            (handle_frame_waits find laws c e bytes lookahead v smooth scanned a live room).1 in
          inr (w.same_frames, omega (arith, w.wants), omega (arith, w.wants))
      | no full ↦ absurd (
          cc (
            fine,
            (handle_frame_exceeded find laws c e bytes lookahead v smooth scanned a live
                (omega arith)).0,
          ))
    ]
  ]

  -- At the end of the stream, a call with bytes left that succeeds hands on a frame: draining ends.
  pub handle_frame_drains :
      c.draining ≡ true
      → 0 < length bytes
      → result (handle_frame find c e) ≡ ok tt
      → Hands e (after (handle_frame find c e)) bytes
  handle_frame_drains drains left fine =
      elim (occurrence_cases find laws bytes e.settings.delimiter) [
        | inr (p, f) ↦ elim (dec_lt e.settings.max_record_size p) [
          | yes long ↦ absurd (
              cc (
                fine,
                (handle_frame_too_long find laws c e bytes lookahead v smooth scanned p f long).0,
              ))
          | no short ↦
              found-Hands p _ (Occurs-bound e.settings.delimiter bytes p v.nonempty f.0)
                (handle_frame_found find laws c e bytes lookahead v smooth scanned p f
                  (omega arith)).1
        ]
        | inl a ↦ elim (dec_lt e.settings.max_record_size (length bytes)) [
          | yes long ↦ absurd (
              cc (
                fine,
                (handle_frame_unterminated find laws c e bytes lookahead v smooth scanned a drains
                    long).0,
              ))
          | no short ↦
              let g =
                (handle_frame_drained find laws c e bytes lookahead v smooth scanned a drains left
                  (omega arith)).1 in
              (_, g.frames, left, omega arith)
        ]
      ]
