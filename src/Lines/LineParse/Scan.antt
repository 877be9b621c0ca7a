-- ===== src/Lines/LineParse/Scan.antt =====
-- text/lines/src/lineparse/imp.rs: the search of `frame_action`, which starts at the remembered
-- scan offset, against a search of all the buffered bytes.
use gstsmith_rs.Prelude.{
  ℕ, suc, ◌+◌, ◌≤◌, ◌<◌, min, ◌≡◌, refl, sym, ap, ◌∙◌, ◌⊎◌, inl, inr, true, ◌++◌, none, some, arith,
  length, drop, Option-cases, length-append,
}
use gstsmith_rs.Lines.Delimiter.{
  Bytes, Clear, Absent, FirstAt, Find, MemmemLaws, Clear-append, FirstAt-unique, Absent-FirstAt,
  starts_with-drop-drop, Clear-past,
}
use gstsmith_rs.Lines.LineParse.{
  Settings, Call, find_delimiter, frame_action, found_action, missing_action, next_offset,
}

-- What the element knows of the buffered bytes: no delimiter starts before the scan offset, and one
-- that would has its last byte in the buffer already.
abbrev pub Scanned : Bytes → Bytes → ℕ → Type 0
Scanned d bytes offset =
    Clear d bytes offset × ((offset ≡ 0) ⊎ (offset + length d ≤ suc (length bytes)))

-- More input leaves it true.
pub Scanned-append :
    (d bytes more : Bytes) (offset : ℕ) → Scanned d bytes offset → Scanned d (bytes ++ more) offset
Scanned-append d bytes more offset (c, inl z) = (Clear-append d bytes more offset c (inl z), inl z)
Scanned-append d bytes more offset (c, inr b) =
    (Clear-append d bytes more offset c (inr b), inr (omega (arith, length-append bytes more)))

pub Scanned-zero : (d bytes : Bytes) → Scanned d bytes 0
Scanned-zero d bytes = ((λ q h. absurd (omega arith)), inl refl)

-- The offset that a search without a result leaves.
pub Scanned-next_offset :
    (d bytes : Bytes) → 0 < length d → Absent d bytes → Scanned d bytes (next_offset bytes d)
Scanned-next_offset d bytes h a = ((λ q _. a q), bound)
  where
    bound : (next_offset bytes d ≡ 0) ⊎ (next_offset bytes d + length d ≤ suc (length bytes))
    bound = grind arith

module _ (find : Find) (laws : MemmemLaws find) (bytes d : Bytes) where
  -- With nothing before the offset, the search from there finds the first occurrence of all.
  pub find_delimiter-FirstAt :
      (offset p : ℕ)
      → Clear d bytes offset
      → find_delimiter find bytes d offset ≡ some p
      → FirstAt d bytes p
  unfolding find_delimiter
  find_delimiter-FirstAt offset p c e =
      let m : ℕ = min offset (length bytes) in
      elim (Option-cases (find (drop m bytes) d)) [
        | inl n ↦ absurd (cc (rw (n, find_delimiter) at e))
        | inr (r, s) ↦
            let f = laws.found (drop m bytes) d r s in
            let same : p ≡ m + r = ground arith in
            rw same (
              sym (starts_with-drop-drop d bytes m r) ∙ f.0,
              Clear-past d bytes m r (λ q h. c q (omega arith)) f.1,
            )
      ]

  pub find_delimiter-Absent :
      (offset : ℕ)
      → Clear d bytes offset
      → find_delimiter find bytes d offset ≡ none
      → Absent d bytes
  unfolding find_delimiter
  find_delimiter-Absent offset c e q =
      let m : ℕ = min offset (length bytes) in
      let nothing : find (drop m bytes) d ≡ none = ground arith in
      Clear-past d bytes m (suc q) (λ k h. c k (omega arith))
        (λ k _. laws.missing (drop m bytes) d nothing k) q (omega arith)

  pub find_delimiter-none :
      (offset : ℕ)
      → Clear d bytes offset
      → Absent d bytes
      → find_delimiter find bytes d offset ≡ none
  find_delimiter-none offset c a = elim (Option-cases (find_delimiter find bytes d offset)) [
    | inl n ↦ n
    | inr (p, s) ↦ absurd (Absent-FirstAt d bytes p a (find_delimiter-FirstAt offset p c s))
  ]

  pub find_delimiter-some :
      (offset p : ℕ)
      → Clear d bytes offset
      → FirstAt d bytes p
      → find_delimiter find bytes d offset ≡ some p
  find_delimiter-some offset p c f = elim (Option-cases (find_delimiter find bytes d offset)) [
    | inl n ↦ absurd (Absent-FirstAt d bytes p (find_delimiter-Absent offset c n) f)
    | inr (q, s) ↦ s ∙ ap some (FirstAt-unique d bytes q p (find_delimiter-FirstAt offset q c s) f)
  ]

  -- Bytes without an occurrence, or a first occurrence.
  pub occurrence_cases : Absent d bytes ⊎ ((p : ℕ) × FirstAt d bytes p)
  occurrence_cases = elim (Option-cases (find_delimiter find bytes d 0)) [
    | inl n ↦ inl (find_delimiter-Absent 0 (Scanned-zero d bytes).0 n)
    | inr (p, s) ↦ inr (p, find_delimiter-FirstAt 0 p (Scanned-zero d bytes).0 s)
  ]

  -- If no delimiter starts before the scan offset, the search from the offset gives what a search
  -- of all the bytes gives, found or not.
  pub find_delimiter_incremental :
      (offset : ℕ)
      → Clear d bytes offset
      → find_delimiter find bytes d offset ≡ find_delimiter find bytes d 0
  find_delimiter_incremental offset c = elim occurrence_cases [
    | inl a ↦
        find_delimiter-none offset c a ∙ sym (find_delimiter-none 0 (Scanned-zero d bytes).0 a)
    | inr (p, f) ↦
        find_delimiter-some offset p c f ∙ sym (find_delimiter-some 0 p (Scanned-zero d bytes).0 f)
  ]

module _ (find : Find) (laws : MemmemLaws find) (c : Call) (s : Settings) (bytes : Bytes) where
  Clear-min :
      (offset : ℕ)
      → Clear s.delimiter bytes offset
      → Clear s.delimiter bytes (min offset (length bytes))
  Clear-min offset k q h = k q (omega arith)

  -- `frame_action` on buffered bytes in which the delimiter occurs, whatever was scanned before.
  pub frame_action_found :
      (max_record_size lookahead offset p : ℕ)
      → c.buffer ≡ some bytes
      → c.readable ≡ true
      → Clear s.delimiter bytes offset
      → FirstAt s.delimiter bytes p
      → frame_action find c s max_record_size lookahead offset
        ≡ (found_action s max_record_size bytes p, offset)
  unfolding frame_action
  frame_action_found max_record_size lookahead offset p b r k f = ground (
    arith,
    find_delimiter-some find laws bytes s.delimiter (min offset (length bytes)) p
        (Clear-min offset k) f,
  )

  -- And on buffered bytes in which it does not.
  pub frame_action_missing :
      (max_record_size lookahead offset : ℕ)
      → c.buffer ≡ some bytes
      → c.readable ≡ true
      → Clear s.delimiter bytes offset
      → Absent s.delimiter bytes
      → frame_action find c s max_record_size lookahead offset
        ≡ (missing_action c.draining max_record_size lookahead bytes, next_offset bytes s.delimiter)
  unfolding frame_action
  frame_action_missing max_record_size lookahead offset b r k a = ground (
    arith,
    find_delimiter-none find laws bytes s.delimiter (min offset (length bytes)) (Clear-min offset k)
        a,
  )
