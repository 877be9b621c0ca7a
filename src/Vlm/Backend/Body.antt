-- ===== src/Vlm/Backend/Body.antt =====
-- The bound on the body of an answer: analytics/vlm/src/backend/openai_chat.rs, `bounded_body`, and
-- what a result of `generate` implies.
use gstsmith_rs.Prelude.{
  ◌≤◌, ◌≡◌, ◌↔◌, inl, inr, refl, sym, Option, none, some, List, [], ◌∷◌, ◌++◌, ltb, length,
  length-append, Bool-cases, ok, arith,
}
use gstsmith_rs.Vlm.Sampler.{Bytes}
use gstsmith_rs.Vlm.Backend.Answer.{max_response_bytes, saturating_add, read_chunks, bounded_body}

-- The chunks together, if none is an error.
abbrev pub whole : List (Option Bytes) → Bytes → Option Bytes
whole [] body = some body
whole (none ∷ chunks) body = none
whole (some chunk ∷ chunks) body = whole chunks (body ++ chunk)

whole-grows :
    (chunks : List (Option Bytes)) (body b : Bytes)
    → whole chunks body ≡ some b
    → length body ≤ length b
whole-grows [] body b h = let e : body ≡ b = cc in rw e (omega arith)
whole-grows (none ∷ chunks) body b h = absurd (cc)
whole-grows (some chunk ∷ chunks) body b h =
    let rest = whole-grows chunks (body ++ chunk) b h in omega (arith, length-append body chunk)

read_chunks-ok :
    (chunks : List (Option Bytes)) (body b : Bytes)
    → length body ≤ max_response_bytes
    → (read_chunks chunks body ≡ ok b)
      ↔ ((whole chunks body ≡ some b) × (length b ≤ max_response_bytes))
unfolding read_chunks
read_chunks-ok [] body b h = (
  λ e. let q : body ≡ b = cc in (rw q refl, rw (sym q) h),
  λ p. let w = p.0 in let q : body ≡ b = cc in rw q refl,
)
read_chunks-ok (none ∷ chunks) body b h = (λ e. absurd (cc), λ p. let w = p.0 in absurd (cc))
read_chunks-ok (some chunk ∷ chunks) body b h =
    let joined = length-append body chunk in
    elim (Bool-cases (ltb max_response_bytes (saturating_add (length body) (length chunk)))) [
      | inl e ↦ rw e (
        λ k. absurd (cc),
        λ p.
            let grown = whole-grows chunks (body ++ chunk) b p.0 in
            let bound = p.1 in absurd (ground arith),
      )
      | inr e ↦ rw (read_chunks, e) (read_chunks-ok chunks (body ++ chunk) b (ground arith))
    ]

-- Of any stream of chunks: a body is returned exactly where no chunk is an error and all of them
-- together have at most 1 MiB, and it is what the chunks hold.
pub bounded_body-ok :
    (chunks : List (Option Bytes)) (b : Bytes)
    → (bounded_body chunks ≡ ok b) ↔ ((whole chunks [] ≡ some b) × (length b ≤ max_response_bytes))
unfolding bounded_body
bounded_body-ok chunks b = read_chunks-ok chunks [] b (omega arith)
