-- ===== src/Statsd/Pipelines/Snapshots.antt =====
-- What the snapshots of the pipelines report: utils/statsd/src/metrics.rs.
use gstsmith_rs.Prelude.{
  ℕ, Bool, true, false, Option, none, some, List, [], ◌∷◌, ◌≡◌, refl, ap, sym, ◌∙◌, ◌==◌, ==_self,
  ==_iff, if◌then◌else◌, Bool-cases, inl, inr, Option-cases, is_some, ◌&&◌, not, arith,
}
use gstsmith_rs.Statsd.Tags.{sanitize_tag_value}
use gstsmith_rs.Statsd.State.{PipelineEntry, Metrics, included, lookup, erase}
use gstsmith_rs.Statsd.Pads.Entries.{Distinct, lookup-erase_self, lookup-erase, lookup-erase-none}
use gstsmith_rs.Statsd.Pipelines.{
  Pipeline, or_insert, track_pipeline, set_pipeline_state, take_snapshots, erase_all,
  pipeline_snapshots,
}

-- An entry that saw a transition, and whose pipeline is gone.
abbrev pub is_stale : (ℕ → Option ℕ) → PipelineEntry → Bool
is_stale upgrade e = e.observed_transition && not (is_some (upgrade e.pipeline))

-- The second part of `take_snapshots`, on its own.
abbrev pub stale_keys : (ℕ → Option ℕ) → List (ℕ × PipelineEntry) → List ℕ
stale_keys upgrade [] = []
stale_keys upgrade (e ∷ es) =
    let rest = stale_keys upgrade es in if is_stale upgrade e.1 then e.0 ∷ rest else rest

take_snapshots-stale_keys :
    (upgrade : ℕ → Option ℕ) (es : List (ℕ × PipelineEntry))
    → (take_snapshots upgrade es).1 ≡ stale_keys upgrade es
unfolding take_snapshots
take_snapshots-stale_keys upgrade [] = refl
take_snapshots-stale_keys upgrade ((k, e) ∷ es) =
    let ih = take_snapshots-stale_keys upgrade es in
    elim (Bool-cases e.observed_transition) [
      | inr o ↦ rw o ih
      | inl o ↦ elim (Option-cases (upgrade e.pipeline)) [
        | inl u ↦ rw (o, u) (ap (◌∷◌ k) ih)
        | inr (s, u) ↦ rw (o, u) ih
      ]
    ]

abbrev pub has_key : ℕ → List ℕ → Bool
has_key k [] = false
has_key k (j ∷ js) = let rest = has_key k js in if k == j then true else rest

lookup-erase_all-none :
    {V : Type 0} (k : ℕ) (ks : List ℕ) (es : List (ℕ × V))
    → lookup k es ≡ none
    → lookup k (erase_all ks es) ≡ none
lookup-erase_all-none k [] es h = h
lookup-erase_all-none k (j ∷ js) es h =
    lookup-erase_all-none k js (erase j es) (lookup-erase-none k j es h)

lookup-erase_all :
    {V : Type 0} (k : ℕ) (ks : List ℕ) (es : List (ℕ × V))
    → lookup k (erase_all ks es) ≡ (if has_key k ks then none else lookup k es)
lookup-erase_all k [] es = refl
lookup-erase_all k (j ∷ js) es = elim (Bool-cases (k == j)) [
  | inl b ↦
      let e : k ≡ j = (==_iff k j).0 b in
      rw (b) (
        lookup-erase_all-none k js (erase j es)
          (ap (λ i. lookup k (erase i es)) (sym e) ∙ lookup-erase_self k es))
  | inr b ↦
      let n = lookup-erase k j es (λ e. absurd (ground arith)) in
      rw (b) (lookup-erase_all k js (erase j es) ∙ ap (λ l. if has_key k js then none else l) n)
]

no_key :
    (upgrade : ℕ → Option ℕ) (k : ℕ) (es : List (ℕ × PipelineEntry))
    → lookup k es ≡ none
    → has_key k (stale_keys upgrade es) ≡ false
no_key upgrade k [] h = refl
no_key upgrade k ((j, e) ∷ es) h = elim (Bool-cases (k == j)) [
  | inl b ↦ absurd (ground arith)
  | inr b ↦
      let q : lookup k es ≡ none = ground arith in
      let ih = no_key upgrade k es q in
      elim (Bool-cases (is_stale upgrade e)) [ inl s ↦ rw (s, b) ih | inr s ↦ rw s ih ]
]

has_key-stale_keys :
    (upgrade : ℕ → Option ℕ) (k : ℕ) (e : PipelineEntry) (es : List (ℕ × PipelineEntry))
    → Distinct es
    → lookup k es ≡ some e
    → has_key k (stale_keys upgrade es) ≡ is_stale upgrade e
has_key-stale_keys upgrade k e [] d h = absurd (cc)
has_key-stale_keys upgrade k e ((j, f) ∷ es) d h = elim (Bool-cases (k == j)) [
  | inl b ↦
      let same : f ≡ e = ground arith in
      let at : k ≡ j = (==_iff k j).0 b in
      let q : lookup k es ≡ none = rw at d.0 in
      elim (Bool-cases (is_stale upgrade f)) [
        | inl s ↦ rw (s, b) (sym s ∙ ap (is_stale upgrade) same)
        | inr s ↦ rw s (no_key upgrade k es q ∙ sym s ∙ ap (is_stale upgrade) same)
      ]
  | inr b ↦
      let q : lookup k es ≡ some e = ground arith in
      let ih = has_key-stale_keys upgrade k e es d.1 q in
      elim (Bool-cases (is_stale upgrade f)) [ inl s ↦ rw (s, b) ih | inr s ↦ rw s ih ]
]

-- Taking snapshots forgets exactly the pipelines that saw a transition and are gone: any other
-- entry stays as it is.
pub lookup-pipeline_snapshots :
    (upgrade : ℕ → Option ℕ) (m : Metrics) (k : ℕ) (e : PipelineEntry)
    → Distinct m.pipelines
    → lookup k m.pipelines ≡ some e
    → lookup k (pipeline_snapshots upgrade m).1.pipelines
      ≡ (if is_stale upgrade e then none else some e)
unfolding pipeline_snapshots
lookup-pipeline_snapshots upgrade m k e d h =
    ap (λ ks. lookup k (erase_all ks m.pipelines)) (take_snapshots-stale_keys upgrade m.pipelines)
    ∙ lookup-erase_all k (stale_keys upgrade m.pipelines) m.pipelines
    ∙ ap (λ b. if b then none else lookup k m.pipelines)
        (has_key-stale_keys upgrade k e m.pipelines d h)
    ∙ ap (λ l. if is_stale upgrade e then none else l) h

-- A pipeline is not reported before it changes its state: tracking one that has no entry or one
-- that has leaves the reports as they are.
pub pipeline_snapshots-track_pipeline :
    (upgrade : ℕ → Option ℕ) (p : Pipeline) (m : Metrics)
    → (pipeline_snapshots upgrade (track_pipeline p m)).0 ≡ (pipeline_snapshots upgrade m).0
unfolding pipeline_snapshots track_pipeline take_snapshots
pipeline_snapshots-track_pipeline upgrade p m = elim (Bool-cases (included m p.name)) [
  | inr i ↦ rw i refl
  | inl i ↦ elim (Option-cases (lookup p.key m.pipelines)) [
    | inl e ↦ rw (i, or_insert, e) refl
    | inr (old, e) ↦ rw (i, or_insert, e) refl
  ]
]

-- A pipeline without an entry that the filters let through is reported first, with its sanitized
-- name and the state that it has then, once it has changed its state, and nothing else changes.
pub pipeline_snapshots-set_pipeline_state :
    (upgrade : ℕ → Option ℕ) (p : Pipeline) (m : Metrics) (state : ℕ)
    → included m p.name ≡ true
    → lookup p.key m.pipelines ≡ none
    → upgrade p.weak ≡ some state
    → (pipeline_snapshots upgrade (set_pipeline_state p m)).0
      ≡ record { pipeline = sanitize_tag_value p.name; state = state }
        ∷ (pipeline_snapshots upgrade m).0
unfolding pipeline_snapshots set_pipeline_state track_pipeline take_snapshots
pipeline_snapshots-set_pipeline_state upgrade p m state i e u =
    rw (i, or_insert, e, ==_self p.key, u) refl
