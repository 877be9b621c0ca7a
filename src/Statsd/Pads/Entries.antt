-- ===== src/Statsd/Pads/Entries.antt =====
-- Laws of the map of pads and of the shared statistics: utils/statsd/src/metrics.rs.
use gstsmith_rs.Prelude.{
  ℕ, zero, suc, ◌≡◌, ◌≢◌, refl, ap, ◌∙◌, false, none, some, List, [], ◌∷◌, length, get_elem?, set,
  length-set, arith, All, Bool-cases, inl, inr, ◌==◌, ==_iff, Option-cases,
}
use gstsmith_rs.Statsd.State.{PadStats, PadEntry, tracked, ignored, lookup, erase}
use gstsmith_rs.Statsd.Pads.{modify, active_pads}

-- No key has two entries.
abbrev pub Distinct {ℓ} : {V : Type ℓ} → List (ℕ × V) → Type ℓ
Distinct [] = Unit
Distinct (e ∷ es) = (lookup e.0 es ≡ none) × Distinct es

module _ {ℓ} {V : Type ℓ} where
  pub lookup-erase_self : (k : ℕ) (es : List (ℕ × V)) → lookup k (erase k es) ≡ none
  lookup-erase_self k [] = refl
  lookup-erase_self k (e ∷ es) =
      let ih = lookup-erase_self k es in
      elim (Bool-cases (k == e.0)) [ inl h ↦ rw h ih | inr h ↦ rw (h, h) ih ]

  pub lookup-erase : (j k : ℕ) (es : List (ℕ × V)) → j ≢ k → lookup j (erase k es) ≡ lookup j es
  lookup-erase j k [] n = refl
  lookup-erase j k (e ∷ es) n =
      let ih = lookup-erase j k es n in
      elim (Bool-cases (k == e.0)) [
        | inl h ↦ let q : (j == e.0) ≡ false = ground arith in rw (h, q) ih
        | inr h ↦ rw (h, ih) refl
      ]

  pub lookup-erase-none :
      (j k : ℕ) (es : List (ℕ × V)) → lookup j es ≡ none → lookup j (erase k es) ≡ none
  lookup-erase-none j k es h = elim (Bool-cases (j == k)) [
    | inl b ↦ let e : j ≡ k = (==_iff j k).0 b in rw e (lookup-erase_self k es)
    | inr b ↦ lookup-erase j k es (λ e. absurd (ground arith)) ∙ h
  ]

  pub erase-Distinct : (k : ℕ) (es : List (ℕ × V)) → Distinct es → Distinct (erase k es)
  erase-Distinct k [] d = tt
  erase-Distinct k (e ∷ es) d =
      let ih = erase-Distinct k es d.1 in
      elim (Bool-cases (k == e.0)) [
        | inl h ↦ rw h ih
        | inr h ↦ rw h (lookup-erase-none e.0 k es d.0, ih)
      ]

  pub erase_absent : (k : ℕ) (es : List (ℕ × V)) → lookup k es ≡ none → erase k es ≡ es
  erase_absent k [] h = refl
  erase_absent k (e ∷ es) h = elim (Bool-cases (k == e.0)) [
    | inl b ↦ absurd (ground arith)
    | inr b ↦ let q : lookup k es ≡ none = ground arith in rw (b, erase_absent k es q) refl
  ]

-- The statistics keep their places and identifiers.
pub record Kept (stats stats' : List PadStats) : Type 0 where
  pub as_many : length stats' ≡ length stats
  pub same_id :
      (i : ℕ) (s' : PadStats)
      → get_elem? stats' i ≡ some s'
      → (s : PadStats) × (get_elem? stats i ≡ some s) × (s'.id ≡ s.id)

pub Kept-self : (stats : List PadStats) → Kept stats stats
Kept-self stats = record { as_many = refl; same_id = λ i s h. (s, h, refl) }

pub Kept-trans : {a b c : List PadStats} → Kept a b → Kept b c → Kept a c
Kept-trans p q = record {
  as_many = q.as_many ∙ p.as_many;
  same_id = λ i s h.
      let (t, g, e) = q.same_id i s h in let (u, g', e') = p.same_id i t g in (u, g', e ∙ e');
}

set-same_id :
    (xs : List PadStats) (i : ℕ) (v v' : PadStats)
    → get_elem? xs i ≡ some v
    → v'.id ≡ v.id
    → (j : ℕ) (s : PadStats) → get_elem? (set xs i v') j ≡ some s
    → (t : PadStats) × (get_elem? xs j ≡ some t) × (s.id ≡ t.id)
set-same_id [] i v v' h e j s g = absurd (cc)
set-same_id (x ∷ xs) zero v v' h e zero s g = (x, refl, cc)
set-same_id (x ∷ xs) zero v v' h e (suc j) s g = (s, g, refl)
set-same_id (x ∷ xs) (suc i) v v' h e zero s g = (s, g, refl)
set-same_id (x ∷ xs) (suc i) v v' h e (suc j) s g = set-same_id xs i v v' h e j s g

pub modify-Kept :
    (arc : ℕ) (f : PadStats → PadStats) (stats : List PadStats)
    → ((s : PadStats) → (f s).id ≡ s.id)
    → Kept stats (modify arc f stats)
unfolding modify
modify-Kept arc f stats h = elim (Option-cases (get_elem? stats arc)) [
  | inl e ↦ rw (modify, e) (Kept-self stats)
  | inr (s, e) ↦
      rw (modify, e)
        record {
          as_many = length-set stats arc (f s);
          same_id = set-same_id stats arc s (f s) e (h s);
        }
]

-- How many of the pads are tracked after one was removed.
pub length-active_pads-erase :
    (k : ℕ) (es : List (ℕ × PadEntry)) (arc : ℕ)
    → Distinct es
    → lookup k es ≡ some (tracked arc)
    → suc (length (active_pads (erase k es))) ≡ length (active_pads es)
unfolding active_pads
length-active_pads-erase k [] arc d h = absurd (cc)
length-active_pads-erase k ((j, tracked a) ∷ es) arc d h = elim (Bool-cases (k == j)) [
  | inl b ↦
      let e : k ≡ j = (==_iff k j).0 b in
      let q : lookup k es ≡ none = rw e d.0 in rw (b, erase_absent k es q) refl
  | inr b ↦
      let q : lookup k es ≡ some (tracked arc) = ground arith in
      rw b (ap suc (length-active_pads-erase k es arc d.1 q))
]
length-active_pads-erase k ((j, ignored r) ∷ es) arc d h = elim (Bool-cases (k == j)) [
  | inl b ↦ absurd (ground arith)
  | inr b ↦
      let q : lookup k es ≡ some (tracked arc) = ground arith in
      rw b (length-active_pads-erase k es arc d.1 q)
]

pub length-active_pads-erase_ignored :
    (k : ℕ) (es : List (ℕ × PadEntry))
    → Distinct es
    → ((arc : ℕ) → lookup k es ≢ some (tracked arc))
    → length (active_pads (erase k es)) ≡ length (active_pads es)
unfolding active_pads
length-active_pads-erase_ignored k [] d h = refl
length-active_pads-erase_ignored k ((j, tracked a) ∷ es) d h = elim (Bool-cases (k == j)) [
  | inl b ↦ absurd (h a (rw b refl))
  | inr b ↦
      let ih = length-active_pads-erase_ignored k es d.1 (λ arc g. h arc (rw b g)) in
      rw b (ap suc ih)
]
length-active_pads-erase_ignored k ((j, ignored r) ∷ es) d h = elim (Bool-cases (k == j)) [
  | inl b ↦
      let e : k ≡ j = (==_iff k j).0 b in
      let q : lookup k es ≡ none = rw e d.0 in rw (b, erase_absent k es q) refl
  | inr b ↦ rw b (length-active_pads-erase_ignored k es d.1 (λ arc g. h arc (rw b g)))
]

-- What holds of every tracked pad's statistics holds after a removal.
pub All-active_pads-erase {κ} :
    (P : ℕ → Type κ) (k : ℕ) (es : List (ℕ × PadEntry))
    → All P (active_pads es)
    → All P (active_pads (erase k es))
unfolding active_pads
All-active_pads-erase P k [] h = tt
All-active_pads-erase P k ((j, tracked a) ∷ es) h = elim (Bool-cases (k == j)) [
  | inl b ↦ rw b (All-active_pads-erase P k es h.1)
  | inr b ↦ rw b (h.0, All-active_pads-erase P k es h.1)
]
All-active_pads-erase P k ((j, ignored r) ∷ es) h = elim (Bool-cases (k == j)) [
  | inl b ↦ rw b (All-active_pads-erase P k es h)
  | inr b ↦ rw b (All-active_pads-erase P k es h)
]
