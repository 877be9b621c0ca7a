-- ===== src/Statsd/Pads/Places.antt =====
-- Where the statistics of every series are: utils/statsd/src/metrics.rs.
use gstsmith_rs.Prelude.{
  ℕ, ◌+◌, ◌<◌, ◌≡◌, ◌≢◌, refl, sym, ap, subst, ◌∙◌, Bool, true, false, ◌&&◌, Option, none, some,
  List, [], ◌∷◌, ◌++◌, length, length-append, arith, ltb, leb, Bool-cases, inl, inr, Option-cases,
  Text, ◌==◌, ==_iff, u64_mod,
}
use gstsmith_rs.Statsd.State.{
  PadEntry, tracked, ignored, filtered, series_limit, series_id_overflow, Metrics, Element, Pad,
  new, lookup, erase,
}
use gstsmith_rs.Statsd.Pads.{
  increment_entry, add_entry, new_stats, register, retire, release, remove_pad_key,
  reset_pad_interval, reset_interval, reset_element_intervals, active_pads,
}
use gstsmith_rs.Statsd.Pads.Entries.{Distinct, erase_absent}
use gstsmith_rs.Statsd.Pads.Valid.{IsValid}
use gstsmith_rs.Statsd.Pads.Valid.Removal.{reset_entries-Kept}
use gstsmith_rs.Statsd.Pads.Steps.{
  Step, counted, registered, removed, pad_reset, element_reset, received, elsewhere, disconnected,
  Reach, begun, after, Accounted, length-modify, Reach-IsValid, Reach-Accounted,
}

abbrev pub bit : Bool → ℕ
bit true = 1
bit false = 0

-- How often a number is in a list.
abbrev pub occurrences : ℕ → List ℕ → ℕ
occurrences a [] = 0
occurrences a (x ∷ xs) = bit (a == x) + occurrences a xs

occurrences-append :
    (a : ℕ) (xs ys : List ℕ) → occurrences a (xs ++ ys) ≡ occurrences a xs + occurrences a ys
occurrences-append a [] ys = omega arith
occurrences-append a (x ∷ xs) ys = omega (arith, occurrences-append a xs ys)

-- A removal takes the pad's statistics out of the tracked ones, once.
occurrences-erase :
    (a k : ℕ) (es : List (ℕ × PadEntry)) (arc : ℕ)
    → Distinct es
    → lookup k es ≡ some (tracked arc)
    → occurrences a (active_pads es) ≡ bit (a == arc) + occurrences a (active_pads (erase k es))
unfolding active_pads
occurrences-erase a k [] arc d h = absurd (cc)
occurrences-erase a k ((j, tracked b) ∷ es) arc d h = elim (Bool-cases (k == j)) [
  | inl e ↦
      let p : k ≡ j = (==_iff k j).0 e in
      let q : lookup k es ≡ none = rw p d.0 in
      let same : b ≡ arc = ground arith in rw (e, erase_absent k es q, same) refl
  | inr e ↦
      let q : lookup k es ≡ some (tracked arc) = ground arith in
      let ih = occurrences-erase a k es arc d.1 q in rw e (omega (arith, ih))
]
occurrences-erase a k ((j, ignored r) ∷ es) arc d h = elim (Bool-cases (k == j)) [
  | inl e ↦ absurd (ground arith)
  | inr e ↦
      let q : lookup k es ≡ some (tracked arc) = ground arith in
      rw e (occurrences-erase a k es arc d.1 q)
]

occurrences-erase_untracked :
    (a k : ℕ) (es : List (ℕ × PadEntry))
    → ((arc : ℕ) → lookup k es ≢ some (tracked arc))
    → Distinct es
    → occurrences a (active_pads (erase k es)) ≡ occurrences a (active_pads es)
unfolding active_pads
occurrences-erase_untracked a k [] n d = refl
occurrences-erase_untracked a k ((j, tracked b) ∷ es) n d = elim (Bool-cases (k == j)) [
  | inl e ↦ absurd (n b (rw e refl))
  | inr e ↦
      let ih = occurrences-erase_untracked a k es (λ arc g. n arc (rw e g)) d.1 in rw (e, ih) refl
]
occurrences-erase_untracked a k ((j, ignored r) ∷ es) n d = elim (Bool-cases (k == j)) [
  | inl e ↦
      let p : k ≡ j = (==_iff k j).0 e in
      let q : lookup k es ≡ none = rw p d.0 in rw (e, erase_absent k es q) refl
  | inr e ↦ rw e (occurrences-erase_untracked a k es (λ arc g. n arc (rw e g)) d.1)
]

-- Every series that was made is in one place: tracked, waiting in the channel, taken or dropped.
pub record Placed (m : Metrics) (taken dropped : List ℕ) : Type 0 where
  pub counted_dropped : length dropped ≡ m.dropped_retirements
  pub once :
      (arc : ℕ)
      → occurrences arc (active_pads m.pads)
          + occurrences arc m.retirement
          + occurrences arc taken
          + occurrences arc dropped
        ≡ bit (ltb arc (length m.stats))

-- An operation that leaves the map, the channel and the number of statistics.
same_places :
    (m m' : Metrics) (taken dropped : List ℕ)
    → m'.pads ≡ m.pads
    → m'.retirement ≡ m.retirement
    → m'.dropped_retirements ≡ m.dropped_retirements
    → length m'.stats ≡ length m.stats
    → Placed m taken dropped
    → Placed m' taken dropped
same_places m m' taken dropped p r d n h = record {
  counted_dropped = h.counted_dropped ∙ sym d;
  once = λ a.
      let e : occurrences a (active_pads m'.pads) ≡ occurrences a (active_pads m.pads) =
        ap (λ es. occurrences a (active_pads es)) p in
      let f : occurrences a m'.retirement ≡ occurrences a m.retirement = ap (occurrences a) r in
      let g : bit (ltb a (length m'.stats)) ≡ bit (ltb a (length m.stats)) =
        ap (λ k. bit (ltb a k)) n in
      let o = h.once a in omega arith;
}

increment_entry-Placed :
    (entry : PadEntry) (b y t : ℕ) (m : Metrics) (taken dropped : List ℕ)
    → Placed m taken dropped
    → Placed (increment_entry entry b y t m) taken dropped
unfolding increment_entry
increment_entry-Placed (tracked arc) b y t m taken dropped h =
    same_places m _ taken dropped refl refl refl (length-modify arc _ m.stats) h
increment_entry-Placed (ignored series_limit) b y t m taken dropped h =
    same_places m _ taken dropped refl refl refl refl h
increment_entry-Placed (ignored series_id_overflow) b y t m taken dropped h =
    same_places m _ taken dropped refl refl refl refl h
increment_entry-Placed (ignored filtered) b y t m taken dropped h = h

-- The statistics that a registration makes have the next place.
bit-suc : (a n : ℕ) → bit (ltb a (n + 1)) ≡ bit (a == n) + bit (ltb a n)
bit-suc a n = ground arith

add_entry-Placed :
    (key : ℕ) (i : Bool) (element pad : Text) (owner : ℕ) (m : Metrics) (taken dropped : List ℕ)
    → Placed m taken dropped
    → Placed (add_entry key i element pad owner m).1 taken dropped
unfolding add_entry active_pads
add_entry-Placed key false element pad owner m taken dropped h = record {
  counted_dropped = h.counted_dropped;
  once = h.once;
}
add_entry-Placed key true element pad owner m taken dropped h =
    elim (Bool-cases (leb m.max_pad_series m.registration.active)) [
      | inl b ↦ rw b (record { counted_dropped = h.counted_dropped; once = h.once })
      | inr b ↦ elim (Bool-cases (ltb (m.registration.next_id + 1) u64_mod)) [
        | inr c ↦ rw (b, c) (record { counted_dropped = h.counted_dropped; once = h.once })
        | inl c ↦
            rw (b, c)
              (record {
                counted_dropped = h.counted_dropped;
                once = λ a.
                    let l =
                      length-append m.stats (
                        new_stats m.track_intervals m.registration.next_id element pad owner
                        ∷ []) in
                    let e = ap (λ k. bit (ltb a k)) l in
                    let s = bit-suc a (length m.stats) in let o = h.once a in omega arith;
              })
      ]
    ]

register-Placed :
    (key : ℕ) (i : Bool) (element pad : Text) (owner b y t : ℕ) (m : Metrics)
    (taken dropped : List ℕ)
    → Placed m taken dropped
    → Placed (register key i element pad owner b y t m) taken dropped
unfolding register
register-Placed key i element pad owner b y t m taken dropped h =
    elim (Option-cases (lookup key m.pads)) [
      | inl e ↦
          rw (register, e)
            (increment_entry-Placed _ b y t _ taken dropped
              (add_entry-Placed key i element pad owner m taken dropped h))
      | inr (entry, e) ↦ rw (register, e) (increment_entry-Placed entry b y t m taken dropped h)
    ]

-- There are lists of the series that were taken, of the given length, and of those that were dropped.
abbrev pub Kept : Metrics → ℕ → Type 0
Kept m n = (taken : List ℕ) × (dropped : List ℕ) × (length taken ≡ n) × Placed m taken dropped

retire-Kept :
    (arc : ℕ) (m m₀ : Metrics) (taken dropped : List ℕ)
    → length dropped + 1 < u64_mod
    → m₀.retirement ≡ m.retirement
    → m₀.dropped_retirements ≡ m.dropped_retirements
    → m₀.stats ≡ m.stats
    → ((a : ℕ)
        → occurrences a (active_pads m.pads) ≡ bit (a == arc) + occurrences a (active_pads m₀.pads))
    → Placed m taken dropped
    → Kept (retire arc m₀) (length taken)
unfolding retire
retire-Kept arc m m₀ taken dropped small r d s o h =
    elim (Bool-cases (m₀.connected && ltb (length m₀.retirement) m₀.max_pad_series)) [
      | inl b ↦ rw b (
        taken,
        dropped,
        refl,
        record {
          counted_dropped = h.counted_dropped ∙ sym d;
          once = λ a.
              let e = occurrences-append a m₀.retirement (arc ∷ []) in
              let f = ap (occurrences a) r in
              let g = ap (λ l. bit (ltb a (length l))) s in
              let p = o a in let q = h.once a in omega arith;
        },
      )
      | inr b ↦ rw b (
        taken,
        arc ∷ dropped,
        refl,
        record {
          counted_dropped = let c = h.counted_dropped in omega arith;
          once = λ a.
              let f = ap (occurrences a) r in
              let g = ap (λ l. bit (ltb a (length l))) s in
              let p = o a in let q = h.once a in omega arith;
        },
      )
    ]

remove_pad_key-Kept :
    (key : ℕ) (m : Metrics) (taken dropped : List ℕ)
    → IsValid m
    → Accounted (length taken) m
    → Placed m taken dropped
    → Kept (remove_pad_key key m) (length taken)
unfolding remove_pad_key IsValid Accounted
remove_pad_key-Kept key m taken dropped v acc h = elim (Option-cases (lookup key m.pads)) [
  | inl e ↦
      rw (remove_pad_key, e)
        (
          taken,
          dropped,
          refl,
          record {
            counted_dropped = h.counted_dropped;
            once = λ a.
                let u =
                  occurrences-erase_untracked a key m.pads (λ arc g. absurd (cc)) v.one_entry in
                let q = h.once a in omega arith;
          },
        )
  | inr (ignored reason, e) ↦
      rw (remove_pad_key, e)
        (
          taken,
          dropped,
          refl,
          record {
            counted_dropped = h.counted_dropped;
            once = λ a.
                let u =
                  occurrences-erase_untracked a key m.pads (λ arc g. absurd (cc)) v.one_entry in
                let q = h.once a in omega arith;
          },
        )
  | inr (tracked arc, e) ↦
      let next = v.next in
      let fits = v.fits in
      let c = h.counted_dropped in
      rw (remove_pad_key, e)
        (retire-Kept arc m (release (record m { pads = erase key m.pads })) taken dropped
          (omega arith) refl refl refl (λ a. occurrences-erase a key m.pads arc v.one_entry e) h)
]

reset_pad_interval-Placed :
    (pad : Pad) (t : ℕ) (m : Metrics) (taken dropped : List ℕ)
    → Placed m taken dropped
    → Placed (reset_pad_interval pad t m) taken dropped
unfolding reset_pad_interval
reset_pad_interval-Placed pad t m taken dropped h = elim (Option-cases (lookup pad.key m.pads)) [
  | inl e ↦ rw (reset_pad_interval, e) h
  | inr (ignored reason, e) ↦ rw (reset_pad_interval, e) h
  | inr (tracked arc, e) ↦
      rw (reset_pad_interval, e)
        (same_places m _ taken dropped refl refl refl (length-modify arc (reset_interval t) m.stats)
          h)
]

reset_element_intervals-Placed :
    (element : Element) (t : ℕ) (m : Metrics) (taken dropped : List ℕ)
    → Placed m taken dropped
    → Placed (reset_element_intervals element t m) taken dropped
unfolding reset_element_intervals
reset_element_intervals-Placed element t m taken dropped h = elim (Bool-cases m.track_intervals) [
  | inl e ↦ simp e (
      same_places m _ taken dropped refl refl refl
        ((reset_entries-Kept element.key t m.pads m.stats).as_many) h)
  | inr e ↦ simp e h
]

Step-Kept :
    {k : ℕ} {m m' : Metrics} (taken dropped : List ℕ)
    → Step k m m'
    → IsValid m
    → Accounted (length taken) m
    → Placed m taken dropped
    → Kept m' (length taken + k)
unfolding reset_pad_interval reset_element_intervals Accounted
Step-Kept taken dropped (counted entry b y t {m}) v acc h =
    (taken, dropped, omega arith, increment_entry-Placed entry b y t m taken dropped h)
Step-Kept taken dropped (registered key i element pad owner b y t {m}) v acc h =
    (taken, dropped, omega arith, register-Placed key i element pad owner b y t m taken dropped h)
Step-Kept taken dropped (removed key {m}) v acc h =
    let (taken', dropped', n, h') = remove_pad_key-Kept key m taken dropped v acc h in
    (taken', dropped', omega arith, h')
Step-Kept taken dropped (pad_reset pad t {m}) v acc h =
    (taken, dropped, omega arith, reset_pad_interval-Placed pad t m taken dropped h)
Step-Kept taken dropped (element_reset element t {m}) v acc h =
    (taken, dropped, omega arith, reset_element_intervals-Placed element t m taken dropped h)
Step-Kept taken dropped (received arc arcs {m} e) v acc h = (
  arc ∷ taken,
  dropped,
  omega arith,
  record {
    counted_dropped = h.counted_dropped;
    once = λ a. let f = ap (occurrences a) e in let q = h.once a in omega arith;
  },
)
Step-Kept taken dropped (elsewhere pipelines queues dirty {m}) v acc h =
    (taken, dropped, omega arith, record { counted_dropped = h.counted_dropped; once = h.once })
Step-Kept taken dropped (disconnected {m}) v acc h =
    (taken, dropped, omega arith, record { counted_dropped = h.counted_dropped; once = h.once })

-- However the threads interleave, the statistics of every series that was ever registered are in
-- exactly one place: tracked by an entry of the map, waiting in the channel, among those that the
-- worker took, or among those that the full or closed channel refused, and the count of dropped
-- series is the number of the last. No other statistics are in any of these places.
pub Reach-Placed :
    {f g : Option (Text → Bool)} {limit : ℕ} {track : Bool} {n : ℕ} {m : Metrics}
    → Reach f g limit track n m
    → Kept m n
unfolding new active_pads
Reach-Placed begun = ([], [], refl, record { counted_dropped = refl; once = λ a. ground arith })
Reach-Placed (after {n} {k} {m} {m'} r s) =
    let (taken, dropped, e, h) = Reach-Placed r in
    let acc : Accounted (length taken) m = subst (λ i. Accounted i m) (sym e) (Reach-Accounted r) in
    let (taken', dropped', e', h') = Step-Kept taken dropped s (Reach-IsValid r) acc h in
    (taken', dropped', e' ∙ ap (λ i. i + k) e, h')
