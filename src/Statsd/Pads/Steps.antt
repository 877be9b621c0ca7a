-- ===== src/Statsd/Pads/Steps.antt =====
-- The interleavings of the threads that share the metrics: utils/statsd/src/metrics.rs.
use gstsmith_rs.Prelude.{
  ℕ, suc, ◌+◌, ◌<◌, ◌≡◌, refl, ap, ◌∙◌, ◌⊎◌, Bool, true, false, ◌&&◌, Option, some, List, [], ◌∷◌,
  length, length-append, arith, ltb, leb, Bool-cases, inl, inr, Option-cases, Text, ◌==◌, u64_mod,
  length-set, get_elem?,
}
use gstsmith_rs.Statsd.State.{
  PipelineEntry, PadStats, PadEntry, tracked, ignored, filtered, series_limit, series_id_overflow,
  Metrics, Element, Pad, new, lookup, erase,
}
use gstsmith_rs.Statsd.Pads.{
  modify, increment_entry, add_entry, new_stats, register, update_pad, retire, release,
  remove_pad_key, reset_pad_interval, reset_interval, reset_element_intervals, active_pads,
}
use gstsmith_rs.Statsd.Pads.Valid.Removal.{
  remove_pad_key-IsValid, reset_pad_interval-IsValid, reset_element_intervals-IsValid,
  reset_entries-Kept,
}
use gstsmith_rs.Statsd.Pads.Valid.{IsValid, new-IsValid, increment_entry-IsValid, register-IsValid}

-- A step of some thread, with how many retired series the worker took in it.
pub data Step : ℕ → Metrics → Metrics → Type 0 where
  -- The entry may have been looked up long before, and removed since.
  counted : (entry : PadEntry) (b y t : ℕ) {m : Metrics} → Step 0 m (increment_entry entry b y t m)
  registered :
      (key : ℕ) (i : Bool) (element pad : Text) (owner b y t : ℕ) {m : Metrics}
      → Step 0 m (register key i element pad owner b y t m)
  removed : (key : ℕ) {m : Metrics} → Step 0 m (remove_pad_key key m)
  pad_reset : (pad : Pad) (t : ℕ) {m : Metrics} → Step 0 m (reset_pad_interval pad t m)
  element_reset :
      (element : Element) (t : ℕ) {m : Metrics} → Step 0 m (reset_element_intervals element t m)
  received :
      (arc : ℕ) (arcs : List ℕ) {m : Metrics}
      → m.retirement ≡ arc ∷ arcs
      → Step 1 m (record m { retirement = arcs })
  -- An operation on the pipelines or queues.
  elsewhere :
      (pipelines : List (ℕ × PipelineEntry)) (queues : List (ℕ × ℕ)) (dirty : Bool) {m : Metrics}
      → Step 0 m
          (record m { pipelines = pipelines; queues = queues; queue_identities_dirty = dirty })
  disconnected : {m : Metrics} → Step 0 m (record m { connected = false })

-- What the threads can reach from new metrics, and how many retired series the worker took.
pub data Reach (f g : Option (Text → Bool)) (limit : ℕ) (track : Bool) : ℕ → Metrics → Type 0 where
  begun : Reach f g limit track 0 (new f g limit track)
  after :
      {n k : ℕ} {m m' : Metrics}
      → Reach f g limit track n m
      → Step k m m'
      → Reach f g limit track (n + k) m'

-- A call of `update_pad` that no other thread interrupts does nothing for a pad without a parent,
-- and takes one of these steps otherwise, so that its interruptions are those of the steps.
pub update_pad-Step :
    (pad : Pad) (b y t : ℕ) (m : Metrics)
    → (update_pad pad b y t m ≡ m) ⊎ Step 0 m (update_pad pad b y t m)
unfolding update_pad
update_pad-Step pad b y t m = elim (Option-cases (lookup pad.key m.pads)) [
  | inr (entry, e) ↦ inr (rw (update_pad, e) (counted entry b y t))
  | inl e ↦ elim (Option-cases pad.parent) [
    | inl p ↦ inl (rw (update_pad, e, p) refl)
    | inr (element, p) ↦ inr (rw (update_pad, e, p) (registered pad.key _ _ _ element.key b y t))
  ]
]

Step-IsValid : {k : ℕ} {m m' : Metrics} → Step k m m' → IsValid m → IsValid m'
unfolding IsValid
Step-IsValid (counted entry b y t {m}) v = increment_entry-IsValid entry b y t m v
Step-IsValid (registered key i element pad owner b y t {m}) v =
    register-IsValid key i element pad owner b y t m v
Step-IsValid (removed key {m}) v = remove_pad_key-IsValid key m v
Step-IsValid (pad_reset pad t {m}) v = reset_pad_interval-IsValid pad t m v
Step-IsValid (element_reset element t {m}) v = reset_element_intervals-IsValid element t m v
Step-IsValid (received arc arcs e) v = v
Step-IsValid (elsewhere pipelines queues dirty) v = v
Step-IsValid disconnected v = v

-- However the threads interleave, the count of tracked pads is exact and at most the limit, no pad
-- has two entries, identifiers are given out once, and every tracked pad has its statistics.
pub Reach-IsValid :
    {f g : Option (Text → Bool)} {limit : ℕ} {track : Bool} {n : ℕ} {m : Metrics}
    → Reach f g limit track n m
    → IsValid m
Reach-IsValid {f} {g} {limit} {track} begun = new-IsValid f g limit track
Reach-IsValid (after r s) = Step-IsValid s (Reach-IsValid r)

-- Every series that was registered is tracked, waits for the worker, was taken or was dropped.
unfoldable pub Accounted : ℕ → Metrics → Type 0
Accounted n m =
    length m.stats ≡ m.registration.active + length m.retirement + n + m.dropped_retirements

pub length-modify :
    (arc : ℕ) (f : PadStats → PadStats) (stats : List PadStats)
    → length (modify arc f stats) ≡ length stats
unfolding modify
length-modify arc f stats = elim (Option-cases (get_elem? stats arc)) [
  | inl e ↦ rw (modify, e) refl
  | inr (s, e) ↦ rw (modify, e) (length-set stats arc (f s))
]

increment_entry-Accounted :
    (entry : PadEntry) (b y t : ℕ) (m : Metrics) (n : ℕ)
    → Accounted n m
    → Accounted n (increment_entry entry b y t m)
unfolding increment_entry Accounted
increment_entry-Accounted (tracked arc) b y t m n a = length-modify arc _ m.stats ∙ a
increment_entry-Accounted (ignored series_limit) b y t m n a = a
increment_entry-Accounted (ignored series_id_overflow) b y t m n a = a
increment_entry-Accounted (ignored filtered) b y t m n a = a

add_entry-Accounted :
    (key : ℕ) (i : Bool) (element pad : Text) (owner n : ℕ) (m : Metrics)
    → Accounted n m
    → Accounted n (add_entry key i element pad owner m).1
unfolding add_entry Accounted
add_entry-Accounted key false element pad owner n m a = a
add_entry-Accounted key true element pad owner n m a =
    elim (Bool-cases (leb m.max_pad_series m.registration.active)) [
      | inl b ↦ rw b a
      | inr b ↦ elim (Bool-cases (ltb (m.registration.next_id + 1) u64_mod)) [
        | inl c ↦
            rw (b, c)
              (let l =
                  length-append m.stats
                    (new_stats m.track_intervals m.registration.next_id element pad owner ∷ []) in
                omega arith)
        | inr c ↦ rw (b, c) a
      ]
    ]

register-Accounted :
    (key : ℕ) (i : Bool) (element pad : Text) (owner b y t n : ℕ) (m : Metrics)
    → Accounted n m
    → Accounted n (register key i element pad owner b y t m)
unfolding register
register-Accounted key i element pad owner b y t n m a = elim (Option-cases (lookup key m.pads)) [
  | inl e ↦
      rw (register, e)
        (increment_entry-Accounted _ b y t _ n (add_entry-Accounted key i element pad owner n m a))
  | inr (entry, e) ↦ rw (register, e) (increment_entry-Accounted entry b y t m n a)
]

-- The number that counts dropped series does not wrap, since each was given an identifier.
retire-Accounted :
    (arc n : ℕ) (m : Metrics)
    → length m.stats < u64_mod
    → length m.stats ≡ suc (m.registration.active) + length m.retirement + n + m.dropped_retirements
    → Accounted n (retire arc m)
unfolding retire Accounted
retire-Accounted arc n m h a =
    elim (Bool-cases (m.connected && ltb (length m.retirement) m.max_pad_series)) [
      | inl b ↦ rw b (let l = length-append m.retirement (arc ∷ []) in omega arith)
      | inr b ↦ rw b (omega arith)
    ]

-- A pad that is tracked is one of those that are counted.
tracked_active :
    (k : ℕ) (es : List (ℕ × PadEntry)) (arc : ℕ)
    → lookup k es ≡ some (tracked arc)
    → 0 < length (active_pads es)
unfolding active_pads
tracked_active k [] arc h = absurd (cc)
tracked_active k ((j, tracked a) ∷ es) arc h = omega arith
tracked_active k ((j, ignored r) ∷ es) arc h = elim (Bool-cases (k == j)) [
  | inl b ↦ absurd (ground arith)
  | inr b ↦ let q : lookup k es ≡ some (tracked arc) = ground arith in tracked_active k es arc q
]

remove_pad_key-Accounted :
    (key n : ℕ) (m : Metrics) → IsValid m → Accounted n m → Accounted n (remove_pad_key key m)
unfolding remove_pad_key Accounted IsValid
remove_pad_key-Accounted key n m v a = elim (Option-cases (lookup key m.pads)) [
  | inl e ↦ rw (remove_pad_key, e) a
  | inr (ignored reason, e) ↦ rw (remove_pad_key, e) a
  | inr (tracked arc, e) ↦
      let p = tracked_active key m.pads arc e in
      let x = v.exact in
      let next = v.next in
      let fits = v.fits in
      rw (remove_pad_key, e)
        (retire-Accounted arc n (release (record m { pads = erase key m.pads })) (omega arith)
          (omega arith))
]

reset_pad_interval-Accounted :
    (pad : Pad) (t n : ℕ) (m : Metrics) → Accounted n m → Accounted n (reset_pad_interval pad t m)
unfolding reset_pad_interval Accounted
reset_pad_interval-Accounted pad t n m a = elim (Option-cases (lookup pad.key m.pads)) [
  | inl e ↦ rw (reset_pad_interval, e) a
  | inr (ignored reason, e) ↦ rw (reset_pad_interval, e) a
  | inr (tracked arc, e) ↦
      rw (reset_pad_interval, e) (length-modify arc (reset_interval t) m.stats ∙ a)
]

reset_element_intervals-Accounted :
    (element : Element) (t n : ℕ) (m : Metrics)
    → Accounted n m
    → Accounted n (reset_element_intervals element t m)
unfolding reset_element_intervals Accounted
reset_element_intervals-Accounted element t n m a = elim (Bool-cases m.track_intervals) [
  | inl e ↦ rw e ((reset_entries-Kept element.key t m.pads m.stats).as_many ∙ a)
  | inr e ↦ rw e a
]

Step-Accounted :
    {k : ℕ} {m m' : Metrics} (n : ℕ)
    → Step k m m'
    → IsValid m
    → Accounted n m
    → Accounted (n + k) m'
unfolding Accounted
Step-Accounted n (counted entry b y t {m}) v a =
    let q = increment_entry-Accounted entry b y t m n a in omega arith
Step-Accounted n (registered key i element pad owner b y t {m}) v a =
    let q = register-Accounted key i element pad owner b y t n m a in omega arith
Step-Accounted n (removed key {m}) v a = let q = remove_pad_key-Accounted key n m v a in omega arith
Step-Accounted n (pad_reset pad t {m}) v a =
    let q = reset_pad_interval-Accounted pad t n m a in omega arith
Step-Accounted n (element_reset element t {m}) v a =
    let q = reset_element_intervals-Accounted element t n m a in omega arith
Step-Accounted n (received arc arcs {m} e) v a = let l = ap length e in omega arith
Step-Accounted n (elsewhere pipelines queues dirty) v a = omega arith
Step-Accounted n disconnected v a = omega arith

-- However the threads interleave, every series that was ever registered is tracked, waits in the
-- channel, was taken by the worker or is counted as dropped, and so no final report is lost
-- uncounted.
pub Reach-Accounted :
    {f g : Option (Text → Bool)} {limit : ℕ} {track : Bool} {n : ℕ} {m : Metrics}
    → Reach f g limit track n m
    → Accounted n m
unfolding Accounted new
Reach-Accounted begun = refl
Reach-Accounted (after {n} r s) = Step-Accounted n s (Reach-IsValid r) (Reach-Accounted r)
