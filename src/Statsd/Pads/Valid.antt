-- ===== src/Statsd/Pads/Valid.antt =====
-- The invariant of the registered pads, and registration: utils/statsd/src/metrics.rs.
pub mod Removal
use gstsmith_rs.Prelude.{
  ℕ, zero, suc, ◌+◌, ◌-◌, ◌<◌, ◌≤◌, ◌≡◌, ◌≢◌, refl, ap, sym, subst, ◌∙◌, Bool, true, false, ◌&&◌,
  Option, none, some, List, [], ◌∷◌, ◌++◌, length, length-append, get_elem?, u64_mod, arith, ltb,
  leb, ltb→lt, All, All-map_imp, Bool-cases, inl, inr, Option-cases, Text,
}
use gstsmith_rs.Statsd.State.{
  PadStats, PadEntry, tracked, ignored, filtered, series_limit, series_id_overflow, IgnoreReason,
  RegistrationState, Metrics, Element, Pad, new, lookup, erase,
}
use gstsmith_rs.Statsd.Pads.{
  count_buffers, increment_entry, new_stats, add_entry, register, update_pad, retire,
  remove_pad_key, reset_interval, reset_owned, reset_pad_interval, reset_entries,
  reset_element_intervals, active_pads, owned_by,
}
use gstsmith_rs.Statsd.Pads.Entries.{
  Distinct, erase-Distinct, Kept, Kept-self, Kept-trans, modify-Kept, length-active_pads-erase,
  length-active_pads-erase_ignored, All-active_pads-erase,
}

-- The map, the statistics and the registration state fit together.
pub record Sound (limit : ℕ) (pads : List (ℕ × PadEntry)) (stats : List PadStats)
    (r : RegistrationState) : Type 0 where
  -- The count of tracked pads is exact, and at most the limit.
  pub exact : r.active ≡ length (active_pads pads)
  pub capped : r.active ≤ limit
  pub one_entry : Distinct pads
  -- Identifiers go up from one in the order of registration, so no two are the same.
  pub next : r.next_id ≡ suc (length stats)
  pub fits : r.next_id < u64_mod
  pub numbered : (i : ℕ) (s : PadStats) → get_elem? stats i ≡ some s → s.id ≡ suc i
  pub in_stats : All (λ arc. arc < length stats) (active_pads pads)

unfoldable pub IsValid : Metrics → Type 0
IsValid m = Sound m.max_pad_series m.pads m.stats m.registration

pub new-IsValid : (f g : Option (Text → Bool)) (limit : ℕ) (t : Bool) → IsValid (new f g limit t)
unfolding IsValid new active_pads
new-IsValid f g limit t = record {
  exact = refl;
  capped = omega arith;
  one_entry = tt;
  next = refl;
  fits = omega arith;
  numbered = λ i s h. absurd (cc);
  in_stats = tt;
}

Kept-Sound :
    {limit : ℕ} {pads : List (ℕ × PadEntry)} {stats stats' : List PadStats} {r : RegistrationState}
    → Kept stats stats'
    → Sound limit pads stats r
    → Sound limit pads stats' r
Kept-Sound {pads} k v = record {
  exact = v.exact;
  capped = v.capped;
  one_entry = v.one_entry;
  next = v.next ∙ ap suc (sym k.as_many);
  fits = v.fits;
  numbered = λ i s h. let (s', g, e) = k.same_id i s h in e ∙ v.numbered i s' g;
  in_stats = subst (λ n. All (λ arc. arc < n) (active_pads pads)) (sym k.as_many) v.in_stats;
}

pub increment_entry-IsValid :
    (entry : PadEntry) (buffers bytes timestamp : ℕ) (m : Metrics)
    → IsValid m
    → IsValid (increment_entry entry buffers bytes timestamp m)
unfolding increment_entry IsValid
increment_entry-IsValid (tracked arc) b y t m v =
    Kept-Sound (modify-Kept arc (count_buffers b y t) m.stats (λ s. refl)) v
increment_entry-IsValid (ignored series_limit) b y t m v = v
increment_entry-IsValid (ignored series_id_overflow) b y t m v = v
increment_entry-IsValid (ignored filtered) b y t m v = v

-- A pad that is not tracked takes an entry.
ignored-Sound :
    {limit key : ℕ} {pads : List (ℕ × PadEntry)} {stats : List PadStats} {r : RegistrationState}
    (reason : IgnoreReason)
    → lookup key pads ≡ none
    → Sound limit pads stats r
    → Sound limit ((key, ignored reason) ∷ pads) stats r
unfolding active_pads
ignored-Sound reason h v = record {
  exact = v.exact;
  capped = v.capped;
  one_entry = (h, v.one_entry);
  next = v.next;
  fits = v.fits;
  numbered = v.numbered;
  in_stats = v.in_stats;
}

numbered_append :
    (stats : List PadStats) (new : PadStats) (n : ℕ)
    → new.id ≡ suc (n + length stats)
    → ((i : ℕ) (s : PadStats) → get_elem? stats i ≡ some s → s.id ≡ suc (n + i))
    → (i : ℕ) (s : PadStats) → get_elem? (stats ++ new ∷ []) i ≡ some s
    → s.id ≡ suc (n + i)
numbered_append [] new n e h zero s g = cc
numbered_append [] new n e h (suc i) s g = absurd (cc)
numbered_append (x ∷ xs) new n e h zero s g = h zero s g
numbered_append (x ∷ xs) new n e h (suc i) s g =
    let step : suc n + i ≡ n + suc i = omega arith in
    numbered_append xs new (suc n) (omega arith) (λ j t k. let q = h (suc j) t k in omega arith) i s
      g
    ∙ ap suc step

-- A pad that is tracked takes an entry, the next identifier and a new place.
tracked-Sound :
    (limit key : ℕ) (pads : List (ℕ × PadEntry)) (stats : List PadStats) (r : RegistrationState)
    (s : PadStats)
    → lookup key pads ≡ none
    → r.active < limit
    → r.next_id + 1 < u64_mod
    → s.id ≡ r.next_id
    → Sound limit pads stats r
    → Sound limit
        ((key, tracked (length stats)) ∷ pads)
        (stats ++ s ∷ [])
        record { active = r.active + 1; next_id = r.next_id + 1 }
unfolding active_pads
tracked-Sound limit key pads stats r s h k f e v =
    let l = length-append stats (s ∷ []) in
    let x = v.exact in
    let n = v.next in
    record {
      exact = omega arith;
      capped = omega arith;
      one_entry = (h, v.one_entry);
      next = omega arith;
      fits = f;
      numbered = λ i t g.
          let q =
            numbered_append stats s 0 (omega arith)
              (λ j u w. let p = v.numbered j u w in omega arith) i t g in
          omega arith;
      in_stats = (
        omega arith,
        All-map_imp (λ arc. arc < length stats) (λ arc. arc < length (stats ++ s ∷ []))
            (active_pads pads) (λ a q. omega arith) v.in_stats,
      );
    }

add_entry-IsValid :
    (key : ℕ) (is_included : Bool) (element pad : Text) (owner : ℕ) (m : Metrics)
    → lookup key m.pads ≡ none
    → IsValid m
    → IsValid (add_entry key is_included element pad owner m).1
unfolding add_entry IsValid new_stats
add_entry-IsValid key false element pad owner m h v = ignored-Sound filtered h v
add_entry-IsValid key true element pad owner m h v =
    elim (Bool-cases (leb m.max_pad_series m.registration.active)) [
      | inl b ↦ rw b (ignored-Sound series_limit h v)
      | inr b ↦ elim (Bool-cases (ltb (m.registration.next_id + 1) u64_mod)) [
        | inl c ↦
            rw (b, c)
              (tracked-Sound m.max_pad_series key m.pads m.stats m.registration _ h (ground arith)
                (ltb→lt _ _ c) refl v)
        | inr c ↦ rw (b, c) (ignored-Sound series_id_overflow h v)
      ]
    ]

pub register-IsValid :
    (key : ℕ) (is_included : Bool) (element pad : Text) (owner buffers bytes timestamp : ℕ)
    (m : Metrics)
    → IsValid m
    → IsValid (register key is_included element pad owner buffers bytes timestamp m)
unfolding register
register-IsValid key i element pad owner b y t m v = elim (Option-cases (lookup key m.pads)) [
  | inl e ↦
      rw (register, e)
        (increment_entry-IsValid _ b y t _ (add_entry-IsValid key i element pad owner m e v))
  | inr (entry, e) ↦ rw (register, e) (increment_entry-IsValid entry b y t m v)
]

pub update_pad-IsValid :
    (pad : Pad) (buffers bytes timestamp : ℕ) (m : Metrics)
    → IsValid m
    → IsValid (update_pad pad buffers bytes timestamp m)
unfolding update_pad
update_pad-IsValid pad b y t m v = elim (Option-cases (lookup pad.key m.pads)) [
  | inr (entry, e) ↦ rw (update_pad, e) (increment_entry-IsValid entry b y t m v)
  | inl e ↦ elim (Option-cases pad.parent) [
    | inl p ↦ rw (update_pad, e, p) v
    | inr (element, p) ↦
        rw (update_pad, e, p) (register-IsValid pad.key _ _ _ element.key b y t m v)
  ]
]
