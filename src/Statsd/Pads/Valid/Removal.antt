-- ===== src/Statsd/Pads/Valid/Removal.antt =====
-- The invariant of the registered pads, and removals and resets: utils/statsd/src/metrics.rs.
use gstsmith_rs.Prelude.{
  ℕ, ◌-◌, ◌<◌, ◌≤◌, ◌≡◌, ◌≢◌, refl, sym, ◌∙◌, ◌&&◌, some, List, [], ◌∷◌, length, arith, ltb,
  Bool-cases, inl, inr, Option-cases,
}
use gstsmith_rs.Statsd.State.{
  PadStats, PadEntry, tracked, ignored, RegistrationState, Metrics, Element, Pad, lookup, erase,
}
use gstsmith_rs.Statsd.Pads.{
  retire, remove_pad_key, reset_interval, reset_owned, reset_pad_interval, reset_entries,
  reset_element_intervals, active_pads, owned_by,
}
use gstsmith_rs.Statsd.Pads.Entries.{
  erase-Distinct, Kept, Kept-self, Kept-trans, modify-Kept, length-active_pads-erase,
  length-active_pads-erase_ignored, All-active_pads-erase,
}
use gstsmith_rs.Statsd.Pads.Valid.{Sound, IsValid, Kept-Sound}

retire-IsValid : (arc : ℕ) (m : Metrics) → IsValid m → IsValid (retire arc m)
unfolding retire IsValid
retire-IsValid arc m v =
    elim (Bool-cases (m.connected && ltb (length m.retirement) m.max_pad_series)) [
      | inl b ↦ rw b v
      | inr b ↦ rw b v
    ]

erased-Sound :
    {limit : ℕ} {pads : List (ℕ × PadEntry)} {stats : List PadStats} {r : RegistrationState}
    (key active : ℕ)
    → active ≡ length (active_pads (erase key pads))
    → active ≤ limit
    → Sound limit pads stats r
    → Sound limit (erase key pads) stats (record r { active = active })
erased-Sound {pads} {stats} key active e h v = record {
  exact = e;
  capped = h;
  one_entry = erase-Distinct key pads v.one_entry;
  next = v.next;
  fits = v.fits;
  numbered = v.numbered;
  in_stats = All-active_pads-erase (λ arc. arc < length stats) key pads v.in_stats;
}

untracked-Sound :
    {limit : ℕ} {pads : List (ℕ × PadEntry)} {stats : List PadStats} {r : RegistrationState}
    (key : ℕ)
    → ((arc : ℕ) → lookup key pads ≢ some (tracked arc))
    → Sound limit pads stats r
    → Sound limit (erase key pads) stats r
untracked-Sound {pads} key h v =
    erased-Sound key _ (v.exact ∙ sym (length-active_pads-erase_ignored key pads v.one_entry h))
      v.capped v

pub remove_pad_key-IsValid : (key : ℕ) (m : Metrics) → IsValid m → IsValid (remove_pad_key key m)
unfolding remove_pad_key IsValid
remove_pad_key-IsValid key m v = elim (Option-cases (lookup key m.pads)) [
  | inl e ↦ rw (remove_pad_key, e) (untracked-Sound key (λ arc g. absurd (cc)) v)
  | inr (ignored reason, e) ↦ rw (remove_pad_key, e) (untracked-Sound key (λ arc g. absurd (cc)) v)
  | inr (tracked arc, e) ↦
      let n = length-active_pads-erase key m.pads arc v.one_entry e in
      let x = v.exact in
      let c = v.capped in
      rw (remove_pad_key, e)
        (retire-IsValid arc _
          (erased-Sound key (m.registration.active - 1) (omega arith) (omega arith) v))
]

pub reset_interval-id : (timestamp : ℕ) (s : PadStats) → (reset_interval timestamp s).id ≡ s.id
reset_interval-id timestamp s = elim (Option-cases s.interval) [
  | inl e ↦ rw e refl
  | inr (i, e) ↦ rw e refl
]

reset_owned-id :
    (element timestamp : ℕ) (s : PadStats) → (reset_owned element timestamp s).id ≡ s.id
reset_owned-id element timestamp s = elim (Bool-cases (owned_by element s)) [
  | inl e ↦ rw e (reset_interval-id timestamp s)
  | inr e ↦ rw e refl
]

pub reset_pad_interval-IsValid :
    (pad : Pad) (timestamp : ℕ) (m : Metrics)
    → IsValid m
    → IsValid (reset_pad_interval pad timestamp m)
unfolding reset_pad_interval IsValid
reset_pad_interval-IsValid pad t m v = elim (Option-cases (lookup pad.key m.pads)) [
  | inl e ↦ rw (reset_pad_interval, e) v
  | inr (ignored reason, e) ↦ rw (reset_pad_interval, e) v
  | inr (tracked arc, e) ↦
      rw (reset_pad_interval, e)
        (Kept-Sound (modify-Kept arc (reset_interval t) m.stats (reset_interval-id t)) v)
]

pub reset_entries-Kept :
    (element timestamp : ℕ) (es : List (ℕ × PadEntry)) (stats : List PadStats)
    → Kept stats (reset_entries element timestamp es stats)
unfolding reset_entries
reset_entries-Kept element t [] stats = Kept-self stats
reset_entries-Kept element t ((k, ignored reason) ∷ es) stats =
    reset_entries-Kept element t es stats
reset_entries-Kept element t ((k, tracked arc) ∷ es) stats =
    Kept-trans (modify-Kept arc (reset_owned element t) stats (reset_owned-id element t))
      (reset_entries-Kept element t es _)

pub reset_element_intervals-IsValid :
    (element : Element) (timestamp : ℕ) (m : Metrics)
    → IsValid m
    → IsValid (reset_element_intervals element timestamp m)
unfolding reset_element_intervals IsValid
reset_element_intervals-IsValid element t m v = elim (Bool-cases m.track_intervals) [
  | inl e ↦ rw e (Kept-Sound (reset_entries-Kept element.key t m.pads m.stats) v)
  | inr e ↦ rw e v
]
