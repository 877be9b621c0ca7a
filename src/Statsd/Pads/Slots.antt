-- ===== src/Statsd/Pads/Slots.antt =====
-- When a pad is tracked, and how a removal frees its slot: utils/statsd/src/metrics.rs.
use gstsmith_rs.Prelude.{
  ℕ, ◌+◌, ◌-◌, ◌<◌, ◌≡◌, ◌≢◌, refl, ap, ◌∙◌, ◌⊎◌, Bool, true, false, ◌&&◌, none, some, [], ◌∷◌,
  ◌++◌, length, arith, ltb, leb, Bool-cases, inl, inr, Text, ==_self, u64_mod, wrapping_add64,
}
use gstsmith_rs.Statsd.State.{
  tracked, RegistrationState, Metrics, Element, Pad, included, lookup, erase,
}
use gstsmith_rs.Statsd.Pads.{
  increment_entry, add_entry, register, identity_of, update_pad, retire, remove_pad_key,
}
use gstsmith_rs.Statsd.Pads.Valid.{IsValid}
use gstsmith_rs.Statsd.Pads.Entries.{lookup-erase_self, lookup-erase, length-active_pads-erase}

register_when_free :
    (key : ℕ) (i : Bool) (element pad : Text) (owner b y t : ℕ) (m : Metrics)
    → i ≡ true
    → lookup key m.pads ≡ none
    → m.registration.active < m.max_pad_series
    → m.registration.next_id + 1 < u64_mod
    → lookup key (register key i element pad owner b y t m).pads ≡ some (tracked (length m.stats))
unfolding register add_entry increment_entry
register_when_free key false element pad owner b y t m i h f n = absurd (cc)
register_when_free key true element pad owner b y t m i h f n =
    let free : leb m.max_pad_series m.registration.active ≡ false = ground arith in
    let fits : ltb (m.registration.next_id + 1) u64_mod ≡ true = ground arith in
    rw (register, h, free, fits, ==_self key) refl

-- A pad that the filters let through is tracked while fewer than the limit are.
tracked_when_free :
    (pad : Pad) (element : Element) (b y t : ℕ) (m : Metrics)
    → lookup pad.key m.pads ≡ none
    → pad.parent ≡ some element
    → included m (identity_of element pad) ≡ true
    → m.registration.active < m.max_pad_series
    → m.registration.next_id + 1 < u64_mod
    → lookup pad.key (update_pad pad b y t m).pads ≡ some (tracked (length m.stats))
unfolding update_pad
tracked_when_free pad element b y t m h p i f n =
    rw (update_pad, h, p) (register_when_free pad.key _ _ _ element.key b y t m i h f n)

-- What a removal of a tracked pad leaves.
record Removed (key arc : ℕ) (m m' : Metrics) : Type 0 where
  gone : m'.pads ≡ erase key m.pads
  released : m'.registration ≡ record (m.registration) { active = m.registration.active - 1 }
  same_stats : m'.stats ≡ m.stats
  same_limit : m'.max_pad_series ≡ m.max_pad_series
  same_filters : (t : Text) → included m' t ≡ included m t
  handed :
      (m'.retirement ≡ m.retirement ++ arc ∷ []) × (m'.dropped_retirements ≡ m.dropped_retirements)
      ⊎ (m'.retirement ≡ m.retirement)
        × (m'.dropped_retirements ≡ wrapping_add64 m.dropped_retirements 1)

remove_pad_key-Removed :
    (key arc : ℕ) (m : Metrics)
    → lookup key m.pads ≡ some (tracked arc)
    → Removed key arc m (remove_pad_key key m)
unfolding remove_pad_key retire included
remove_pad_key-Removed key arc m e =
    elim (Bool-cases (m.connected && ltb (length m.retirement) m.max_pad_series)) [
      | inl b ↦
          rw (remove_pad_key, e, b)
            record {
              gone = refl;
              released = refl;
              same_stats = refl;
              same_limit = refl;
              same_filters = λ t. refl;
              handed = inl (refl, refl);
            }
      | inr b ↦
          rw (remove_pad_key, e, b)
            record {
              gone = refl;
              released = refl;
              same_stats = refl;
              same_limit = refl;
              same_filters = λ t. refl;
              handed = inr (refl, refl);
            }
    ]

-- Removing a tracked pad frees its slot at once: the next pad that has no entry, has a parent and
-- passes the filters is tracked, with statistics of its own, while identifiers last.
pub update_pad-remove_pad_key :
    (key arc : ℕ) (pad : Pad) (element : Element) (b y t : ℕ) (m : Metrics)
    → IsValid m
    → lookup key m.pads ≡ some (tracked arc)
    → lookup pad.key (erase key m.pads) ≡ none
    → pad.parent ≡ some element
    → included m (identity_of element pad) ≡ true
    → m.registration.next_id + 1 < u64_mod
    → lookup pad.key (update_pad pad b y t (remove_pad_key key m)).pads
      ≡ some (tracked (length m.stats))
unfolding IsValid
update_pad-remove_pad_key key arc pad element b y t m v e h p i n =
    let r = remove_pad_key-Removed key arc m e in
    let m' = remove_pad_key key m in
    let count = length-active_pads-erase key m.pads arc v.one_entry e in
    let exact = v.exact in
    let capped = v.capped in
    let limit = r.same_limit in
    let active : m'.registration.active ≡ m.registration.active - 1 =
      ap RegistrationState.active r.released in
    let next : m'.registration.next_id ≡ m.registration.next_id =
      ap RegistrationState.next_id r.released in
    tracked_when_free pad element b y t m' (ap (lookup pad.key) r.gone ∙ h) p
      (r.same_filters (identity_of element pad) ∙ i) (omega arith) (omega arith)
    ∙ ap (λ stats. some (tracked (length stats))) r.same_stats

-- Removing a tracked pad takes its entry and no other, and hands its statistics to the worker or
-- counts them as dropped, never both.
pub remove_pad_key_once :
    (key arc : ℕ) (m : Metrics)
    → lookup key m.pads ≡ some (tracked arc)
    → (lookup key (remove_pad_key key m).pads ≡ none)
      × ((j : ℕ) → j ≢ key → lookup j (remove_pad_key key m).pads ≡ lookup j m.pads)
      × ((((remove_pad_key key m).retirement ≡ m.retirement ++ arc ∷ [])
            × ((remove_pad_key key m).dropped_retirements ≡ m.dropped_retirements))
          ⊎ (((remove_pad_key key m).retirement ≡ m.retirement)
              × ((remove_pad_key key m).dropped_retirements
                  ≡ wrapping_add64 m.dropped_retirements 1)))
remove_pad_key_once key arc m e =
    let r = remove_pad_key-Removed key arc m e in
    (
      ap (lookup key) r.gone ∙ lookup-erase_self key m.pads,
      (λ j n. ap (lookup j) r.gone ∙ lookup-erase j key m.pads n),
      r.handed,
    )
