-- ===== src/Statsd/Worker/Counters.antt =====
-- The cursor of a counter against the amounts on the wire: utils/statsd/src/worker.rs,
-- `export_pad_counter` and `export_internal`.
use Prim.Native.String.{String}
use gstsmith_rs.Prelude.{
  ℕ, ◌+◌, ◌%◌, ◌≤◌, ◌<◌, ◌≡◌, ◌⊎◌, inl, inr, refl, min, true, false, not, ◌&&◌, Option, List, [],
  ◌∷◌, ◌++◌, Text, arith, ◌==◌, Bool-cases, not-true, and-eq-true, ==_iff, u64_mod,
}
use gstsmith_rs.Statsd.State.{PadStats}
use gstsmith_rs.Statsd.Worker.{
  default_cursor, i64_max, wrapping_sub64, Value, count, gauge, gauge_f64, Line, Client,
  CounterCursor, World, accepted, try_send, count_failure, advance, export_count,
  export_pad_counter, export_internal, pad_line, suppress_recursion,
}

-- The sum of the counts that the client took.
abbrev pub amount : Value → ℕ
amount (count n) = n
amount (gauge n) = 0
amount (gauge_f64 n) = 0

abbrev pub delivered : List Line → ℕ
delivered [] = 0
delivered (line ∷ lines) = amount line.value + delivered lines

pub delivered-append : (xs ys : List Line) → delivered (xs ++ ys) ≡ delivered xs + delivered ys
delivered-append [] ys = omega arith
delivered-append (x ∷ xs) ys = omega (arith, delivered-append xs ys)

-- A failure that leaves what was taken as it is.
abbrev pub Keeps : (World → World) → Type 0
Keeps f = (w : World) → (f w).taken ≡ w.taken

pub count_failure-Keeps :
    (client : Client) (message : String) → Keeps (count_failure client message)
unfolding count_failure
count_failure-Keeps client message w = refl

module _ (client : Client) (on_failure : World → World) (line : ℕ → Line) (keeps : Keeps on_failure)
    (counts : (n : ℕ) → amount (line n).value ≡ n) where
  -- The three things that an export does.
  pub export_count-cases :
      (current : ℕ) (cursor : CounterCursor) (w : World)
      → let r : CounterCursor × World = export_count client on_failure line current cursor w in
        let delta : ℕ = wrapping_sub64 current cursor.value in
        ((delta ≡ 0) × (cursor.was_active ≡ false) × (r ≡ (cursor, w)))
        ⊎ (((accepted client w ≡ true)
              × (r.0 ≡ advance client delta cursor)
              × (r.1.taken ≡ w.taken ++ line (min delta i64_max) ∷ []))
            ⊎ ((accepted client w ≡ false) × (r.0 ≡ cursor) × (r.1.taken ≡ w.taken)))
  unfolding export_count try_send
  export_count-cases current cursor w =
      elim (Bool-cases ((wrapping_sub64 current cursor.value == 0) && not cursor.was_active)) [
        | inl e ↦
            let (zero, idle) = and-eq-true _ _ e in
            inl ((==_iff _ 0).0 zero, not-true cursor.was_active idle, rw (export_count, e) refl)
        | inr e ↦ inr (elim (Bool-cases (accepted client w)) [
          | inl a ↦ inl (a, rw (export_count, e, a) refl, rw (export_count, try_send, e, a) refl)
          | inr a ↦
              inr (a, rw (export_count, e, a) refl, rw (export_count, try_send, e, a) (keeps _))
        ])
      ]

  export_count-balance :
      (current : ℕ) (cursor : CounterCursor) (w : World)
      → let r : CounterCursor × World = export_count client on_failure line current cursor w in
        (r.0.value + delivered w.taken) % u64_mod ≡ (cursor.value + delivered r.1.taken) % u64_mod
  unfolding advance
  export_count-balance current cursor w = elim (export_count-cases current cursor w) [
    | inl (_, _, e) ↦ rw e refl
    | inr (inl (_, e, t)) ↦
        let n = min (wrapping_sub64 current cursor.value) i64_max in
        let d = delivered-append w.taken (line n ∷ []) in rw (e, t, d, counts n) (omega arith)
    | inr (inr (_, e, t)) ↦ rw (e, t) refl
  ]

  export_count-caught_up :
      (current : ℕ) (cursor : CounterCursor) (w : World)
      → current < u64_mod
      → cursor.value < u64_mod
      → accepted client w ≡ true
      → wrapping_sub64 current cursor.value ≤ i64_max
      → (export_count client on_failure line current cursor w).0.value ≡ current
  unfolding advance
  export_count-caught_up current cursor w hc hv a small =
      elim (export_count-cases current cursor w) [
        | inl (z, _, e) ↦ rw e (omega arith)
        | inr (inl (_, e, t)) ↦ rw e (omega arith)
        | inr (inr (f, _, _)) ↦ absurd (cc)
      ]

  export_count-below :
      (current : ℕ) (cursor : CounterCursor) (w : World)
      → cursor.value < u64_mod
      → (export_count client on_failure line current cursor w).0.value < u64_mod
  unfolding advance
  export_count-below current cursor w h = elim (export_count-cases current cursor w) [
    | inl (_, _, e) ↦ rw e h
    | inr (inl (_, e, _)) ↦ rw e (omega arith)
    | inr (inr (_, e, _)) ↦ rw e h
  ]

  -- A cursor at the counter's value.
  export_count-rests :
      (current : ℕ) (cursor : CounterCursor) (w : World)
      → current < u64_mod
      → cursor.value ≡ current
      → accepted client w ≡ true
      → (export_count client on_failure line current cursor w).0.was_active ≡ false
  unfolding advance
  export_count-rests current cursor w hc v a =
      let z : wrapping_sub64 current cursor.value ≡ 0 = omega arith in
      elim (export_count-cases current cursor w) [
        | inl (_, idle, e) ↦ rw e idle
        | inr (inl (_, e, t)) ↦ rw (e, z) refl
        | inr (inr (f, _, _)) ↦ absurd (cc)
      ]

  export_count-idle :
      (current : ℕ) (cursor : CounterCursor) (w : World)
      → current < u64_mod
      → cursor.value ≡ current
      → cursor.was_active ≡ false
      → export_count client on_failure line current cursor w ≡ (cursor, w)
  unfolding export_count
  export_count-idle current cursor w hc v idle =
      let z : wrapping_sub64 current cursor.value ≡ 0 = omega arith in rw (z, idle) refl

  export_count-settles :
      (current : ℕ) (cursor : CounterCursor) (w : World)
      → ((n : ℕ) → client.accepts n ≡ true)
      → current < u64_mod
      → cursor.value < u64_mod
      → wrapping_sub64 current cursor.value ≤ i64_max
      → let r₁ : CounterCursor × World = export_count client on_failure line current cursor w in
        let r₂ : CounterCursor × World = export_count client on_failure line current r₁.0 r₁.1 in
        export_count client on_failure line current r₂.0 r₂.1 ≡ r₂
  export_count-settles current cursor w a hc hv fits =
      let r₁ : CounterCursor × World = export_count client on_failure line current cursor w in
      let r₂ : CounterCursor × World = export_count client on_failure line current r₁.0 r₁.1 in
      let v₁ = export_count-caught_up current cursor w hc hv (a _) fits in
      let v₂ = export_count-caught_up current r₁.0 r₁.1 hc (omega arith) (a _) (omega arith) in
      export_count-idle current r₂.0 r₂.1 hc v₂ (export_count-rests current r₁.0 r₁.1 hc v₁ (a _))

abbrev emission_failed : String
emission_failed = "StatsD counter emission failed"

-- The exports of one counter in turn, each with the counter's value then, and with how many lines
-- the client was given before it.
unfoldable pub export_scrapes :
    Client
    → String
    → PadStats
    → Option Text
    → List (ℕ × ℕ)
    → CounterCursor
    → World
    → CounterCursor × World
unfolding export_pad_counter
export_scrapes client key pad bound [] cursor w = (cursor, w)
export_scrapes client key pad bound ((current, given) ∷ scrapes) cursor w =
    let (cursor', w') =
      export_pad_counter client key pad bound current cursor (record w { given = given }) in
    export_scrapes client key pad bound scrapes cursor' w'

module _ (client : Client) (key : String) (pad : PadStats) (bound : Option Text) where
  export_pad_counter-balance :
      (current : ℕ) (cursor : CounterCursor) (w : World)
      → let r : CounterCursor × World = export_pad_counter client key pad bound current cursor w in
        (r.0.value + delivered w.taken) % u64_mod ≡ (cursor.value + delivered r.1.taken) % u64_mod
  unfolding export_pad_counter
  export_pad_counter-balance =
      export_count-balance client (count_failure client emission_failed) (pad_line key pad bound)
        (count_failure-Keeps client emission_failed) λ n. refl

  -- Of any exports of a pad's counter, failed ones included: what the cursor moves by is what the
  -- lines that the client took add up to, in `u64`.
  pub export_scrapes-balance :
      (scrapes : List (ℕ × ℕ)) (cursor : CounterCursor) (w : World)
      → let r : CounterCursor × World = export_scrapes client key pad bound scrapes cursor w in
        (r.0.value + delivered w.taken) % u64_mod ≡ (cursor.value + delivered r.1.taken) % u64_mod
  unfolding export_scrapes
  export_scrapes-balance [] cursor w = refl
  export_scrapes-balance ((current, given) ∷ scrapes) cursor w =
      let w₀ : World = record w { given = given } in
      let (cursor', w') = export_pad_counter client key pad bound current cursor w₀ in
      let one = export_pad_counter-balance current cursor w₀ in
      let rest = export_scrapes-balance scrapes cursor' w' in omega arith

  export_scrapes-below :
      (scrapes : List (ℕ × ℕ)) (cursor : CounterCursor) (w : World)
      → cursor.value < u64_mod
      → (export_scrapes client key pad bound scrapes cursor w).0.value < u64_mod
  unfolding export_scrapes export_pad_counter
  export_scrapes-below [] cursor w h = h
  export_scrapes-below ((current, given) ∷ scrapes) cursor w h =
      let w₀ : World = record w { given = given } in
      let (cursor', w') = export_pad_counter client key pad bound current cursor w₀ in
      export_scrapes-below scrapes cursor' w' (
        export_count-below client (count_failure client emission_failed) (pad_line key pad bound)
          (count_failure-Keeps client emission_failed) (λ n. refl) current cursor w₀ h)

  -- A counter that starts with no cursor and nothing sent, after any exports of which some failed:
  -- once an export is taken whose difference to the cursor fits an `i64`, the amounts of the lines
  -- that the client took add up to the counter's value, in `u64`. Nothing is lost and nothing is
  -- counted twice.
  pub delivered-export_scrapes :
      (scrapes : List (ℕ × ℕ)) (w : World) (current given : ℕ)
      → w.taken ≡ []
      → current < u64_mod
      → let r : CounterCursor × World =
          export_scrapes client key pad bound scrapes default_cursor w in
        client.accepts given ≡ true
        → wrapping_sub64 current r.0.value ≤ i64_max
        → let last : CounterCursor × World =
            export_pad_counter client key pad bound current r.0 (record (r.1) { given = given }) in
          delivered last.1.taken % u64_mod ≡ current
  unfolding export_pad_counter
  delivered-export_scrapes scrapes w current given none_taken small a fits =
      let r : CounterCursor × World =
        export_scrapes client key pad bound scrapes default_cursor w in
      let w₀ : World = record (r.1) { given = given } in
      let before = export_scrapes-balance scrapes default_cursor w in
      let bounded = export_scrapes-below scrapes default_cursor w (omega arith) in
      let last = export_pad_counter-balance current r.0 w₀ in
      let here =
        export_count-caught_up client (count_failure client emission_failed)
          (pad_line key pad bound) (count_failure-Keeps client emission_failed) (λ n. refl) current
          r.0 w₀ small bounded a fits in
      let start : delivered w.taken ≡ 0 = rw none_taken refl in omega arith

  -- A counter that stays as it is, against a client that takes every line, with a difference that
  -- fits an `i64`: at most two lines are sent, and no export after them sends one or moves the
  -- cursor.
  pub export_pad_counter-settles :
      (current : ℕ) (cursor : CounterCursor) (w : World)
      → ((n : ℕ) → client.accepts n ≡ true)
      → current < u64_mod
      → cursor.value < u64_mod
      → wrapping_sub64 current cursor.value ≤ i64_max
      → let r₁ : CounterCursor × World = export_pad_counter client key pad bound current cursor w in
        let r₂ : CounterCursor × World =
          export_pad_counter client key pad bound current r₁.0 r₁.1 in
        export_pad_counter client key pad bound current r₂.0 r₂.1 ≡ r₂
  unfolding export_pad_counter
  export_pad_counter-settles =
      export_count-settles client (count_failure client emission_failed) (pad_line key pad bound)
        (count_failure-Keeps client emission_failed) (λ n. refl)

-- A diagnostic counter of the export's own errors adds none, and logs nothing, whether or not the
-- client takes its line: a failed line about failed lines does not cause a next one.
pub export_internal-suppress_recursion :
    (client : Client) (key : String) (reason : Text) (current : ℕ) (cursor : CounterCursor)
    (w : World)
    → let w' : World = (export_internal client key reason suppress_recursion current cursor w).1 in
      (w'.export_emit_errors ≡ w.export_emit_errors) × (w'.error_log ≡ w.error_log)
unfolding export_internal export_count try_send
export_internal-suppress_recursion client key reason current cursor w = ground arith
