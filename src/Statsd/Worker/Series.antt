-- ===== src/Statsd/Worker/Series.antt =====
-- Which series a snapshot exports, and which cursors it leaves: utils/statsd/src/worker.rs,
-- `export_pad_snapshot`.
use gstsmith_rs.Prelude.{
  ℕ, ◌≡◌, sym, ap, ◌∙◌, ◌||◌, is_some, Bool, inl, inr, refl, true, false, not, ◌&&◌, Option, none,
  some, List, [], ◌∷◌, All, arith, ◌==◌, ==_iff, Bool-cases, not-true, Option-cases, and-eq-true,
  if◌then◌else◌,
}
use gstsmith_rs.Statsd.State.{PadStats, lookup, erase}
use gstsmith_rs.Statsd.Pads.Entries.{Distinct, lookup-erase}
use gstsmith_rs.Statsd.Worker.{Client, PadCursor, World, export_pad}
use gstsmith_rs.Statsd.Worker.Snapshot.{
  put, put_all, remove_retired, cursor_of, export_pads, snapshot_pads, has_id, retain,
  export_pad_snapshot,
}

module _ {ℓ} {V : Type ℓ} where
  lookup-put :
      (key id : ℕ) (v : V) (es : List (ℕ × V))
      → lookup id (put key v es) ≡ (if id == key then some v else lookup id es)
  unfolding put
  lookup-put key id v [] = refl
  lookup-put key id v (e ∷ es) =
      let ih = lookup-put key id v es in
      elim (Bool-cases (key == e.0)) [
        | inl h ↦ elim (Bool-cases (id == key)) [
          | inl k ↦ rw (h, k) refl
          | inr k ↦ let q : (id == e.0) ≡ false = ground arith in rw (h, k, q) refl
        ]
        | inr h ↦ elim (Bool-cases (id == key)) [
          | inl k ↦ let q : (id == e.0) ≡ false = ground arith in rw (h, q, ih, k) refl
          | inr k ↦ rw (h, ih, k) refl
        ]
      ]

  put-Distinct : (key : ℕ) (v : V) (es : List (ℕ × V)) → Distinct es → Distinct (put key v es)
  unfolding put
  put-Distinct key v [] d = (refl, tt)
  put-Distinct key v (e ∷ es) d =
      let ih = put-Distinct key v es d.1 in
      elim (Bool-cases (key == e.0)) [
        | inl h ↦ let q : key ≡ e.0 = (==_iff key e.0).0 h in rw (h, q) d
        | inr h ↦
            let q : (e.0 == key) ≡ false = ground arith in
            rw (h, lookup-put key e.0 v es, q) (d.0, ih)
      ]

put_all-Distinct :
    (ps : List PadStats) (es : List (ℕ × PadStats)) → Distinct es → Distinct (put_all ps es)
put_all-Distinct [] es d = d
put_all-Distinct (p ∷ ps) es d = put_all-Distinct ps (put p.id p es) (put-Distinct p.id p es d)

-- The last pad of a list with an identifier.
abbrev pub last_with : ℕ → List PadStats → Option PadStats
last_with id [] = none
last_with id (p ∷ ps) = elim (last_with id ps) [
  | none ↦ if id == p.id then some p else none
  | some q ↦ some q
]

abbrev pub or_else : Option PadStats → Option PadStats → Option PadStats
or_else none o = o
or_else (some p) o = some p

or_else-none : (o : Option PadStats) → or_else o none ≡ o
or_else-none none = refl
or_else-none (some p) = refl

lookup-put_all :
    (id : ℕ) (ps : List PadStats) (es : List (ℕ × PadStats))
    → lookup id (put_all ps es) ≡ or_else (last_with id ps) (lookup id es)
lookup-put_all id [] es = refl
lookup-put_all id (p ∷ ps) es =
    let ih = lookup-put_all id ps (put p.id p es) in
    let one = lookup-put p.id id p es in
    elim (Option-cases (last_with id ps)) [
      | inl n ↦ elim (Bool-cases (id == p.id)) [
        | inl k ↦ rw (ih, n, one, k) refl
        | inr k ↦ rw (ih, n, one, k) refl
      ]
      | inr (q, s) ↦ rw (ih, s) refl
    ]

-- Of any active and retired pads, in the order in which they came: a snapshot exports a series at
-- most once, and a series that is both active and retired with the retired pad's values.
pub lookup-snapshot_pads :
    (active retired : List PadStats)
    → Distinct (snapshot_pads active retired)
      × ((id : ℕ)
          → lookup id (snapshot_pads active retired)
            ≡ or_else (last_with id retired) (last_with id active))
unfolding snapshot_pads
lookup-snapshot_pads active retired = (
  put_all-Distinct retired (put_all active []) (put_all-Distinct active [] tt),
  λ id.
      let outer = lookup-put_all id retired (put_all active []) in
      let inner = lookup-put_all id active [] in
      rw (outer, inner, or_else-none (last_with id active)) refl,
)

-- Whether a pad is active and was not retired.
abbrev pub is_current : ℕ → List PadStats → List PadStats → Bool
is_current id active retired = has_id id active && not (has_id id retired)

lookup-retain :
    (active retired : List PadStats) (id : ℕ) (es : List (ℕ × PadCursor))
    → lookup id (retain active retired es)
      ≡ (if is_current id active retired then lookup id es else none)
unfolding retain
lookup-retain active retired id [] = elim (Bool-cases (is_current id active retired)) [
  | inl c ↦ rw c refl
  | inr c ↦ rw c refl
]
lookup-retain active retired id (e ∷ es) =
    let ih = lookup-retain active retired id es in
    elim (Bool-cases (id == e.0)) [
      | inl k ↦
          let same : id ≡ e.0 = (==_iff id e.0).0 k in
          let same_kept : is_current id active retired ≡ is_current e.0 active retired =
            ap (λ j. is_current j active retired) same in
          elim (Bool-cases (is_current e.0 active retired)) [
            | inl c ↦ rw (same_kept, c, k) refl
            | inr c ↦
                let d : is_current id active retired ≡ false = same_kept ∙ c in
                let ih' = rw d at ih in rw (d, c) ih'
          ]
      | inr k ↦ elim (Bool-cases (is_current e.0 active retired)) [
        | inl c ↦ rw (c, k) ih
        | inr c ↦ rw (c, k) ih
      ]
    ]

lookup-remove_retired :
    (id : ℕ) (retired : List PadStats) (es : List (ℕ × PadCursor))
    → has_id id retired ≡ false
    → lookup id (remove_retired retired es) ≡ lookup id es
lookup-remove_retired id [] es h = refl
lookup-remove_retired id (p ∷ ps) es h =
    let rest : has_id id ps ≡ false = ground arith in
    lookup-remove_retired id ps (erase p.id es) rest
    ∙ lookup-erase id p.id es (λ e. absurd (ground arith))

-- The pads of a snapshot stand at their identifiers.
abbrev AtIds : List (ℕ × PadStats) → Type 0
AtIds = All λ e. e.0 ≡ e.1.id

put-AtIds : (p : PadStats) (es : List (ℕ × PadStats)) → AtIds es → AtIds (put p.id p es)
unfolding put
put-AtIds p [] h = (refl, tt)
put-AtIds p (e ∷ es) h =
    let ih = put-AtIds p es h.1 in
    elim (Bool-cases (p.id == e.0)) [ inl k ↦ rw k (refl, h.1) | inr k ↦ rw k (h.0, ih) ]

put_all-AtIds : (ps : List PadStats) (es : List (ℕ × PadStats)) → AtIds es → AtIds (put_all ps es)
put_all-AtIds [] es h = h
put_all-AtIds (p ∷ ps) es h = put_all-AtIds ps (put p.id p es) (put-AtIds p es h)

or_true : (b : Bool) → (b || true) ≡ true
or_true true = refl
or_true false = refl

if_some :
    {A : Type 0} (b : Bool) (a : A) (o : Option A)
    → is_some o ≡ true
    → is_some (if b then some a else o) ≡ true
if_some true a o h = refl
if_some false a o h = h

last_with-some : (id : ℕ) (ps : List PadStats) → has_id id ps ≡ is_some (last_with id ps)
last_with-some id [] = refl
last_with-some id (p ∷ ps) =
    let ih = last_with-some id ps in
    elim (Option-cases (last_with id ps)) [
      | inl n ↦ elim (Bool-cases (id == p.id)) [
        | inl k ↦ let q : (p.id == id) ≡ true = ground arith in rw (q, n, k) refl
        | inr k ↦
            let q : (p.id == id) ≡ false = ground arith in let ih' = rw n at ih in rw (q, n, k) ih'
      ]
      | inr (q, s) ↦ let ih' = rw s at ih in rw (s, ih') (or_true (p.id == id))
    ]

or_else-some : (o q : Option PadStats) → is_some q ≡ true → is_some (or_else o q) ≡ true
or_else-some none q h = h
or_else-some (some p) q h = refl

found_active :
    (active retired : List PadStats) (id : ℕ)
    → has_id id active ≡ true
    → is_some (lookup id (snapshot_pads active retired)) ≡ true
found_active active retired id a =
    ap is_some ((lookup-snapshot_pads active retired).1 id)
    ∙ or_else-some (last_with id retired) (last_with id active) (sym (last_with-some id active) ∙ a)

module _ (client : Client) (id : ℕ) where
  -- An export never loses a cursor.
  export_pads-keeps :
      (pads : List (ℕ × PadStats)) (cursors : List (ℕ × PadCursor)) (w : World)
      → is_some (lookup id cursors) ≡ true
      → is_some (lookup id (export_pads client pads cursors w).0) ≡ true
  unfolding export_pads
  export_pads-keeps [] cursors w h = h
  export_pads-keeps ((k, pad) ∷ pads) cursors w h =
      let (cursor, w') = export_pad client pad (cursor_of pad.id cursors) w in
      export_pads-keeps pads (put pad.id cursor cursors) w' (
        ap is_some (lookup-put pad.id id cursor cursors)
        ∙ if_some (id == pad.id) cursor (lookup id cursors) h)

  -- And it leaves one for every pad.
  export_pads-finds :
      (pads : List (ℕ × PadStats)) (cursors : List (ℕ × PadCursor)) (w : World)
      → AtIds pads
      → is_some (lookup id pads) ≡ true
      → is_some (lookup id (export_pads client pads cursors w).0) ≡ true
  unfolding export_pads
  export_pads-finds [] cursors w a h = absurd (cc)
  export_pads-finds ((k, pad) ∷ pads) cursors w a h =
      let (cursor, w') = export_pad client pad (cursor_of pad.id cursors) w in
      elim (Bool-cases (id == k)) [
        | inl e ↦
            let q : (id == pad.id) ≡ true = let s = a.0 in ground arith in
            export_pads-keeps pads (put pad.id cursor cursors) w'
              (ap is_some (lookup-put pad.id id cursor cursors) ∙ rw q refl)
        | inr e ↦ let h' = rw e at h in export_pads-finds pads (put pad.id cursor cursors) w' a.1 h'
      ]

-- After a snapshot, whatever the client took of it: a series has a cursor exactly if its pad is
-- active and was not retired, and then it is the cursor that the export of the pads left.
pub export_pad_snapshot-is_current :
    (client : Client) (active retired : List PadStats) (cursors : List (ℕ × PadCursor)) (w : World)
    (id : ℕ)
    → let exported = (export_pads client (snapshot_pads active retired) cursors w).0 in
      let left = (export_pad_snapshot client active retired cursors w).0 in
      (is_some (lookup id left) ≡ has_id id active && not (has_id id retired))
      × (lookup id left
          ≡ (if has_id id active && not (has_id id retired) then lookup id exported else none))
unfolding export_pad_snapshot snapshot_pads
export_pad_snapshot-is_current client active retired cursors w id =
    let pads = snapshot_pads active retired in
    let exported = (export_pads client pads cursors w).0 in
    let e = lookup-retain active retired id (remove_retired retired exported) in
    elim (Bool-cases (is_current id active retired)) [
      | inr c ↦
          let gone : lookup id (retain active retired (remove_retired retired exported)) ≡ none =
            e ∙ rw c refl in
          (ap is_some gone ∙ sym c, gone ∙ rw c refl)
      | inl c ↦
          let (a, r) = and-eq-true (has_id id active) (not (has_id id retired)) c in
          let same : lookup id (retain active retired (remove_retired retired exported))
              ≡ lookup id exported =
            e ∙ rw c (lookup-remove_retired id retired exported (not-true (has_id id retired) r)) in
          let found : is_some (lookup id pads) ≡ true = found_active active retired id a in
          let kept =
            export_pads-finds client id pads cursors w
              (put_all-AtIds retired (put_all active []) (put_all-AtIds active [] tt)) found in
          (ap is_some same ∙ kept ∙ sym c, same ∙ rw c refl)
    ]
