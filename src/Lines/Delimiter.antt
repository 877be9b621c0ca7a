-- ===== src/Lines/Delimiter.antt =====
-- Occurrences of a delimiter in a byte string, and what the crate memchr promises of
-- `memmem::find`, which text/lines/src/lineparse/imp.rs calls.
use native.Mathlib.Decide.{dec_lt}
use gstsmith_rs.Prelude.{
  ℕ, zero, suc, ◌+◌, ◌-◌, ◌≤◌, ◌<◌, ◌≡◌, refl, sym, ap, ◌∙◌, Bool, true, false, ◌&&◌, List, [], ◌∷◌,
  ◌++◌, Option, none, some, arith, ◌==◌, if◌then◌else◌, length, take, drop, ==_iff, ◌⊎◌, inl, inr,
  and-eq-true, drop-append, take-append-drop, drop-drop, length-drop,
}

abbrev pub Bytes : Type 0
Bytes = List ℕ

unfoldable pub starts_with : Bytes → Bytes → Bool
starts_with [] xs = true
starts_with (d ∷ ds) [] = false
starts_with (d ∷ ds) (x ∷ xs) = d == x && starts_with ds xs

-- `d` occurs in `xs` at index `p`.
abbrev pub Occurs : Bytes → Bytes → ℕ → Type 0
Occurs d xs p = starts_with d (drop p xs) ≡ true

-- `d` occurs in `xs` at no index below `n`.
abbrev pub Clear : Bytes → Bytes → ℕ → Type 0
Clear d xs n = (q : ℕ) → q < n → starts_with d (drop q xs) ≡ false

-- `d` occurs in `xs` nowhere.
abbrev pub Absent : Bytes → Bytes → Type 0
Absent d xs = (q : ℕ) → starts_with d (drop q xs) ≡ false

-- The first occurrence.
abbrev pub FirstAt : Bytes → Bytes → ℕ → Type 0
FirstAt d xs p = Occurs d xs p × Clear d xs p

abbrev pub Find : Type 0
Find = Bytes → Bytes → Option ℕ

-- The documented behaviour of `memmem::find(haystack, needle)`: the start of the first occurrence,
-- or none if there is no occurrence.
pub record MemmemLaws (find : Find) : Type 0 where
  pub found : (h n : Bytes) (p : ℕ) → find h n ≡ some p → FirstAt n h p
  pub missing : (h n : Bytes) → find h n ≡ none → Absent n h

pub starts_with-length : (d xs : Bytes) → starts_with d xs ≡ true → length d ≤ length xs
unfolding starts_with
starts_with-length [] xs h = omega arith
starts_with-length (d ∷ ds) [] h = absurd (cc)
starts_with-length (d ∷ ds) (x ∷ xs) h =
    omega (arith, starts_with-length ds xs (and-eq-true (d == x) _ h).1)

pub starts_with-append :
    (d xs ys : Bytes) → length d ≤ length xs → starts_with d (xs ++ ys) ≡ starts_with d xs
unfolding starts_with
starts_with-append [] xs ys h = refl
starts_with-append (d ∷ ds) [] ys h = absurd (omega arith)
starts_with-append (d ∷ ds) (x ∷ xs) ys h =
    ap (λ b. d == x && b) (starts_with-append ds xs ys (omega arith))

pub starts_with_self : (d ys : Bytes) → starts_with d (d ++ ys) ≡ true
unfolding starts_with
starts_with_self [] ys = refl
starts_with_self (d ∷ ds) ys = ground (arith, starts_with_self ds ys)

-- What starts with `d` is `d` and a rest.
pub starts_with-split : (d xs : Bytes) → starts_with d xs ≡ true → xs ≡ d ++ drop (length d) xs
unfolding starts_with
starts_with-split [] xs h = refl
starts_with-split (d ∷ ds) [] h = absurd (cc)
starts_with-split (d ∷ ds) (x ∷ xs) h =
    let e = (==_iff d x).0 (and-eq-true (d == x) _ h).0 in
    rw e (ap (◌∷◌ x) (starts_with-split ds xs (and-eq-true (d == x) _ h).1))

-- An occurrence splits the bytes in three.
pub Occurs-split :
    (d xs : Bytes) (p : ℕ) → Occurs d xs p → xs ≡ take p xs ++ (d ++ drop (p + length d) xs)
Occurs-split d xs p h =
    sym (take-append-drop p xs)
    ∙ ap (◌++◌ (take p xs)) (starts_with-split d (drop p xs) h ∙ ap (◌++◌ d) (drop-drop _ p xs))

pub Occurs-bound : (d xs : Bytes) (p : ℕ) → 0 < length d → Occurs d xs p → p + length d ≤ length xs
Occurs-bound d xs p h o = omega (arith, starts_with-length d (drop p xs) o, length-drop p xs)

-- An occurrence that ends inside `xs` is the same in every extension of `xs`.
pub starts_with-drop-append :
    (d xs ys : Bytes) (q : ℕ)
    → q + length d ≤ length xs
    → starts_with d (drop q (xs ++ ys)) ≡ starts_with d (drop q xs)
starts_with-drop-append d xs ys q h =
    ap (starts_with d) (drop-append q xs ys (omega arith))
    ∙ starts_with-append d (drop q xs) ys (omega (arith, length-drop q xs))

pub Clear-append :
    (d xs ys : Bytes) (n : ℕ)
    → Clear d xs n
    → (n ≡ 0) ⊎ (n + length d ≤ suc (length xs))
    → Clear d (xs ++ ys) n
Clear-append d xs ys n c (inl z) q h = absurd (omega arith)
Clear-append d xs ys n c (inr b) q h = starts_with-drop-append d xs ys q (omega arith) ∙ c q h

pub FirstAt-append :
    (d xs ys : Bytes) (p : ℕ) → 0 < length d → FirstAt d xs p → FirstAt d (xs ++ ys) p
FirstAt-append d xs ys p h f =
    let b = Occurs-bound d xs p h f.0 in
    (starts_with-drop-append d xs ys p b ∙ f.0, Clear-append d xs ys p f.1 (inr (omega arith)))

-- There is one first occurrence.
pub FirstAt-unique : (d xs : Bytes) (p q : ℕ) → FirstAt d xs p → FirstAt d xs q → p ≡ q
FirstAt-unique d xs p q f g = grind (arith, f.1 q, g.1 p)

pub Absent-FirstAt : (d xs : Bytes) (p : ℕ) → Absent d xs → FirstAt d xs p → ⊥
Absent-FirstAt d xs p a f = absurd (cc (a p, f.0))

-- An occurrence in a tail is one in the whole.
pub starts_with-drop-drop :
    (d xs : Bytes) (m r : ℕ) → starts_with d (drop r (drop m xs)) ≡ starts_with d (drop (m + r) xs)
starts_with-drop-drop d xs m r = ap (starts_with d) (drop-drop r m xs)

-- Past `m`, an index is `m` and the index in the tail.
pub starts_with_past :
    (d xs : Bytes) (m q : ℕ)
    → m ≤ q
    → starts_with d (drop q xs) ≡ starts_with d (drop (q - m) (drop m xs))
starts_with_past d xs m q h =
    let e : m + (q - m) ≡ q = omega arith in
    sym (starts_with-drop-drop d xs m (q - m) ∙ ap (λ k. starts_with d (drop k xs)) e)

pub Clear-past :
    (d xs : Bytes) (m r : ℕ) → Clear d xs m → Clear d (drop m xs) r → Clear d xs (m + r)
Clear-past d xs m r a b q h = elim (dec_lt q m) [
  | yes l ↦ a q l
  | no g ↦ starts_with_past d xs m q (omega arith) ∙ b (q - m) (omega arith)
]

-- A search by definition: it shows that the laws can hold.
unfoldable pub naive_find : Find
unfolding starts_with
naive_find [] n = if starts_with n [] then some 0 else none
naive_find (x ∷ xs) n =
    if starts_with n (x ∷ xs)
    then some 0
    else elim (naive_find xs n) [ none ↦ none | some p ↦ some (suc p) ]

naive_find-found : (h n : Bytes) (p : ℕ) → naive_find h n ≡ some p → FirstAt n h p
unfolding naive_find
naive_find-found [] n zero e = (ground arith, λ q h. absurd (omega arith))
naive_find-found [] n (suc p) e = absurd (ground arith)
naive_find-found (x ∷ xs) n zero e = (ground arith, λ q h. absurd (omega arith))
naive_find-found (x ∷ xs) n (suc p) e =
    let f = naive_find-found xs n p (ground arith) in
    let ne : starts_with n (x ∷ xs) ≡ false = ground arith in
    (f.0, elim [ zero ↦ λ h. ne | suc q ↦ λ h. f.1 q (omega arith) ])

naive_find-missing : (h n : Bytes) → naive_find h n ≡ none → Absent n h
unfolding naive_find
naive_find-missing [] n e zero = ground arith
naive_find-missing [] n e (suc q) = ground arith
naive_find-missing (x ∷ xs) n e zero = ground arith
naive_find-missing (x ∷ xs) n e (suc q) = naive_find-missing xs n (ground arith) q

pub naive_find_laws : MemmemLaws naive_find
naive_find_laws = record { found = naive_find-found; missing = naive_find-missing }
