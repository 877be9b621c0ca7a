-- ===== src/Lines/Framing.antt =====
-- The meaning of delimiter framing, with no state and no chunks: how a byte stream is cut into
-- records. text/lines/src/lineparse/imp.rs is held to it.
use gstsmith_rs.Prelude.{
  ℕ, ◌+◌, ◌<◌, ◌≡◌, refl, sym, ap, subst, ◌∙◌, List, [], ◌∷◌, ◌++◌, arith, length, take, drop,
  drop-append, take-append, drop-drop, length-take,
}
use gstsmith_rs.Lines.Delimiter.{
  Bytes, Absent, FirstAt, FirstAt-append, FirstAt-unique, Absent-FirstAt, Occurs-bound,
  Occurs-split,
}

module _ (d : Bytes) where
  -- `xs` is the records in order, each closed by its first delimiter, and then `rest`.
  pub data Cuts : Bytes → List Bytes → Bytes → Type 0 where
    uncut : {xs : Bytes} → Cuts xs [] xs
    cut :
        {xs rest : Bytes} {rs : List Bytes} (p : ℕ)
        → FirstAt d xs p
        → Cuts (drop (p + length d) xs) rs rest
        → Cuts xs (take p xs ∷ rs) rest

  -- The records with their delimiters put back.
  unfoldable pub joined : List Bytes → Bytes → Bytes
  joined [] rest = rest
  joined (r ∷ rs) rest = r ++ (d ++ joined rs rest)

  -- The bytes that the records take.
  unfoldable pub taken : List Bytes → ℕ
  taken [] = 0
  taken (r ∷ rs) = length r + length d + taken rs

  pub Cuts-joined : {xs rest : Bytes} {rs : List Bytes} → Cuts xs rs rest → xs ≡ joined rs rest
  unfolding joined
  Cuts-joined uncut = refl
  Cuts-joined {xs} (cut p f c) =
      Occurs-split d xs p f.0 ∙ ap (λ t. take p xs ++ (d ++ t)) (Cuts-joined c)

module _ (d : Bytes) (nonempty : 0 < length d) where
  pub Cuts-append :
      {xs rest : Bytes} {rs : List Bytes} (more : Bytes)
      → Cuts d xs rs rest
      → Cuts d (xs ++ more) rs (rest ++ more)
  Cuts-append more uncut = uncut
  Cuts-append {xs} {rest} {rs} more (cut {rs = ts} p f c) =
      let b = Occurs-bound d xs p nonempty f.0 in
      let tail = rw (← drop-append (p + length d) xs more b) at (Cuts-append more c) in
      rw (← take-append p xs more (omega arith))
        (cut p (FirstAt-append d xs more p nonempty f) tail)

  -- One more record off the rest.
  pub Cuts-concat :
      {xs rest : Bytes} {rs : List Bytes} (p : ℕ)
      → Cuts d xs rs rest
      → FirstAt d rest p
      → Cuts d xs (rs ++ take p rest ∷ []) (drop (p + length d) rest)
  Cuts-concat p uncut f = cut p f uncut
  Cuts-concat p (cut q g c) f = cut q g (Cuts-concat p c f)

  -- The rest is what the records leave.
  pub Cuts-rest :
      {xs rest : Bytes} {rs : List Bytes} → Cuts d xs rs rest → rest ≡ drop (taken d rs) xs
  unfolding taken
  Cuts-rest uncut = refl
  Cuts-rest {xs} (cut {rs = ts} p f c) =
      let inside = Occurs-bound d xs p nonempty f.0 in
      let e : p + length d + taken d ts ≡ length (take p xs) + length d + taken d ts =
        omega (arith, length-take p xs) in
      Cuts-rest c ∙ drop-drop (taken d ts) (p + length d) xs ∙ ap (λ k. drop k xs) e

  -- Bytes are cut to the end in one way only.
  pub Cuts-unique :
      {xs rest rest' : Bytes} {rs rs' : List Bytes}
      → Cuts d xs rs rest
      → Absent d rest
      → Cuts d xs rs' rest'
      → Absent d rest'
      → rs ≡ rs'
  Cuts-unique uncut a uncut a' = refl
  Cuts-unique uncut a (cut p f c) a' = absurd (Absent-FirstAt d _ p a f)
  Cuts-unique (cut p f c) a uncut a' = absurd (Absent-FirstAt d _ p a' f)
  Cuts-unique {xs} {rest' = rest'} (cut {rs = ts} p f c) a (cut {rs = us} q g c') a' =
      let e : p ≡ q = FirstAt-unique d xs p q f g in
      let c'' = subst (λ k. Cuts d (drop (k + length d) xs) us rest') (sym e) c' in
      subst (λ k. take p xs ∷ ts ≡ take k xs ∷ us) e (ap (◌∷◌ (take p xs)) (Cuts-unique c a c'' a'))
