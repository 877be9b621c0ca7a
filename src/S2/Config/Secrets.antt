-- ===== src/S2/Config/Secrets.antt =====
-- The line ending of a secret's file: net/s2/src/config.rs, `load_secret_file`.
use gstsmith_rs.Prelude.{
  ℕ, ◌≡◌, refl, ap, Bool, false, some, List, [], ◌∷◌, ◌++◌, ◌==◌, is_empty, Text, ok,
}
use gstsmith_rs.S2.Config.{Host, chop_line_end, load_secret_file}

abbrev pub ends_with_cr : Text → Bool
ends_with_cr [] = false
ends_with_cr (c ∷ []) = c == 13
ends_with_cr (c ∷ d ∷ cs) = ends_with_cr (d ∷ cs)

chop_crlf : (t : Text) → chop_line_end (t ++ 13 ∷ 10 ∷ []) ≡ t
unfolding chop_line_end
chop_crlf [] = refl
chop_crlf (c ∷ []) = refl
chop_crlf (c ∷ d ∷ []) = refl
chop_crlf (c ∷ d ∷ e ∷ cs) = ap (◌∷◌ c) (chop_crlf (d ∷ e ∷ cs))

chop_lf : (t : Text) → ends_with_cr t ≡ false → chop_line_end (t ++ 10 ∷ []) ≡ t
unfolding chop_line_end
chop_lf [] h = refl
chop_lf (c ∷ []) h = rw h refl
chop_lf (c ∷ d ∷ []) h = rw h refl
chop_lf (c ∷ d ∷ e ∷ cs) h = ap (◌∷◌ c) (chop_lf (d ∷ e ∷ cs) h)

-- A line ending that can be told from the text before it.
pub data LineEnd : Text → Text → Type 0 where
  crlf : {t : Text} → LineEnd t (13 ∷ 10 ∷ [])
  lf : {t : Text} → ends_with_cr t ≡ false → LineEnd t (10 ∷ [])

chop-LineEnd : {t ending : Text} → LineEnd t ending → chop_line_end (t ++ ending) ≡ t
chop-LineEnd {t} crlf = chop_crlf t
chop-LineEnd {t} (lf h) = chop_lf t h

-- A secret that is not empty, with one line ending behind it, is read as it was written. Before a
-- plain line feed the secret must not end in a carriage return, which would belong to the ending.
pub load_secret_file-LineEnd :
    (host : Host) (path t ending : Text) (bytes : List ℕ)
    → host.read path ≡ some bytes
    → host.from_utf8 bytes ≡ some (t ++ ending)
    → LineEnd t ending
    → is_empty t ≡ false
    → load_secret_file host path ≡ ok t
unfolding load_secret_file
load_secret_file-LineEnd host path t ending bytes r u l full = rw (r, u, chop-LineEnd l, full) refl
