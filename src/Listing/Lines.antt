-- ===== src/Listing/Lines.antt =====
-- How `getline` cuts a stream whose pieces all end in the delimiter.
use school_information_manag.Prelude.{
  ℕ, zero, suc, ◌≤◌, ◌<◌, ◌≡◌, refl, ap, ◌≢◌, some, List, [], ◌∷◌, ◌++◌, arith, length,
  length-append, All, Bytes,
}
use school_information_manag.Listing.{getline, getlines, lines_of}

-- The text does not hold this byte.
abbrev pub Lacks : ℕ → Bytes → Type 0
Lacks d = All (λ c. c ≢ d)

-- Each piece, followed by the delimiter.
unfoldable pub terminated : ℕ → List Bytes → Bytes
terminated d [] = []
terminated d (p ∷ ps) = p ++ d ∷ terminated d ps

getline-append : (d : ℕ) (p rest : Bytes) → Lacks d p → getline d (p ++ d ∷ rest) ≡ some (p, rest)
unfolding getline
getline-append d [] rest h = ground arith
getline-append d (c ∷ p) rest h = ground (arith, getline-append d p rest h.1)

getlines-terminated :
    (fuel d : ℕ) (ps : List Bytes)
    → All (Lacks d) ps
    → length ps < fuel
    → getlines fuel d (terminated d ps) ≡ ps
unfolding getlines terminated
getlines-terminated zero d ps h lt = absurd (omega arith)
getlines-terminated (suc fuel) d [] h lt = unfold getline in refl
getlines-terminated (suc fuel) d (p ∷ ps) h lt =
    rw (getline-append d p (terminated d ps) h.0, getlines)
      (ap (◌∷◌ p) (getlines-terminated fuel d ps h.1 (omega arith)))

length-le-terminated : (d : ℕ) (ps : List Bytes) → length ps ≤ length (terminated d ps)
unfolding terminated
length-le-terminated d [] = omega arith
length-le-terminated d (p ∷ ps) =
    omega (arith, length-append p (d ∷ terminated d ps), length-le-terminated d ps)

-- Reading the pieces back, with the fuel that the reader takes.
pub lines_of-terminated :
    (d : ℕ) (ps : List Bytes) → All (Lacks d) ps → lines_of d (terminated d ps) ≡ ps
unfolding lines_of
lines_of-terminated d ps h =
    getlines-terminated (suc (length (terminated d ps))) d ps h
      (omega (arith, length-le-terminated d ps))
