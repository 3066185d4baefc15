-- ===== src/Text/Parts.antt =====
-- Reading a text that is put together of formatted parts, some of which may be left out.
use school_information_manag.Prelude.{
  ◌≡◌, refl, ap, Bool, true, false, List, [], ◌∷◌, ◌++◌, append_assoc, if◌then◌else◌, Bytes,
}
use school_information_manag.Text.Format.{
  Piece, lit, str, num, blank_num, Arg, int, text, plain, pieces, render, format,
}
use school_information_manag.Text.Scan.{Fits}

-- The last piece, if there is one, is no conversion.
abbrev pub EndsLit : List Piece → Type 0
EndsLit [] = Unit
EndsLit (lit c ∷ ps) = EndsLit ps
EndsLit (str ∷ []) = ⊥
EndsLit (num ∷ []) = ⊥
EndsLit (blank_num ∷ []) = ⊥
EndsLit (str ∷ p ∷ ps) = EndsLit (p ∷ ps)
EndsLit (num ∷ p ∷ ps) = EndsLit (p ∷ ps)
EndsLit (blank_num ∷ p ∷ ps) = EndsLit (p ∷ ps)

module _ (qs : List Piece) (more : List Arg) (rest : Fits qs more) where
  pub Fits-append :
      (ps : List Piece) (args : List Arg)
      → EndsLit ps
      → Fits ps args
      → Fits (ps ++ qs) (args ++ more)
  Fits-append [] [] e h = rest
  Fits-append [] (a ∷ args) e h = absurd h
  Fits-append (lit c ∷ ps) args e h = Fits-append ps args e h
  Fits-append (str ∷ ps) [] e h = absurd h
  Fits-append (str ∷ ps) (int z ∷ args) e h = absurd h
  Fits-append (str ∷ []) (text t ∷ args) e h = absurd e
  Fits-append (str ∷ lit c ∷ ps) (text t ∷ args) e h =
      (h.0, h.1, Fits-append (lit c ∷ ps) args e h.2)
  Fits-append (str ∷ str ∷ ps) (text t ∷ args) e h = absurd h.1
  Fits-append (str ∷ num ∷ ps) (text t ∷ args) e h = absurd h.1
  Fits-append (str ∷ blank_num ∷ ps) (text t ∷ args) e h = absurd h.1
  Fits-append (num ∷ ps) [] e h = absurd h
  Fits-append (num ∷ ps) (text t ∷ args) e h = absurd h
  Fits-append (num ∷ []) (int z ∷ args) e h = absurd e
  Fits-append (num ∷ lit c ∷ ps) (int z ∷ args) e h =
      (h.0, h.1, Fits-append (lit c ∷ ps) args e h.2)
  Fits-append (num ∷ str ∷ ps) (int z ∷ args) e h = absurd h.1
  Fits-append (num ∷ num ∷ ps) (int z ∷ args) e h = absurd h.1
  Fits-append (num ∷ blank_num ∷ ps) (int z ∷ args) e h = absurd h.1
  Fits-append (blank_num ∷ ps) [] e h = absurd h
  Fits-append (blank_num ∷ ps) (text t ∷ args) e h = absurd h
  Fits-append (blank_num ∷ []) (int z ∷ args) e h = absurd e
  Fits-append (blank_num ∷ lit c ∷ ps) (int z ∷ args) e h =
      (h.0, h.1, Fits-append (lit c ∷ ps) args e h.2)
  Fits-append (blank_num ∷ str ∷ ps) (int z ∷ args) e h = absurd h.1
  Fits-append (blank_num ∷ num ∷ ps) (int z ∷ args) e h = absurd h.1
  Fits-append (blank_num ∷ blank_num ∷ ps) (int z ∷ args) e h = absurd h.1

pub render-append :
    (ps qs : List Piece) (args more : List Arg)
    → Fits ps args
    → render (ps ++ qs) (args ++ more) ≡ render ps args ++ render qs more
unfolding render
render-append [] qs [] more h = refl
render-append [] qs (a ∷ args) more h = absurd h
render-append (lit c ∷ ps) qs args more h = ap (◌∷◌ c) (render-append ps qs args more h)
render-append (str ∷ ps) qs [] more h = absurd h
render-append (str ∷ ps) qs (int z ∷ args) more h = absurd h
render-append (str ∷ ps) qs (text t ∷ args) more h =
    rw (render-append ps qs args more h.2) (rw append_assoc refl)
render-append (num ∷ ps) qs [] more h = absurd h
render-append (num ∷ ps) qs (text t ∷ args) more h = absurd h
render-append (num ∷ ps) qs (int z ∷ args) more h =
    rw (render-append ps qs args more h.2) (rw append_assoc refl)
render-append (blank_num ∷ ps) qs [] more h = absurd h
render-append (blank_num ∷ ps) qs (text t ∷ args) more h = absurd h
render-append (blank_num ∷ ps) qs (int z ∷ args) more h =
    rw (render-append ps qs args more h.2) (rw append_assoc refl)

-- A text that is printed with these pieces and arguments, and can be continued.
pub record Part (s : Bytes) (ps : List Piece) (args : List Arg) : Type 0 where
  pub printed : s ≡ render ps args
  pub open_end : EndsLit ps
  pub fits : Fits ps args

pub format-Part :
    (fmt : Bytes) (args : List Arg)
    → EndsLit (pieces plain fmt)
    → Fits (pieces plain fmt) args
    → Part (format fmt args) (pieces plain fmt) args
unfolding format
format-Part fmt args e h = record { printed = refl; open_end = e; fits = h }

EndsLit-append : (ps qs : List Piece) → EndsLit ps → EndsLit qs → EndsLit (ps ++ qs)
EndsLit-append [] qs h k = k
EndsLit-append (lit c ∷ ps) qs h k = EndsLit-append ps qs h k
EndsLit-append (str ∷ []) qs h k = absurd h
EndsLit-append (num ∷ []) qs h k = absurd h
EndsLit-append (blank_num ∷ []) qs h k = absurd h
EndsLit-append (str ∷ p ∷ ps) qs h k = EndsLit-append (p ∷ ps) qs h k
EndsLit-append (num ∷ p ∷ ps) qs h k = EndsLit-append (p ∷ ps) qs h k
EndsLit-append (blank_num ∷ p ∷ ps) qs h k = EndsLit-append (p ∷ ps) qs h k

pub Part-append :
    {s t : Bytes} {ps qs : List Piece} {args more : List Arg}
    → Part s ps args
    → Part t qs more
    → Part (s ++ t) (ps ++ qs) (args ++ more)
Part-append {s} {t} {ps} {qs} {args} {more} p q = record {
  printed = rw (p.printed, q.printed) (rw (render-append ps qs args more p.fits) refl);
  open_end = EndsLit-append ps qs p.open_end q.open_end;
  fits = Fits-append qs more q.fits ps args p.open_end p.fits;
}

pub unless-Part :
    (b : Bool) {s : Bytes} {ps : List Piece} {args : List Arg}
    → Part s ps args
    → Part (if b then [] else s) (if b then [] else ps) (if b then [] else args)
unless-Part true p = unfold render in record { printed = refl; open_end = tt; fits = tt }
unless-Part false p = p
