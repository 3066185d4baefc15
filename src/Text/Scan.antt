-- ===== src/Text/Scan.antt =====
-- A reader of formatted text, written independently of the printer: quoted text ends at the next
-- quote, and a number at the first other character.
use school_information_manag.Prelude.{
  ℕ, suc, ◌<◌, ◌≡◌, refl, ◌≢◌, true, false, ◌||◌, Option, none, some, List, [], ◌∷◌, ◌++◌, arith,
  ◌==◌, if◌then◌else◌, All, Bytes, ℤ, pos, negsuc, length,
}
use school_information_manag.Text.{is_digit, format_d, format_blank_d, to_decimal, digits, atoi}
use school_information_manag.Text.Decimal.{
  IsInt, AreDigits, digits-AreDigits, digits_pos, atoi-format_d, atoi-format_blank_d,
}
use school_information_manag.Text.Format.{Piece, lit, str, num, blank_num, Arg, int, text, render}

abbrev pub quote : ℕ
quote = 39

-- The text in front of the next quote, and the rest.
unfoldable pub read_text : Bytes → Bytes × Bytes
read_text [] = ([], [])
read_text (c ∷ cs) =
    let (t, rest) = read_text cs in if c == quote then ([], c ∷ cs) else (c ∷ t, rest)

unfoldable pub read_digits : Bytes → Bytes × Bytes
read_digits [] = ([], [])
read_digits (c ∷ cs) =
    let (t, rest) = read_digits cs in if is_digit c then (c ∷ t, rest) else ([], c ∷ cs)

-- A blank or a sign, and digits.
unfoldable pub read_number : Bytes → Bytes × Bytes
read_number [] = ([], [])
read_number (c ∷ cs) =
    let (t, rest) = read_digits cs in
    if c == b'-' || c == 32 then (c ∷ t, rest) else read_digits (c ∷ cs)

abbrev pub cons_arg : Arg → Option (List Arg) → Option (List Arg)
cons_arg a none = none
cons_arg a (some args) = some (a ∷ args)

-- The arguments that were printed, where the text has the form of the pieces.
unfoldable pub scan : List Piece → Bytes → Option (List Arg)
scan [] [] = some []
scan [] (c ∷ s) = none
scan (lit c ∷ ps) [] = none
scan (lit c ∷ ps) (d ∷ s) = elim (c == d) [ true ↦ scan ps s | false ↦ none ]
scan (str ∷ ps) s = let (t, rest) = read_text s in cons_arg (text t) (scan ps rest)
scan (num ∷ ps) s = let (t, rest) = read_number s in cons_arg (int (atoi t)) (scan ps rest)
scan (blank_num ∷ ps) s = let (t, rest) = read_number s in cons_arg (int (atoi t)) (scan ps rest)

-- The text holds no quote.
abbrev pub IsQuoteFree : Bytes → Type 0
IsQuoteFree = All (λ c. c ≢ quote)

-- What stands behind a text, and behind a number.
abbrev pub Closes : List Piece → Type 0
Closes [] = ⊥
Closes (lit c ∷ ps) = c ≡ quote
Closes (str ∷ ps) = ⊥
Closes (num ∷ ps) = ⊥
Closes (blank_num ∷ ps) = ⊥

abbrev pub Ends : List Piece → Type 0
Ends [] = Unit
Ends (lit c ∷ ps) = is_digit c ≡ false
Ends (str ∷ ps) = ⊥
Ends (num ∷ ps) = ⊥
Ends (blank_num ∷ ps) = ⊥

-- The arguments can be told apart in the text: no quotes in texts, and numbers that fit an `int`.
abbrev pub Fits : List Piece → List Arg → Type 0
Fits [] [] = Unit
Fits [] (a ∷ args) = ⊥
Fits (lit c ∷ ps) args = Fits ps args
Fits (str ∷ ps) [] = ⊥
Fits (str ∷ ps) (int z ∷ args) = ⊥
Fits (str ∷ ps) (text t ∷ args) = IsQuoteFree t × Closes ps × Fits ps args
Fits (num ∷ ps) [] = ⊥
Fits (num ∷ ps) (text t ∷ args) = ⊥
Fits (num ∷ ps) (int z ∷ args) = IsInt z × Ends ps × Fits ps args
Fits (blank_num ∷ ps) [] = ⊥
Fits (blank_num ∷ ps) (text t ∷ args) = ⊥
Fits (blank_num ∷ ps) (int z ∷ args) = IsInt z × Ends ps × Fits ps args

read_text-append :
    (t rest : Bytes) → IsQuoteFree t → read_text (t ++ quote ∷ rest) ≡ (t, quote ∷ rest)
unfolding read_text
read_text-append [] rest h = refl
read_text-append (c ∷ t) rest h = ground (arith, read_text-append t rest h.1, h.0)

-- The text begins with no digit.
abbrev Starts : Bytes → Type 0
Starts [] = Unit
Starts (c ∷ s) = is_digit c ≡ false

read_digits-stop : (rest : Bytes) → Starts rest → read_digits rest ≡ ([], rest)
unfolding read_digits
read_digits-stop [] h = refl
read_digits-stop (c ∷ s) h = rw h refl

read_digits-append :
    (t rest : Bytes) → AreDigits t → Starts rest → read_digits (t ++ rest) ≡ (t, rest)
unfolding read_digits
read_digits-append [] rest h s = read_digits-stop rest s
read_digits-append (c ∷ t) rest h s = ground (arith, read_digits-append t rest h.1 s, h.0)

read_number-digits :
    (t rest : Bytes)
    → AreDigits t
    → 0 < length t
    → Starts rest
    → read_number (t ++ rest) ≡ (t, rest)
unfolding read_number
read_number-digits [] rest h n s = absurd (omega arith)
read_number-digits (c ∷ t) rest h n s = ground (arith, read_digits-append (c ∷ t) rest h s, h.0)

read_number-minus :
    (t rest : Bytes) → AreDigits t → Starts rest → read_number (b'-' ∷ t ++ rest) ≡ (b'-' ∷ t, rest)
unfolding read_number
read_number-minus t rest h s = rw (read_digits-append t rest h s) refl

read_number-blank :
    (t rest : Bytes) → AreDigits t → Starts rest → read_number (32 ∷ t ++ rest) ≡ (32 ∷ t, rest)
unfolding read_number
read_number-blank t rest h s = rw (read_digits-append t rest h s) refl

read_number-format_d :
    (z : ℤ) (rest : Bytes) → Starts rest → read_number (format_d z ++ rest) ≡ (format_d z, rest)
unfolding format_d to_decimal
read_number-format_d (pos n) rest s =
    read_number-digits (digits (suc n) n) rest (digits-AreDigits (suc n) n) (digits_pos n n) s
read_number-format_d (negsuc n) rest s =
    read_number-minus (digits (suc (suc n)) (suc n)) rest (digits-AreDigits (suc (suc n)) (suc n)) s

read_number-format_blank_d :
    (z : ℤ) (rest : Bytes)
    → Starts rest
    → read_number (format_blank_d z ++ rest) ≡ (format_blank_d z, rest)
unfolding format_blank_d to_decimal
read_number-format_blank_d (pos n) rest s =
    read_number-blank (digits (suc n) n) rest (digits-AreDigits (suc n) n) s
read_number-format_blank_d (negsuc n) rest s =
    read_number-minus (digits (suc (suc n)) (suc n)) rest (digits-AreDigits (suc (suc n)) (suc n)) s

Starts-render : (ps : List Piece) (args : List Arg) → Ends ps → Starts (render ps args)
unfolding render
Starts-render [] args h = tt
Starts-render (lit c ∷ ps) args h = h
Starts-render (str ∷ ps) args h = absurd h
Starts-render (num ∷ ps) args h = absurd h
Starts-render (blank_num ∷ ps) args h = absurd h

-- A quoted text is read back, with what stands behind it.
read_text-render :
    (t : Bytes) (ps : List Piece) (args : List Arg)
    → IsQuoteFree t
    → Closes ps
    → read_text (t ++ render ps args) ≡ (t, render ps args)
unfolding render
read_text-render t [] args h k = absurd k
read_text-render t (lit c ∷ ps) args h k = rw k (read_text-append t (render ps args) h)
read_text-render t (str ∷ ps) args h k = absurd k
read_text-render t (num ∷ ps) args h k = absurd k
read_text-render t (blank_num ∷ ps) args h k = absurd k

-- Whatever is printed so is read back.
pub scan-render :
    (ps : List Piece) (args : List Arg) → Fits ps args → scan ps (render ps args) ≡ some args
unfolding scan render
scan-render [] [] h = refl
scan-render [] (a ∷ args) h = absurd h
scan-render (lit c ∷ ps) args h = ground (arith, scan-render ps args h)
scan-render (str ∷ ps) [] h = absurd h
scan-render (str ∷ ps) (int z ∷ args) h = absurd h
scan-render (str ∷ ps) (text t ∷ args) h =
    rw (read_text-render t ps args h.0 h.1) (rw (scan-render ps args h.2) refl)
scan-render (num ∷ ps) [] h = absurd h
scan-render (num ∷ ps) (text t ∷ args) h = absurd h
scan-render (num ∷ ps) (int z ∷ args) h =
    rw (read_number-format_d z (render ps args) (Starts-render ps args h.1))
      (rw (scan-render ps args h.2) (rw (atoi-format_d z h.0) refl))
scan-render (blank_num ∷ ps) [] h = absurd h
scan-render (blank_num ∷ ps) (text t ∷ args) h = absurd h
scan-render (blank_num ∷ ps) (int z ∷ args) h =
    rw (read_number-format_blank_d z (render ps args) (Starts-render ps args h.1))
      (rw (scan-render ps args h.2) (rw (atoi-format_blank_d z h.0) refl))
