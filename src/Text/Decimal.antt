-- ===== src/Text/Decimal.antt =====
-- `atoi` on what `%d` and `% d` print.
use school_information_manag.Prelude.{
  ℕ, zero, suc, ◌+◌, ◌-◌, ◌*◌, ◌/◌, ◌%◌, ◌≤◌, ◌<◌, ◌≡◌, refl, ◌∙◌, inl, inr, [], ◌∷◌, ◌++◌, arith,
  ltb, leb, leb→le, ◌==◌, ltb→lt, Bool-cases, length, length-append, All, All-append, Bytes, ℤ, pos,
  negsuc,
}
use school_information_manag.Text.{
  is_space, digits, to_decimal, format_d, format_blank_d, digits_value, int_max, clamp_pos,
  clamp_neg, signed_value, atoi,
}

abbrev pub AreDigits : Bytes → Type 0
AreDigits = All (λ c. (b'0' ≤ c) × (c ≤ b'9'))

digits_value-append :
    (acc : ℕ) (s : Bytes) (d : ℕ)
    → AreDigits s
    → d < 10
    → digits_value acc (s ++ (b'0' + d) ∷ []) ≡ digits_value acc s * 10 + d
unfolding digits_value
digits_value-append acc [] d h k = ground arith
digits_value-append acc (c ∷ s) d h k =
    ground (arith, digits_value-append (acc * 10 + (c - b'0')) s d h.1 k, h.0)

pub digits-AreDigits : (fuel n : ℕ) → AreDigits (digits fuel n)
unfolding digits
digits-AreDigits zero n = tt
digits-AreDigits (suc fuel) n = elim (Bool-cases (ltb n 10)) [
  | inl e ↦ rw e ((omega arith, omega (arith, ltb→lt n 10 e)), tt)
  | inr e ↦ rw e (
      All-append _ (digits fuel (n / 10)) _ (digits-AreDigits fuel (n / 10))
        ((omega arith, omega arith), tt))
]

digits_value-digits : (fuel n : ℕ) → n < fuel → digits_value 0 (digits fuel n) ≡ n
unfolding digits
digits_value-digits zero n h = absurd (omega arith)
digits_value-digits (suc fuel) n h = elim (Bool-cases (ltb n 10)) [
  | inl e ↦ rw e (unfold digits_value in ground (arith, ltb→lt n 10 e))
  | inr e ↦ rw e (
      digits_value-append 0 (digits fuel (n / 10)) (n % 10) (digits-AreDigits fuel (n / 10))
        (omega arith)
      ∙ omega (arith, digits_value-digits fuel (n / 10) (ground arith)))
]

-- A number begins with a digit, so `atoi` skips nothing and sees no sign.
atoi_of_digits : (s : Bytes) → 0 < length s → AreDigits s → atoi s ≡ clamp_pos (digits_value 0 s)
unfolding atoi signed_value
atoi_of_digits [] h k = absurd (omega arith)
atoi_of_digits (c ∷ s) h k = ground (arith, k.0)

pub digits_pos : (fuel n : ℕ) → 0 < length (digits (suc fuel) n)
unfolding digits
digits_pos fuel n = elim (Bool-cases (ltb n 10)) [
  | inl e ↦ rw e (omega arith)
  | inr e ↦ rw e (omega (arith, length-append (digits fuel (n / 10)) ((b'0' + n % 10) ∷ [])))
]

pub atoi-to_decimal : (n : ℕ) → n ≤ int_max → atoi (to_decimal n) ≡ pos n
unfolding to_decimal
atoi-to_decimal n h =
    atoi_of_digits (digits (suc n) n) (digits_pos n n) (digits-AreDigits (suc n) n)
    ∙ rw (digits_value-digits (suc n) n (omega arith)) (ground arith)

-- The values of `int`.
abbrev pub IsInt : ℤ → Type 0
IsInt (pos n) = n ≤ int_max
IsInt (negsuc n) = n ≤ int_max

atoi_minus : (s : Bytes) → atoi (b'-' ∷ s) ≡ clamp_neg (digits_value 0 s)
unfolding atoi signed_value
atoi_minus s = refl

atoi_blank : (s : Bytes) → atoi (32 ∷ s) ≡ atoi s
unfolding atoi
atoi_blank s = refl

-- `atoi` reads back every `int` that `%d` printed.
pub atoi-format_d : (z : ℤ) → IsInt z → atoi (format_d z) ≡ z
unfolding format_d
atoi-format_d (pos n) h = atoi-to_decimal n h
atoi-format_d (negsuc n) h =
    atoi_minus (to_decimal (suc n))
    ∙ unfold to_decimal in
      rw (digits_value-digits (suc (suc n)) (suc n) (omega arith)) (ground arith)

-- The blank of `% d` is skipped.
pub atoi-format_blank_d : (z : ℤ) → IsInt z → atoi (format_blank_d z) ≡ z
unfolding format_blank_d
atoi-format_blank_d (pos n) h = atoi_blank (to_decimal n) ∙ atoi-to_decimal n h
atoi-format_blank_d (negsuc n) h = unfold format_d in atoi-format_d (negsuc n) h

clamp_pos-IsInt : (n : ℕ) → IsInt (clamp_pos n)
clamp_pos-IsInt n = elim (Bool-cases (leb n int_max)) [
  | inl e ↦ rw e (leb→le n int_max e)
  | inr e ↦ rw e (omega arith)
]

clamp_neg-IsInt : (n : ℕ) → IsInt (clamp_neg n)
clamp_neg-IsInt zero = omega arith
clamp_neg-IsInt (suc n) = elim (Bool-cases (leb n int_max)) [
  | inl e ↦ rw e (leb→le n int_max e)
  | inr e ↦ rw e (omega arith)
]

signed_value-IsInt : (s : Bytes) → IsInt (signed_value s)
unfolding signed_value
signed_value-IsInt [] = omega arith
signed_value-IsInt (c ∷ cs) = elim (Bool-cases (c == b'-')) [
  | inl e ↦ rw e (clamp_neg-IsInt (digits_value 0 cs))
  | inr e ↦ rw e (elim (Bool-cases (c == b'+')) [
    | inl f ↦ rw f (clamp_pos-IsInt (digits_value 0 cs))
    | inr f ↦ rw f (clamp_pos-IsInt (digits_value 0 (c ∷ cs)))
  ])
]

-- Whatever text `atoi` reads, the result is an `int`.
pub atoi-IsInt : (s : Bytes) → IsInt (atoi s)
unfolding atoi
atoi-IsInt [] = omega arith
atoi-IsInt (c ∷ cs) = elim (Bool-cases (is_space c)) [
  | inl e ↦ rw e (atoi-IsInt cs)
  | inr e ↦ rw e (signed_value-IsInt (c ∷ cs))
]
