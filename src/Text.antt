-- ===== src/Text.antt =====
-- The C library's conversions that both programs use: `atoi`, `%d` and `std::to_string`.
pub mod Decimal
pub mod Format
pub mod Scan
pub mod Parts
use school_information_manag.Prelude.{
  ℕ, zero, suc, ◌+◌, ◌-◌, ◌*◌, ◌/◌, ◌%◌, ◌^◌, Bool, ◌&&◌, ◌||◌, [], ◌∷◌, ◌++◌, ltb, leb, ◌==◌,
  if◌then◌else◌, Bytes, ℤ, pos, negsuc,
}

abbrev pub is_digit : ℕ → Bool
is_digit c = leb b'0' c && leb c b'9'

abbrev pub is_space : ℕ → Bool
is_space c = c == 32 || (leb 9 c && leb c 13)

-- The digits of a number, the highest first, with fuel.
unfoldable pub digits : ℕ → ℕ → Bytes
digits zero n = []
digits (suc fuel) n =
    let higher = digits fuel (n / 10) ++ (b'0' + n % 10) ∷ [] in
    if ltb n 10 then (b'0' + n) ∷ [] else higher

-- `std::to_string`; a number is above the count of its digits, so the fuel is enough.
unfoldable pub to_decimal : ℕ → Bytes
to_decimal n = digits (suc n) n

-- `%d`
unfoldable pub format_d : ℤ → Bytes
format_d (pos n) = to_decimal n
format_d (negsuc n) = b'-' ∷ to_decimal (suc n)

-- `% d`: a blank in front of a number that has no sign.
unfoldable pub format_blank_d : ℤ → Bytes
format_blank_d (pos n) = 32 ∷ to_decimal n
format_blank_d (negsuc n) = b'-' ∷ to_decimal (suc n)

unfoldable pub digits_value : ℕ → Bytes → ℕ
digits_value acc [] = acc
digits_value acc (c ∷ cs) =
    let rest = digits_value (acc * 10 + (c - b'0')) cs in if is_digit c then rest else acc

abbrev pub int_max : ℕ
int_max = 2 ^ 31 - 1

-- The C runtime stops at the ends of the range of `int`.
abbrev pub clamp_pos : ℕ → ℤ
clamp_pos n = if leb n int_max then pos n else pos int_max

abbrev pub clamp_neg : ℕ → ℤ
clamp_neg zero = pos 0
clamp_neg (suc n) = if leb n int_max then negsuc n else negsuc int_max

unfoldable pub signed_value : Bytes → ℤ
signed_value [] = pos 0
signed_value (c ∷ cs) =
    if c == b'-'
    then clamp_neg (digits_value 0 cs)
    else if c == b'+'
    then clamp_pos (digits_value 0 cs)
    else clamp_pos (digits_value 0 (c ∷ cs))

-- `atoi`: blanks, a sign, digits up to the first other character.
unfoldable pub atoi : Bytes → ℤ
atoi [] = pos 0
atoi (c ∷ cs) = let rest = atoi cs in if is_space c then rest else signed_value (c ∷ cs)
