-- ===== src/Client/Login/Answers.antt =====
-- The login's thread (StudentManagementClient/StudentManagementDlg.cpp) and what it receives.
use school_information_manag.Prelude.{
  ℕ, zero, suc, ◌+◌, ◌≤◌, ◌<◌, ◌≡◌, refl, ap, sym, ◌∙◌, arith, false, none, some, List, [], ◌∷◌,
  ◌++◌, Bool-cases, inl, inr, length, length-append, take-all, drop-all, Bytes, codes, bytes_eq,
  bytes_eq_sound,
}
use school_information_manag.Net.{Arrival, got, closed, recv}
use school_information_manag.Listing.{c_str}
use school_information_manag.Client.Login.{
  Login, waiting, again, on_login_bytes, work_round, work_thread,
}

length-le-c_str : (s : Bytes) → length (c_str s) ≤ length s
unfolding c_str
length-le-c_str [] = omega arith
length-le-c_str (c ∷ cs) = ground (arith, length-le-c_str cs)

-- Text that is too short is no answer.
short_unlike : (bs answer : Bytes) → length bs < length answer → bytes_eq (c_str bs) answer ≡ false
short_unlike bs answer h = elim (Bool-cases (bytes_eq (c_str bs) answer)) [
  | inl e ↦
      let same : length (c_str bs) ≡ length answer =
        ap length (bytes_eq_sound (c_str bs) answer e) in
      absurd (omega (arith, same, length-le-c_str bs))
  | inr e ↦ e
]

on_login_bytes_short : (bs : Bytes) (w : Login) → length bs < 8 → on_login_bytes bs w ≡ again w
unfolding on_login_bytes
on_login_bytes_short bs w h =
    rw (short_unlike bs (codes "LOGIN_OK") (omega (arith, h)))
      (rw (short_unlike bs (codes "LOGIN_ERR") (omega (arith, h))) (ground arith))

pub work_round_got :
    (b : ℕ) (bs : Bytes) (later : List Arrival) (posted : List ℕ)
    → length (b ∷ bs) ≤ 50
    → work_round (record { inbox = got b bs ∷ later; exit = false; posted = posted })
      ≡ on_login_bytes (b ∷ bs) (record { inbox = later; exit = false; posted = posted })
unfolding work_round recv
work_round_got b bs later posted h =
    rw (take-all 49 bs (omega (arith, h))) (rw (drop-all 49 bs (omega (arith, h))) refl)

work_thread_short :
    (fuel b : ℕ) (bs : Bytes) (later : List Arrival) (posted : List ℕ)
    → length (b ∷ bs) < 8
    → work_thread (suc fuel) (record { inbox = got b bs ∷ later; exit = false; posted = posted })
      ≡ work_thread fuel (record { inbox = later; exit = false; posted = posted })
unfolding work_thread
work_thread_short fuel b bs later posted h =
    rw (work_thread, work_round_got b bs later posted (omega (arith, h)))
      (rw
        (on_login_bytes_short (b ∷ bs) (record { inbox = later; exit = false; posted = posted }) h)
        refl)

-- When the network cuts the answer LOGIN_OK in two, the thread takes neither part for an answer: it
-- posts nothing and waits on, with both parts read.
pub login_split :
    (a b : ℕ) (front back : Bytes) (posted : List ℕ)
    → (a ∷ front) ++ b ∷ back ≡ codes "LOGIN_OK"
    → work_thread 3
        (record { inbox = got a front ∷ got b back ∷ []; exit = false; posted = posted })
      ≡ some (waiting, record { inbox = []; exit = false; posted = posted })
unfolding work_thread work_round recv
login_split a b front back posted e =
    let total : length (a ∷ front) + length (b ∷ back) ≡ 8 =
      sym (length-append (a ∷ front) (b ∷ back)) ∙ ap length e in
    work_thread_short 2 a front (got b back ∷ []) posted (omega (arith, total))
    ∙ work_thread_short 1 b back [] posted (omega (arith, total))

-- Once the server has closed the connection, the thread never ends, as long as the dialog is not
-- left: no fuel is enough.
pub login_closed :
    (fuel : ℕ) (later : List Arrival) (posted : List ℕ)
    → work_thread fuel (record { inbox = closed ∷ later; exit = false; posted = posted }) ≡ none
unfolding work_thread work_round recv on_login_bytes c_str
login_closed zero later posted = refl
login_closed (suc fuel) later posted = login_closed fuel later posted
