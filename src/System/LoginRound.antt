-- ===== src/System/LoginRound.antt =====
-- A login, from the dialog's button to the message that the dialog gets.
use school_information_manag.Prelude.{
  ℕ, ◌<◌, ◌^◌, ◌≡◌, refl, arith, Bool, true, false, some, List, [], ◌∷◌, ◌++◌, if◌then◌else◌,
  length, Bytes, codes, is_neg, is_pos,
}
use school_information_manag.Proto.{mysql_login}
use school_information_manag.Net.{Arrival, push_back, outbox_of, recv, send}
use school_information_manag.Listing.{Row, c_str}
use school_information_manag.Text.{atoi}
use school_information_manag.Text.Format.{format, pieces, render}
use school_information_manag.Server.State.{MySql, Machine, dangling, Task, next}
use school_information_manag.Server.Loop.{serve_one}
use school_information_manag.Server.Logins.{serve_login_counts}
use school_information_manag.Client.Login.{
  LoginDlg, login_query, on_clicked_btn_login, LoginEnd, Login, returned, waiting, wm_closelogin,
  wm_login_err, on_login_bytes, work_round, work_thread,
}
use school_information_manag.System.ChangeRound.{deliver, send_request-packets}

-- How the thread ends: with the login accepted it returns, and otherwise it waits for more.
abbrev pub login_told : Bool → List ℕ → LoginEnd × Login
login_told true posted =
    (returned, record { inbox = []; exit = false; posted = posted ++ wm_closelogin ∷ [] })
login_told false posted =
    (waiting, record { inbox = []; exit = false; posted = posted ++ wm_login_err ∷ [] })

abbrev pub login_answer : Bool → Bytes
login_answer true = codes "LOGIN_OK"
login_answer false = codes "LOGIN_ERR"

login_told_lem :
    (ok : Bool) (posted : List ℕ)
    → work_thread 2
        (record { inbox = push_back (login_answer ok) []; exit = false; posted = posted })
      ≡ some (login_told ok posted)
unfolding work_thread work_round on_login_bytes c_str recv
login_told_lem true posted = refl
login_told_lem false posted = refl

login_sent :
    (ok : Bool)
    → (send (if ok then codes "LOGIN_OK" else codes "LOGIN_ERR") (outbox_of [])).1
      ≡ outbox_of (login_answer ok ∷ [])
unfolding send
login_sent true = refl
login_sent false = refl

login_query-pos : (d : LoginDlg) → 0 < length (login_query d)
unfolding login_query format pieces render
login_query-pos d = omega arith

-- A login, whole. The button sends a statement below 2 ^ 31 bytes, both packets arrive whole, the
-- database does not report a negative code and counts the matching accounts, and the server's sends
-- succeed. Then the server sends one text, and when it comes whole to the dialog's thread, the thread
-- posts just one message: where the count is above 0 the one that closes the login, whereupon it
-- returns, and otherwise the one that tells of the error, whereupon it waits on.
pub login_round :
    {m : MySql} (env : Machine) (t : Task m) (later : List Arrival) (d : LoginDlg) (count : Bytes)
    (fields : Row) (rows : List Row) (posted : List ℕ)
    → length (login_query d) < 2 ^ 31
    → t.out ≡ outbox_of []
    → is_neg (m.query (c_str (login_query d)) t.conn).0 ≡ false
    → (m.store_result (m.query (c_str (login_query d)) t.conn).1).0
      ≡ some ((some count ∷ fields) ∷ rows)
    → (t' : Task m) × (answer : Bytes) × (serve_one env
          (record t { inbox = deliver (on_clicked_btn_login d (outbox_of [])).sent later })
        ≡ next t')
      × (t'.out ≡ outbox_of (answer ∷ []))
      × (t'.inbox ≡ later)
      × (work_thread 2 (record { inbox = push_back answer []; exit = false; posted = posted })
          ≡ some (login_told (is_pos (atoi count)) posted))
unfolding on_clicked_btn_login
login_round {m} env t later d count fields rows posted fits out good counts = (
  record t {
    inbox = later;
    buf = dangling;
    conn = (m.store_result (m.query (c_str (login_query d)) t.conn).1).1;
    out = (send (if is_pos (atoi count) then codes "LOGIN_OK" else codes "LOGIN_ERR") t.out).1;
  },
  login_answer (is_pos (atoi count)),
  rw (send_request-packets mysql_login (login_query d) []) (
      serve_login_counts env t later (login_query d) (login_query-pos d) fits count fields rows good
        counts),
  rw out (login_sent (is_pos (atoi count))),
  refl,
  login_told_lem (is_pos (atoi count)) posted,
)
