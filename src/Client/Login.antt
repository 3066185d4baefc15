-- ===== src/Client/Login.antt =====
-- StudentManagementClient/StudentManagementDlg.cpp: the login dialog, whose button sends a request and
-- starts a thread that waits for the answer.
pub mod Answers
use school_information_manag.Prelude.{
  ℕ, zero, suc, ◌+◌, Bool, true, Option, none, some, List, [], ◌∷◌, ◌++◌, ◌==◌, if◌then◌else◌,
  length, Bytes, codes, bytes_eq,
}
use school_information_manag.Proto.{mysql_login}
use school_information_manag.Net.{Arrival, bytes, error, blocks, recv, Outbox}
use school_information_manag.Listing.{c_str}
use school_information_manag.Text.Format.{text, format}
use school_information_manag.Client.Dialog.{query_request, send_request, wm_user}

abbrev pub wm_closelogin : ℕ
wm_closelogin = wm_user + 1

abbrev pub wm_login_err : ℕ
wm_login_err = wm_user + 2

-- The dialog; `main_shown` tells whether the main page has been opened.
pub record LoginDlg : Type 0 where
  pub edit_user : Bytes
  pub edit_pwd : Bytes
  pub thread_exit : Bool
  pub main_shown : Bool
  pub boxes : List Bytes

abbrev pub login_format : Bytes
login_format = codes "SELECT COUNT(*) FROM account WHERE user_name = '%s' AND password = '%s'"

unfoldable pub login_query : LoginDlg → Bytes
login_query d = format login_format (text d.edit_user ∷ text d.edit_pwd ∷ [])

-- OnClickedBtnLogin on a connected socket: where the header cannot be sent, the text is not.
unfoldable pub on_clicked_btn_login : LoginDlg → Outbox → Outbox
on_clicked_btn_login d o = send_request (query_request mysql_login (login_query d)) o

unfoldable pub on_closelogin : LoginDlg → LoginDlg
on_closelogin d = record d { thread_exit = true; main_shown = true }

unfoldable pub on_login_err : LoginDlg → LoginDlg
on_login_err d = record d { boxes = d.boxes ++ codes "Wrong username or password!" ∷ [] }

-- The two messages of the dialog's map.
unfoldable pub on_login_message : ℕ → LoginDlg → LoginDlg
on_login_message message d =
    if message == wm_closelogin
    then on_closelogin d
    else if message == wm_login_err
    then on_login_err d
    else d

-- WorkThread's view: the socket, the flag that it tests, and the messages that it has posted.
pub record Login : Type 0 where
  pub inbox : List Arrival
  pub exit : Bool
  pub posted : List ℕ

-- `returned`: the loop ended. `receive_failed`: the result -1. `out_of_bounds`: the write behind the
-- end of `szBuf`. `waiting`: a call of `recv` does not return.
pub data LoginEnd : Type 0 where
  returned receive_failed out_of_bounds waiting : LoginEnd

pub data LoginStep : Type 0 where
  again : Login → LoginStep
  ends : LoginEnd → Login → LoginStep

-- `sizeof(szBuf)`
abbrev pub buf_size : ℕ
buf_size = 50

-- The bytes that came, with a NUL written behind them, compared by `strcmp`.
unfoldable pub on_login_bytes : Bytes → Login → LoginStep
on_login_bytes bs w =
    if length bs == buf_size
    then ends out_of_bounds w
    else if bytes_eq (c_str bs) (codes "LOGIN_OK")
    then ends returned (record w { posted = w.posted ++ wm_closelogin ∷ [] })
    else if bytes_eq (c_str bs) (codes "LOGIN_ERR")
    then again (record w { posted = w.posted ++ wm_login_err ∷ [] })
    else again w

-- One round of WorkThread.
unfoldable pub work_round : Login → LoginStep
work_round w =
    let (r, later) = recv buf_size w.inbox in
    let w' = record w { inbox = later } in
    if w.exit then ends returned w else elim r [
      | blocks ↦ ends waiting w'
      | error e ↦ ends receive_failed w'
      | bytes bs ↦ on_login_bytes bs w'
    ]

-- WorkThread with fuel; `none` means that the fuel is used up.
unfoldable pub work_thread : ℕ → Login → Option (LoginEnd × Login)
work_thread zero w = none
work_thread (suc fuel) w = elim (work_round w) [
  | again w' ↦ work_thread fuel w'
  | ends e w' ↦ some (e, w')
]
