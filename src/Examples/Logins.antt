-- ===== src/Examples/Logins.antt =====
-- Logins.
use school_information_manag.Prelude.{
  ◌≡◌, refl, arith, false, Option, some, List, [], ◌∷◌, Bytes, codes, pos, is_pos,
}
use school_information_manag.Net.{got, push_back, outbox_of}
use school_information_manag.Listing.{Row}
use school_information_manag.Text.{atoi}
use school_information_manag.Text.Format.{format, pieces, render}
use school_information_manag.Server.State.{Task, unset, next}
use school_information_manag.Server.Loop.{serve_one}
use school_information_manag.Client.Login.{
  LoginDlg, login_query, on_clicked_btn_login, waiting, work_thread,
}
use school_information_manag.Client.Login.Answers.{login_split}
use school_information_manag.System.ChangeRound.{deliver}
use school_information_manag.System.LoginRound.{login_told, login_round}
use school_information_manag.Examples.Fixtures.{db, machine, task}

abbrev dialog : LoginDlg
dialog = record {
  edit_user = codes "ann";
  edit_pwd = codes "x";
  thread_exit = false;
  main_shown = false;
  boxes = [];
}

abbrev one_account : Option (List Row)
one_account = some ((some (codes "1") ∷ []) ∷ [])

login_round_example :
    (t' : Task (db (pos 0) one_account)) × (answer : Bytes) × (serve_one machine
        (record (task (pos 0) one_account unset) {
          inbox = deliver (on_clicked_btn_login dialog (outbox_of [])).sent [];
        })
      ≡ next t')
    × (t'.out ≡ outbox_of (answer ∷ []))
    × (t'.inbox ≡ [])
    × (work_thread 2 (record { inbox = push_back answer []; exit = false; posted = [] })
        ≡ some (login_told (is_pos (atoi (codes "1"))) []))
unfolding login_query format pieces render
login_round_example =
    login_round machine (task (pos 0) one_account unset) [] dialog (codes "1") [] [] []
      (omega arith) refl refl refl

login_split_example :
    work_thread 3 (record {
      inbox = got 76 (79 ∷ 71 ∷ []) ∷ got 73 (78 ∷ 95 ∷ 79 ∷ 75 ∷ []) ∷ [];
      exit = false;
      posted = [];
    })
    ≡ some (waiting, record { inbox = []; exit = false; posted = [] })
login_split_example = login_split 76 73 (79 ∷ 71 ∷ []) (78 ∷ 95 ∷ 79 ∷ 75 ∷ []) [] refl
