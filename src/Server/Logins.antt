-- ===== src/Server/Logins.antt =====
-- What the server does for a login (StudentManagementServer/CMySqlTask.cpp).
use school_information_manag.Prelude.{
  ◌^◌, ◌<◌, ◌≡◌, refl, ap, ◌∙◌, false, Option, some, List, ◌∷◌, arith, if◌then◌else◌, length, Bytes,
  codes, is_neg, is_pos,
}
use school_information_manag.Proto.{mysql_login}
use school_information_manag.Net.{Arrival, push_back, send}
use school_information_manag.Listing.{Row, c_str}
use school_information_manag.Text.{atoi}
use school_information_manag.Server.State.{
  MySql, Machine, dangling, Task, next, delete_buf, send_logged,
}
use school_information_manag.Server.Handlers.{answer_login, run_login, on_login}
use school_information_manag.Server.Loop.{dispatch, serve_one}
use school_information_manag.Server.Replies.{
  request, started, hdr_of, receive_query_whole, serve_one_whole,
}

module _ {m : MySql} (env : Machine) (t : Task m) (later : List Arrival) (text : Bytes)
    (pos_n : 0 < length text) (fits : length text < 2 ^ 31) where
  abbrev waiting_text : Task m
  waiting_text = record t { inbox = push_back text later }

  on_login_runs :
      on_login env (hdr_of env t later mysql_login text) waiting_text
      ≡ run_login text (started env t later)
  unfolding on_login
  on_login_runs =
      ground (arith, receive_query_whole env t later text pos_n fits mysql_login run_login)

  serve_login :
      serve_one env (request env t later mysql_login text) ≡ run_login text (started env t later)
  unfolding dispatch
  serve_login = serve_one_whole env t later text pos_n fits _ (omega arith) ∙ on_login_runs

  -- What `mysql_query` returns for a login, and the result that is fetched then.
  abbrev counted : Option (List Row) × m.Conn
  counted = m.store_result (m.query (c_str text) t.conn).1

  run_login_counts :
      (row : Row) (rows : List Row) (count : Bytes) (fields : Row)
      → is_neg (m.query (c_str text) t.conn).0 ≡ false
      → counted.0 ≡ some (row ∷ rows)
      → row ≡ some count ∷ fields
      → run_login text (started env t later)
        ≡ next (record t {
          inbox = later;
          buf = dangling;
          conn = counted.1;
          out =
              (send (if is_pos (atoi count) then codes "LOGIN_OK" else codes "LOGIN_ERR") t.out).1;
        })
  unfolding run_login answer_login delete_buf send_logged
  run_login_counts row rows count fields h k e =
      ground (arith, m.first_row-cons row rows, ap m.first_row k)

  -- A login whose query yields a count is answered by the text LOGIN_OK exactly when the count is
  -- above 0, and by LOGIN_ERR otherwise.
  pub serve_login_counts :
      (count : Bytes) (fields : Row) (rows : List Row)
      → is_neg (m.query (c_str text) t.conn).0 ≡ false
      → counted.0 ≡ some ((some count ∷ fields) ∷ rows)
      → serve_one env (request env t later mysql_login text)
        ≡ next (record t {
          inbox = later;
          buf = dangling;
          conn = counted.1;
          out =
              (send (if is_pos (atoi count) then codes "LOGIN_OK" else codes "LOGIN_ERR") t.out).1;
        })
  serve_login_counts count fields rows h k =
      serve_login ∙ run_login_counts _ rows count fields h k refl
