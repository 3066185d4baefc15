-- ===== src/Server/Checks.antt =====
-- What the server does for the check before an edit (StudentManagementServer/CMySqlTask.cpp).
use school_information_manag.Prelude.{
  ℕ, ◌+◌, Bool-cases, inl, inr, ◌^◌, ◌<◌, ◌≡◌, refl, ap, ◌∙◌, true, false, Option, some, List, ◌∷◌,
  arith, if◌then◌else◌, length, Bytes, is_zero, is_pos,
}
use school_information_manag.Proto.Requests.{
  Entity, student, class, course, choice, check_code, edit_null_code, err_code, edit,
}
use school_information_manag.Net.{Arrival, push_back}
use school_information_manag.Listing.{Row}
use school_information_manag.Text.{atoi}
use school_information_manag.Server.State.{
  MySql, Machine, dangling, Task, next, delete_buf, send_logged, reply,
}
use school_information_manag.Server.Handlers.{answer_check, run_check, on_edit_check}
use school_information_manag.Server.Loop.{dispatch, serve_one}
use school_information_manag.Server.Replies.{
  request, started, answered, hdr_of, receive_query_whole, serve_one_whole,
}

module _ {m : MySql} (env : Machine) (t : Task m) (later : List Arrival) (text : Bytes)
    (pos_n : 0 < length text) (fits : length text < 2 ^ 31) where
  abbrev waiting_text : Task m
  waiting_text = record t { inbox = push_back text later }

  -- The connection after the statement and after its result is fetched.
  abbrev fetched : Option (List Row) × m.Conn
  fetched = m.store_result (m.real_query text t.conn).1

  on_edit_check_runs :
      (cmd : ℕ)
      → on_edit_check env (hdr_of env t later cmd text) waiting_text
        ≡ run_check (hdr_of env t later cmd text) text (started env t later)
  unfolding on_edit_check
  on_edit_check_runs cmd = ground (
    arith,
    receive_query_whole env t later text pos_n fits cmd (run_check (hdr_of env t later cmd text)),
  )

  serve_check :
      (x : Entity)
      → serve_one env (request env t later (check_code x) text)
        ≡ run_check (hdr_of env t later (check_code x) text) text (started env t later)
  unfolding dispatch
  serve_check student =
      serve_one_whole env t later text pos_n fits _ (omega arith) ∙ on_edit_check_runs _
  serve_check class =
      serve_one_whole env t later text pos_n fits _ (omega arith) ∙ on_edit_check_runs _
  serve_check course =
      serve_one_whole env t later text pos_n fits _ (omega arith) ∙ on_edit_check_runs _
  serve_check choice =
      serve_one_whole env t later text pos_n fits _ (omega arith) ∙ on_edit_check_runs _

  run_check_counts :
      (x : Entity)
      → is_zero (m.real_query text t.conn).0 ≡ true
      → (row : Row) (rows : List Row) (count : Bytes) (fields : Row) → fetched.0 ≡ some (row ∷ rows)
      → row ≡ some count ∷ fields
      → run_check (hdr_of env t later (check_code x) text) text (started env t later)
        ≡ next (
            if is_pos (atoi count)
            then record t { inbox = later; buf = dangling; conn = fetched.1 }
            else answered env t later fetched.1 (check_code x + 1))
  unfolding run_check answer_check delete_buf reply send_logged
  run_check_counts x h row rows count fields k e =
      ground (arith, m.first_row-cons row rows, ap m.first_row k)

  -- The check before an edit, where the database counts the rows with the identifier: with a count
  -- above 0 nothing is sent, and otherwise the answer is the code that Proto.h names EDIT_NULL.
  pub serve_check_counts :
      (x : Entity) (count : Bytes) (fields : Row) (rows : List Row)
      → is_zero (m.real_query text t.conn).0 ≡ true
      → fetched.0 ≡ some ((some count ∷ fields) ∷ rows)
      → serve_one env (request env t later (check_code x) text)
        ≡ next (
            if is_pos (atoi count)
            then record t { inbox = later; buf = dangling; conn = fetched.1 }
            else answered env t later fetched.1 (edit_null_code x))
  serve_check_counts student count fields rows h k =
      serve_check student ∙ run_check_counts student h _ rows count fields k refl
  serve_check_counts class count fields rows h k =
      serve_check class ∙ run_check_counts class h _ rows count fields k refl
  serve_check_counts course count fields rows h k =
      serve_check course ∙ run_check_counts course h _ rows count fields k refl
  serve_check_counts choice count fields rows h k =
      serve_check choice ∙ run_check_counts choice h _ rows count fields k refl

  -- A check that the database rejects is answered with the code that Proto.h names EDIT_ERR.
  pub serve_check_rejected :
      (x : Entity)
      → is_zero (m.real_query text t.conn).0 ≡ false
      → serve_one env (request env t later (check_code x) text)
        ≡ next (answered env t later (m.real_query text t.conn).1 (err_code x edit))
  unfolding run_check delete_buf reply send_logged
  serve_check_rejected student h = serve_check student ∙ ground arith
  serve_check_rejected class h = serve_check class ∙ ground arith
  serve_check_rejected course h = serve_check course ∙ ground arith
  serve_check_rejected choice h = serve_check choice ∙ ground arith

  -- The check before an edit, where the database counts the rows with the identifier. A check that
  -- is rejected is answered with the code that Proto.h names EDIT_ERR for that kind of record, a
  -- count of 0 or below with the one that it names EDIT_NULL, and a count above 0 not at all.
  pub serve_check_answers :
      (x : Entity) (count : Bytes) (fields : Row) (rows : List Row)
      → fetched.0 ≡ some ((some count ∷ fields) ∷ rows)
      → serve_one env (request env t later (check_code x) text)
        ≡ next (
            if is_zero (m.real_query text t.conn).0
            then (if is_pos (atoi count)
                then record t { inbox = later; buf = dangling; conn = fetched.1 }
                else answered env t later fetched.1 (edit_null_code x))
            else answered env t later (m.real_query text t.conn).1 (err_code x edit))
  serve_check_answers x count fields rows h =
      elim (Bool-cases (is_zero (m.real_query text t.conn).0)) [
        | inl e ↦ serve_check_counts x count fields rows e h ∙ ap next (rw e refl)
        | inr e ↦ serve_check_rejected x e ∙ ap next (rw e refl)
      ]
