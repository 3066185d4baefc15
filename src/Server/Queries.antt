-- ===== src/Server/Queries.antt =====
-- What the server does for a query (StudentManagementServer/CMySqlTask.cpp).
use school_information_manag.Prelude.{
  ℕ, Bool-cases, inl, inr, ◌^◌, ◌<◌, ◌≡◌, refl, ap, ◌∙◌, true, false, Option, none, some, List,
  arith, if◌then◌else◌, length, Bytes, bytes_eq_refl, is_zero,
}
use school_information_manag.Proto.Requests.{
  Entity, student, class, course, choice, query_code, query_err_code, query_null_code,
}
use school_information_manag.Net.{Arrival, push_back}
use school_information_manag.Listing.{Row, write_rows, text_out}
use school_information_manag.Transfer.{send_file_to_client}
use school_information_manag.Server.State.{
  MySql, Machine, dangling, live, Task, next, delete_buf, send_logged, reply,
}
use school_information_manag.Server.Handlers.{
  update, draw, result_name, send_result, run_query, on_query,
}
use school_information_manag.Server.Loop.{dispatch, serve_one}
use school_information_manag.Server.Replies.{
  request, started, answered, hdr_of, receive_query_whole, serve_one_whole,
}

module _ {m : MySql} (env : Machine) (t : Task m) (later : List Arrival) (text : Bytes)
    (pos_n : 0 < length text) (fits : length text < 2 ^ 31) where
  abbrev waiting_text : Task m
  waiting_text = record t { inbox = push_back text later }

  on_query_runs :
      (cmd : ℕ)
      → on_query env (hdr_of env t later cmd text) waiting_text
        ≡ run_query env (hdr_of env t later cmd text) text (started env t later)
  unfolding on_query
  on_query_runs cmd = ground (
    arith,
    receive_query_whole env t later text pos_n fits cmd
        (run_query env (hdr_of env t later cmd text)),
  )

  serve_query :
      (x : Entity)
      → serve_one env (request env t later (query_code x) text)
        ≡ run_query env (hdr_of env t later (query_code x) text) text (started env t later)
  unfolding dispatch
  serve_query student =
      serve_one_whole env t later text pos_n fits _ (omega arith) ∙ on_query_runs _
  serve_query class = serve_one_whole env t later text pos_n fits _ (omega arith) ∙ on_query_runs _
  serve_query course = serve_one_whole env t later text pos_n fits _ (omega arith) ∙ on_query_runs _
  serve_query choice = serve_one_whole env t later text pos_n fits _ (omega arith) ∙ on_query_runs _

  -- A query that the database rejects is answered with the code that Proto.h names QUERY_ERR for
  -- that kind of record; no result is fetched.
  pub serve_query_rejected :
      (x : Entity)
      → is_zero (m.real_query text t.conn).0 ≡ false
      → serve_one env (request env t later (query_code x) text)
        ≡ next (answered env t later (m.real_query text t.conn).1 (query_err_code x))
  unfolding run_query delete_buf reply send_logged
  serve_query_rejected student h = serve_query student ∙ ground arith
  serve_query_rejected class h = serve_query class ∙ ground arith
  serve_query_rejected course h = serve_query course ∙ ground arith
  serve_query_rejected choice h = serve_query choice ∙ ground arith

  -- The connection after the statement and after its result is fetched.
  abbrev fetched : Option (List Row) × m.Conn
  fetched = m.store_result (m.real_query text t.conn).1

  -- A query whose result set is NULL is answered with the code that Proto.h names QUERY_NULL.
  pub serve_query_null :
      (x : Entity)
      → is_zero (m.real_query text t.conn).0 ≡ true
      → fetched.0 ≡ none
      → serve_one env (request env t later (query_code x) text)
        ≡ next (answered env t later fetched.1 (query_null_code x))
  unfolding run_query delete_buf reply send_logged
  serve_query_null student h k = serve_query student ∙ ground arith
  serve_query_null class h k = serve_query class ∙ ground arith
  serve_query_null course h k = serve_query course ∙ ground arith
  serve_query_null choice h k = serve_query choice ∙ ground arith

  -- The state after a result file is written and sent.
  abbrev pub file_sent : Entity → Bytes → Task m
  file_sent x file = record t {
    inbox = later;
    buf = dangling;
    conn = fetched.1;
    disk = update t.disk (result_name (draw t.draws).0) (text_out file);
    draws = (draw t.draws).1;
    out = send_file_to_client (some (text_out file)) (query_code x) t.out;
  }

  send_result_file :
      (x : Entity) (rows : List Row) (file : Bytes)
      → env.can_open (result_name (draw t.draws).0) ≡ true
      → write_rows rows ≡ some file
      → send_result env
          (hdr_of env t later (query_code x) text)
          rows
          (record t { inbox = later; buf = live; conn = fetched.1 })
        ≡ next (file_sent x file)
  unfolding send_result delete_buf
  send_result_file x rows file h k = ground (arith, bytes_eq_refl (result_name (draw t.draws).0))

  run_query_rows :
      (x : Entity) (rows : List Row)
      → is_zero (m.real_query text t.conn).0 ≡ true
      → fetched.0 ≡ some rows
      → run_query env (hdr_of env t later (query_code x) text) text (started env t later)
        ≡ send_result env
            (hdr_of env t later (query_code x) text)
            rows
            (record t { inbox = later; buf = live; conn = fetched.1 })
  unfolding run_query
  run_query_rows x rows h k = ground arith

  -- A query that yields rows, none of whose fields is NULL, writes their text to a new file and sends
  -- the client that file; the buffer is deleted.
  pub serve_query_rows :
      (x : Entity) (rows : List Row) (file : Bytes)
      → is_zero (m.real_query text t.conn).0 ≡ true
      → fetched.0 ≡ some rows
      → env.can_open (result_name (draw t.draws).0) ≡ true
      → write_rows rows ≡ some file
      → serve_one env (request env t later (query_code x) text) ≡ next (file_sent x file)
  serve_query_rows x rows file h k o w =
      serve_query x ∙ run_query_rows x rows h k ∙ send_result_file x rows file o w

  -- A query for which the database has no result: the answer is the code that Proto.h names
  -- QUERY_NULL for that kind of record where the query was accepted, and the one that it names
  -- QUERY_ERR where it was rejected.
  pub serve_query_answers :
      (x : Entity)
      → fetched.0 ≡ none
      → serve_one env (request env t later (query_code x) text)
        ≡ next (
            if is_zero (m.real_query text t.conn).0
            then answered env t later fetched.1 (query_null_code x)
            else answered env t later (m.real_query text t.conn).1 (query_err_code x))
  serve_query_answers x h = elim (Bool-cases (is_zero (m.real_query text t.conn).0)) [
    | inl e ↦ serve_query_null x e h ∙ ap next (rw e refl)
    | inr e ↦ serve_query_rejected x e ∙ ap next (rw e refl)
  ]
