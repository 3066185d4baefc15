-- ===== src/Server/Loop.antt =====
-- The loop of CMySqlTask::DoTask and what follows it (StudentManagementServer/CMySqlTask.cpp).
use school_information_manag.Prelude.{
  ℕ, zero, suc, Bool, true, false, ◌||◌, Option, none, some, ◌==◌, if◌then◌else◌, is_pos,
}
use school_information_manag.Proto.{
  PacketHdr, hdr_of_bytes, hdr_size, mysql_login, stu_add, stu_del, stu_query, stu_edit,
  stu_edit_check, class_add, class_del, class_query, class_edit, class_edit_check, course_add,
  course_del, course_query, course_edit, course_edit_check, record_add, record_del, record_query,
  record_edit, record_edit_check,
}
use school_information_manag.Net.{bytes, error, blocks, recv}
use school_information_manag.Server.State.{
  MySql, Machine, End, blocked, disconnected, Task, Step, next, stop, overlay,
}
use school_information_manag.Server.Handlers.{
  on_login, on_add, on_del, on_query, on_edit_check, on_edit,
}

-- One of four case labels.
abbrev pub one_of : ℕ → ℕ → ℕ → ℕ → ℕ → Bool
one_of a b c d n = n == a || n == b || n == c || n == d

module _ {m : MySql} (env : Machine) where
  -- `switch (hdr.nCmd)`
  unfoldable pub dispatch : PacketHdr → Task m → Step m
  dispatch hdr t =
      if hdr.n_cmd == mysql_login
      then on_login env hdr t
      else if one_of stu_add class_add course_add record_add hdr.n_cmd
      then on_add env hdr t
      else if one_of stu_del class_del course_del record_del hdr.n_cmd
      then on_del env hdr t
      else if one_of stu_query class_query course_query record_query hdr.n_cmd
      then on_query env hdr t
      else if one_of stu_edit_check class_edit_check course_edit_check record_edit_check hdr.n_cmd
      then on_edit_check env hdr t
      else if one_of stu_edit class_edit course_edit record_edit hdr.n_cmd
      then on_edit env hdr t
      else next t

  -- One iteration of the loop. A header of which fewer than six bytes arrive keeps old memory in
  -- its other bytes, and so it does when the client has closed and `recv` returns 0.
  unfoldable pub serve_one : Task m → Step m
  serve_one t =
      let (r, later) = recv hdr_size t.inbox in
      let t' = record t { inbox = later } in
      elim r [
        | blocks ↦ stop blocked t'
        | error e ↦ stop disconnected t'
        | bytes bs ↦ dispatch (hdr_of_bytes (overlay hdr_size bs (env.stale later))) t'
      ]

  -- `while (true)` with fuel; `none` means that the fuel is used up.
  unfoldable pub serve : ℕ → Task m → Option (End × Task m)
  serve zero t = none
  serve (suc fuel) t = elim (serve_one t) [ next t' ↦ serve fuel t' | stop e t' ↦ some (e, t') ]

-- The loop behind the `while`, with fuel: results that are left are freed, until none is left or
-- `mysql_next_result` reports an error.
unfoldable pub drain : (m : MySql) → ℕ → m.Conn → Option m.Conn
drain m zero conn = none
drain m (suc fuel) conn =
    let (res, conn') = m.store_result conn in
    let (code, conn'') = m.next_result conn' in
    elim res [
      | none ↦ some conn'
      | some rows ↦ elim (is_pos code) [ true ↦ some conn'' | false ↦ drain m fuel conn'' ]
    ]

-- What follows the loop: only its `break` leads there. The results are freed and the connection is
-- closed; the client's socket is not.
unfoldable pub finish_task : {m : MySql} → ℕ → End → Task m → Option (End × Task m)
finish_task {m} fuel disconnected t = elim (drain m fuel t.conn) [
  | none ↦ none
  | some conn ↦ some (disconnected, record t { conn = m.close conn })
]
finish_task fuel e t = some (e, t)

-- DoTask on an open connection to the database, with fuel for the two loops.
unfoldable pub do_task : {m : MySql} → Machine → ℕ → ℕ → Task m → Option (End × Task m)
do_task env fuel rest t = elim (serve env fuel t) [
  | none ↦ none
  | some (e, t') ↦ finish_task rest e t'
]
