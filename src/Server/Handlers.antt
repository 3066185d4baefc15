-- ===== src/Server/Handlers.antt =====
-- The cases of the `switch` in CMySqlTask::DoTask (StudentManagementServer/CMySqlTask.cpp).
use school_information_manag.Prelude.{
  ℕ, ◌+◌, Option, none, some, List, [], ◌∷◌, ◌++◌, leb, if◌then◌else◌, Bytes, codes, bytes_eq,
  is_neg, is_zero, is_pos,
}
use school_information_manag.Proto.{PacketHdr}
use school_information_manag.Listing.{Row, write_rows, text_out, c_str}
use school_information_manag.Text.{atoi, to_decimal}
use school_information_manag.Transfer.{send_file_to_client}
use school_information_manag.Server.State.{
  MySql, Machine, null_text, fault, Task, Step, next, stop, delete_buf, send_logged, reply,
  receive_query,
}

-- `row[0]`: NULL where the field is, and where there is no column.
abbrev pub first_field : Row → Option Bytes
first_field [] = none
first_field (f ∷ fields) = f

abbrev pub update : (Bytes → Option Bytes) → Bytes → Bytes → Bytes → Option Bytes
update disk name content other = if bytes_eq name other then some content else disk other

-- The next number of `uniform_int_distribution(1, 100)`.
abbrev pub draw : List ℕ → ℕ × List ℕ
draw [] = (1, [])
draw (d ∷ later) = (d, later)

abbrev pub result_name : ℕ → Bytes
result_name d = codes "result" ++ (to_decimal d ++ codes ".txt")

module _ {m : MySql} where
  -- The answer to a login from the first row of the result: the count of matching accounts.
  unfoldable pub answer_login : Option Row → Task m → Step m
  answer_login none t = delete_buf t
  answer_login (some row) t = elim (first_field row) [
    | none ↦ stop (fault null_text) t
    | some text ↦ delete_buf (
        if is_pos (atoi text)
        then send_logged (codes "LOGIN_OK") t
        else send_logged (codes "LOGIN_ERR") t)
  ]

  -- `mysql_query` reads the buffer up to its first NUL; only a negative code counts as an error.
  unfoldable pub run_login : Bytes → Task m → Step m
  run_login text t =
      let (code, conn) = m.query (c_str text) t.conn in
      let (res, conn') = m.store_result conn in
      if is_neg code
      then delete_buf (record t { conn = m.close conn })
      else answer_login (m.first_row res) (record t { conn = conn' })

  unfoldable pub on_login : Machine → PacketHdr → Task m → Step m
  on_login env hdr t = if leb 1 hdr.n_len then receive_query env hdr run_login t else delete_buf t

  -- ADD and DEL: run the statement, and answer with the request's code and 1 or 2.
  unfoldable pub run_update : PacketHdr → Bytes → Task m → Step m
  run_update hdr text t =
      let (code, conn) = m.real_query text t.conn in
      delete_buf (
        if is_zero code
        then reply (hdr.n_cmd + 1) (record t { conn = conn })
        else reply (hdr.n_cmd + 2) (record t { conn = conn }))

  unfoldable pub on_add : Machine → PacketHdr → Task m → Step m
  on_add env hdr t =
      if leb 1 hdr.n_len then receive_query env hdr (run_update hdr) t else delete_buf t

  unfoldable pub on_del : Machine → PacketHdr → Task m → Step m
  on_del env hdr t =
      if leb 1 hdr.n_len then receive_query env hdr (run_update hdr) t else delete_buf t

  -- The rows go to a file with a random number in its name, and the file to the client. A file that
  -- cannot be opened leaves the `switch` before the buffer is deleted.
  unfoldable pub send_result : Machine → PacketHdr → List Row → Task m → Step m
  send_result env hdr rows t =
      let (d, later) = draw t.draws in
      let name = result_name d in
      if env.can_open name
      then elim (write_rows rows) [
        | none ↦ stop (fault null_text) t
        | some text ↦
            let disk = update t.disk name (text_out text) in
            delete_buf (record t {
              disk = disk;
              draws = later;
              out = send_file_to_client (disk name) hdr.n_cmd t.out;
            })
      ]
      else next (record t { draws = later })

  unfoldable pub run_query : Machine → PacketHdr → Bytes → Task m → Step m
  run_query env hdr text t =
      let (code, conn) = m.real_query text t.conn in
      let (res, conn') = m.store_result conn in
      if is_zero code
      then elim res [
        | none ↦ delete_buf (reply (hdr.n_cmd + 3) (record t { conn = conn' }))
        | some rows ↦ send_result env hdr rows (record t { conn = conn' })
      ]
      else delete_buf (reply (hdr.n_cmd + 2) (record t { conn = conn }))

  unfoldable pub on_query : Machine → PacketHdr → Task m → Step m
  on_query env hdr t =
      if leb 1 hdr.n_len then receive_query env hdr (run_query env hdr) t else delete_buf t

  -- The check before an edit answers only where the identifier has no row.
  unfoldable pub answer_check : PacketHdr → Option Row → Task m → Step m
  answer_check hdr none t = delete_buf t
  answer_check hdr (some row) t = elim (first_field row) [
    | none ↦ stop (fault null_text) t
    | some text ↦ delete_buf (if is_pos (atoi text) then t else reply (hdr.n_cmd + 1) t)
  ]

  unfoldable pub run_check : PacketHdr → Bytes → Task m → Step m
  run_check hdr text t =
      let (code, conn) = m.real_query text t.conn in
      let (res, conn') = m.store_result conn in
      if is_zero code
      then answer_check hdr (m.first_row res) (record t { conn = conn' })
      else delete_buf (reply (hdr.n_cmd + 3) (record t { conn = conn }))

  unfoldable pub on_edit_check : Machine → PacketHdr → Task m → Step m
  on_edit_check env hdr t =
      if leb 1 hdr.n_len then receive_query env hdr (run_check hdr) t else delete_buf t

  unfoldable pub run_edit : PacketHdr → Bytes → Task m → Step m
  run_edit hdr text t =
      let (code, conn) = m.real_query text t.conn in
      delete_buf (
        if is_zero code
        then reply (hdr.n_cmd + 3) (record t { conn = conn })
        else reply (hdr.n_cmd + 4) (record t { conn = conn }))

  -- Here the buffer is deleted inside the test of the length.
  unfoldable pub on_edit : Machine → PacketHdr → Task m → Step m
  on_edit env hdr t = if leb 1 hdr.n_len then receive_query env hdr (run_edit hdr) t else next t
