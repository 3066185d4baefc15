-- ===== src/Client/Main.antt =====
-- StudentManagementClient/CMainDlg.cpp: the thread that receives the server's answers, saves the
-- result files, and posts a message to a page for each answer; and the choice of the page to show.
pub mod Answers
pub mod Files
use school_information_manag.Prelude.{
  ℕ, zero, suc, ◌+◌, Bool, true, false, Option, none, some, List, [], ◌∷◌, ◌++◌, ◌==◌,
  if◌then◌else◌, length, drop, Bytes,
}
use school_information_manag.Proto.{PacketHdr, hdr_of_bytes, hdr_size, ntohl}
use school_information_manag.Proto
use school_information_manag.Net.{Arrival, Received, bytes, error, blocks, recv}
use school_information_manag.Transfer.{Download, finished, waiting, looping, receive_file}
use school_information_manag.Client.StudentInfo
use school_information_manag.Client.ClassInfo
use school_information_manag.Client.CourseInfo
use school_information_manag.Client.RecordInfo

-- The windows of the four pages.
pub data Page : Type 0 where
  stu_dlg class_dlg course_dlg record_dlg : Page

-- `PostMessage(message, 0, 0)` on a page's window.
pub record Post : Type 0 where
  pub window : Page
  pub message : ℕ

-- The thread's state. `recv_hdr` is the memory of the variable `recvHdr`, which keeps its old bytes
-- where a `recv` writes none. `files` are the four local files, by the page that reads each.
pub record Receiver : Type 0 where
  pub inbox : List Arrival
  pub recv_hdr : Bytes
  pub files : Page → Option Bytes
  pub posted : List Post

-- One round of the loop ends, or a call of `recv` in it does not return, or the loop over the file
-- in it does not end.
pub data Round : Type 0 where
  next : Receiver → Round
  blocked endless : Round

abbrev pub post : Page → ℕ → Receiver → Receiver
post w message t = record t { posted = t.posted ++ record { window = w; message = message } ∷ [] }

abbrev pub page_eq : Page → Page → Bool
page_eq stu_dlg stu_dlg = true
page_eq class_dlg class_dlg = true
page_eq course_dlg course_dlg = true
page_eq record_dlg record_dlg = true
page_eq _ _ = false

abbrev pub save : Page → Bytes → (Page → Option Bytes) → Page → Option Bytes
save w file files other = if page_eq w other then some file else files other

-- The end of the loop over the file: it is closed, and the message posted, complete or not.
unfoldable pub downloaded : Page → ℕ → Receiver → Download → Round
downloaded w message t (finished file inbox) =
    next (post w message (record t { inbox = inbox; files = save w file t.files }))
downloaded w message t (waiting file) = blocked
downloaded w message t looping = endless

module _ (can_write : Page → Bool) where
  -- A QUERY_RESULT: the length is in network order. A file that cannot be opened leaves the `switch`
  -- with the file's bytes still in the socket. With one more unit of fuel than the size, the loop runs
  -- out of fuel only if it does not end.
  unfoldable pub receive_result : Page → ℕ → ℕ → Receiver → Round
  receive_result w message n_len t =
      if can_write w
      then downloaded w message t (receive_file (suc (ntohl n_len)) (ntohl n_len) 0 [] t.inbox)
      else next t

  -- The labels of the `switch` for the page stu_dlg; `none` is a command that is none of them.
  unfoldable pub on_student_answer : PacketHdr → Receiver → Option Round
  on_student_answer hdr t =
      if hdr.n_cmd == Proto.stu_add_ok
      then some (next (post stu_dlg StudentInfo.wm_stu_add_ok t))
      else if hdr.n_cmd == Proto.stu_add_err
      then some (next (post stu_dlg StudentInfo.wm_stu_add_err t))
      else if hdr.n_cmd == Proto.stu_del_ok
      then some (next (post stu_dlg StudentInfo.wm_stu_del_ok t))
      else if hdr.n_cmd == Proto.stu_del_err
      then some (next (post stu_dlg StudentInfo.wm_stu_del_err t))
      else if hdr.n_cmd == Proto.stu_query_result
      then some (receive_result stu_dlg StudentInfo.wm_stu_query_result hdr.n_len t)
      else if hdr.n_cmd == Proto.stu_query_null
      then some (next (post stu_dlg StudentInfo.wm_stu_query_null t))
      else if hdr.n_cmd == Proto.stu_query_err
      then some (next (post stu_dlg StudentInfo.wm_stu_query_err t))
      else if hdr.n_cmd == Proto.stu_edit_err
      then some (next (post stu_dlg StudentInfo.wm_stu_edit_err t))
      else if hdr.n_cmd == Proto.stu_edit_null
      then some (next (post stu_dlg StudentInfo.wm_stu_edit_null t))
      else if hdr.n_cmd == Proto.stu_edit_ok
      then some (next (post stu_dlg StudentInfo.wm_stu_edit_ok t))
      else none

  -- The labels of the `switch` for the page class_dlg; `none` is a command that is none of them.
  unfoldable pub on_class_answer : PacketHdr → Receiver → Option Round
  on_class_answer hdr t =
      if hdr.n_cmd == Proto.class_add_ok
      then some (next (post class_dlg ClassInfo.wm_class_add_ok t))
      else if hdr.n_cmd == Proto.class_add_err
      then some (next (post class_dlg ClassInfo.wm_class_add_err t))
      else if hdr.n_cmd == Proto.class_del_ok
      then some (next (post class_dlg ClassInfo.wm_class_del_ok t))
      else if hdr.n_cmd == Proto.class_del_err
      then some (next (post class_dlg ClassInfo.wm_class_del_err t))
      else if hdr.n_cmd == Proto.class_query_result
      then some (receive_result class_dlg ClassInfo.wm_class_query_result hdr.n_len t)
      else if hdr.n_cmd == Proto.class_query_null
      then some (next (post class_dlg ClassInfo.wm_class_query_null t))
      else if hdr.n_cmd == Proto.class_query_err
      then some (next (post class_dlg ClassInfo.wm_class_query_err t))
      else if hdr.n_cmd == Proto.class_edit_err
      then some (next (post class_dlg ClassInfo.wm_class_edit_err t))
      else if hdr.n_cmd == Proto.class_edit_null
      then some (next (post class_dlg ClassInfo.wm_class_edit_null t))
      else if hdr.n_cmd == Proto.class_edit_ok
      then some (next (post stu_dlg ClassInfo.wm_class_edit_ok t))
      else none

  -- The labels of the `switch` for the page course_dlg; `none` is a command that is none of them.
  unfoldable pub on_course_answer : PacketHdr → Receiver → Option Round
  on_course_answer hdr t =
      if hdr.n_cmd == Proto.course_add_ok
      then some (next (post course_dlg CourseInfo.wm_course_add_ok t))
      else if hdr.n_cmd == Proto.course_add_err
      then some (next (post course_dlg CourseInfo.wm_course_add_err t))
      else if hdr.n_cmd == Proto.course_del_ok
      then some (next (post course_dlg CourseInfo.wm_course_del_ok t))
      else if hdr.n_cmd == Proto.course_del_err
      then some (next (post course_dlg CourseInfo.wm_course_del_err t))
      else if hdr.n_cmd == Proto.course_query_result
      then some (receive_result course_dlg CourseInfo.wm_course_query_result hdr.n_len t)
      else if hdr.n_cmd == Proto.course_query_null
      then some (next (post course_dlg CourseInfo.wm_course_query_null t))
      else if hdr.n_cmd == Proto.course_query_err
      then some (next (post course_dlg CourseInfo.wm_course_query_err t))
      else if hdr.n_cmd == Proto.course_edit_err
      then some (next (post course_dlg CourseInfo.wm_course_edit_err t))
      else if hdr.n_cmd == Proto.course_edit_null
      then some (next (post course_dlg CourseInfo.wm_course_edit_null t))
      else if hdr.n_cmd == Proto.course_edit_ok
      then some (next (post course_dlg CourseInfo.wm_course_edit_ok t))
      else none

  -- The labels of the `switch` for the page record_dlg; `none` is a command that is none of them.
  unfoldable pub on_record_answer : PacketHdr → Receiver → Option Round
  on_record_answer hdr t =
      if hdr.n_cmd == Proto.record_add_ok
      then some (next (post record_dlg RecordInfo.wm_record_add_ok t))
      else if hdr.n_cmd == Proto.record_add_err
      then some (next (post record_dlg RecordInfo.wm_record_add_err t))
      else if hdr.n_cmd == Proto.record_del_ok
      then some (next (post record_dlg RecordInfo.wm_record_del_ok t))
      else if hdr.n_cmd == Proto.record_del_err
      then some (next (post record_dlg RecordInfo.wm_record_del_err t))
      else if hdr.n_cmd == Proto.record_query_result
      then some (receive_result record_dlg RecordInfo.wm_record_query_result hdr.n_len t)
      else if hdr.n_cmd == Proto.record_query_null
      then some (next (post record_dlg RecordInfo.wm_record_query_null t))
      else if hdr.n_cmd == Proto.record_query_err
      then some (next (post record_dlg RecordInfo.wm_record_query_err t))
      else if hdr.n_cmd == Proto.record_edit_err
      then some (next (post record_dlg RecordInfo.wm_record_edit_err t))
      else if hdr.n_cmd == Proto.record_edit_null
      then some (next (post record_dlg RecordInfo.wm_record_edit_null t))
      else if hdr.n_cmd == Proto.record_edit_ok
      then some (next (post record_dlg RecordInfo.wm_record_edit_ok t))
      else none

  -- `switch (recvHdr.nCmd)`
  unfoldable pub on_answer : PacketHdr → Receiver → Round
  on_answer hdr t = elim (on_student_answer hdr t) [
    | some r ↦ r
    | none ↦ elim (on_class_answer hdr t) [
      | some r ↦ r
      | none ↦ elim (on_course_answer hdr t) [
        | some r ↦ r
        | none ↦ elim (on_record_answer hdr t) [ some r ↦ r | none ↦ next t ]
      ]
    ]
  ]

  -- One round of RecvThread. A result of 0 is no error to it, and leaves the header as it was.
  unfoldable pub recv_round : Receiver → Round
  recv_round t =
      let (r, later) = recv hdr_size t.inbox in
      elim r [
        | blocks ↦ blocked
        | error e ↦ next (record t { inbox = later })
        | bytes bs ↦
            let hdr = bs ++ drop (length bs) t.recv_hdr in
            on_answer (hdr_of_bytes hdr) (record t { inbox = later; recv_hdr = hdr })
      ]

  -- This many rounds, as far as they go.
  unfoldable pub recv_rounds : ℕ → Receiver → Round
  recv_rounds zero t = next t
  recv_rounds (suc n) t = elim (recv_round t) [
    | next t' ↦ recv_rounds n t'
    | blocked ↦ blocked
    | endless ↦ endless
  ]

-- OnSelchangeTabMenu: which of the four windows are shown, before and after; another index changes
-- nothing.
pub record Shown : Type 0 where
  pub stu : Bool
  pub class : Bool
  pub course : Bool
  pub record_page : Bool

unfoldable pub on_selchange_tab_menu : ℕ → Shown → Shown
on_selchange_tab_menu index s =
    if index == 0
    then record { stu = true; class = false; course = false; record_page = false }
    else if index == 1
    then record { stu = false; class = true; course = false; record_page = false }
    else if index == 2
    then record { stu = false; class = false; course = true; record_page = false }
    else if index == 3
    then record { stu = false; class = false; course = false; record_page = true }
    else s
