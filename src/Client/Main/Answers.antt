-- ===== src/Client/Main/Answers.antt =====
-- Which page hears of which answer in RecvThread (StudentManagementClient/CMainDlg.cpp).
use school_information_manag.Prelude.{
  ℕ, ◌<◌, ◌^◌, ◌≡◌, refl, ap, ◌∙◌, Option, List, [], ◌∷◌, ◌++◌, arith, length, append-nil, Bytes,
  zero, suc, sym, drop, drop-all, Bool, append_assoc,
}
use school_information_manag.Proto.{PacketHdr, hdr_bytes, hdr_of_bytes, hdr_size}
use school_information_manag.Proto.Codec.{hdr_of_bytes-hdr_bytes}
use school_information_manag.Proto.Requests.{
  Entity, student, class, course, choice, Change, add, del, edit, ok_code, err_code, edit_null_code,
  query_err_code, query_null_code,
}
use school_information_manag.Net.{Arrival, closed, push_back, recv}
use school_information_manag.Client.StudentInfo.{StudentInfoDlg}
use school_information_manag.Client.StudentInfo
use school_information_manag.Client.ClassInfo
use school_information_manag.Client.CourseInfo
use school_information_manag.Client.RecordInfo
use school_information_manag.Client.Main.{
  Page, stu_dlg, class_dlg, course_dlg, record_dlg, Post, Receiver, next, post, on_answer,
  on_student_answer, on_class_answer, on_course_answer, on_record_answer, recv_round, recv_rounds,
}

-- The page for a kind of record.
abbrev pub page_of : Entity → Page
page_of student = stu_dlg
page_of class = class_dlg
page_of course = course_dlg
page_of choice = record_dlg

-- The page that is told of a success: the one for that kind of record, but for a changed class.
abbrev pub ok_page : Entity → Change → Page
ok_page student add = stu_dlg
ok_page student del = stu_dlg
ok_page student edit = stu_dlg
ok_page class add = class_dlg
ok_page class del = class_dlg
ok_page class edit = stu_dlg
ok_page course add = course_dlg
ok_page course del = course_dlg
ok_page course edit = course_dlg
ok_page choice add = record_dlg
ok_page choice del = record_dlg
ok_page choice edit = record_dlg

abbrev pub ok_message : Entity → Change → ℕ
ok_message student add = StudentInfo.wm_stu_add_ok
ok_message student del = StudentInfo.wm_stu_del_ok
ok_message student edit = StudentInfo.wm_stu_edit_ok
ok_message class add = ClassInfo.wm_class_add_ok
ok_message class del = ClassInfo.wm_class_del_ok
ok_message class edit = ClassInfo.wm_class_edit_ok
ok_message course add = CourseInfo.wm_course_add_ok
ok_message course del = CourseInfo.wm_course_del_ok
ok_message course edit = CourseInfo.wm_course_edit_ok
ok_message choice add = RecordInfo.wm_record_add_ok
ok_message choice del = RecordInfo.wm_record_del_ok
ok_message choice edit = RecordInfo.wm_record_edit_ok

abbrev pub err_message : Entity → Change → ℕ
err_message student add = StudentInfo.wm_stu_add_err
err_message student del = StudentInfo.wm_stu_del_err
err_message student edit = StudentInfo.wm_stu_edit_err
err_message class add = ClassInfo.wm_class_add_err
err_message class del = ClassInfo.wm_class_del_err
err_message class edit = ClassInfo.wm_class_edit_err
err_message course add = CourseInfo.wm_course_add_err
err_message course del = CourseInfo.wm_course_del_err
err_message course edit = CourseInfo.wm_course_edit_err
err_message choice add = RecordInfo.wm_record_add_err
err_message choice del = RecordInfo.wm_record_del_err
err_message choice edit = RecordInfo.wm_record_edit_err

abbrev pub edit_null_message : Entity → ℕ
edit_null_message student = StudentInfo.wm_stu_edit_null
edit_null_message class = ClassInfo.wm_class_edit_null
edit_null_message course = CourseInfo.wm_course_edit_null
edit_null_message choice = RecordInfo.wm_record_edit_null

abbrev pub query_err_message : Entity → ℕ
query_err_message student = StudentInfo.wm_stu_query_err
query_err_message class = ClassInfo.wm_class_query_err
query_err_message course = CourseInfo.wm_course_query_err
query_err_message choice = RecordInfo.wm_record_query_err

abbrev pub query_null_message : Entity → ℕ
query_null_message student = StudentInfo.wm_stu_query_null
query_null_message class = ClassInfo.wm_class_query_null
query_null_message course = CourseInfo.wm_course_query_null
query_null_message choice = RecordInfo.wm_record_query_null

-- The answer is told to this page by this message, and nothing else changes.
abbrev pub Posts : (Page → Bool) → ℕ → Page → ℕ → Type 0
Posts can_write cmd w message =
    (n_len : ℕ) (t : Receiver)
    → on_answer can_write (record { n_cmd = cmd; n_len = n_len }) t ≡ next (post w message t)

-- Every header that answers an ADD, a DEL or an EDIT is posted once, as the message with the same
-- name, to the page for that kind of record, except that the success of a class's EDIT goes to the
-- students' page.
pub change_answers :
    (can_write : Page → Bool) (x : Entity) (c : Change)
    → Posts can_write (ok_code x c) (ok_page x c) (ok_message x c)
      × Posts can_write (err_code x c) (page_of x) (err_message x c)
unfolding on_answer on_student_answer on_class_answer on_course_answer on_record_answer
change_answers can_write student add = ((λ n t. refl), (λ n t. refl))
change_answers can_write student del = ((λ n t. refl), (λ n t. refl))
change_answers can_write student edit = ((λ n t. refl), (λ n t. refl))
change_answers can_write class add = ((λ n t. refl), (λ n t. refl))
change_answers can_write class del = ((λ n t. refl), (λ n t. refl))
change_answers can_write class edit = ((λ n t. refl), (λ n t. refl))
change_answers can_write course add = ((λ n t. refl), (λ n t. refl))
change_answers can_write course del = ((λ n t. refl), (λ n t. refl))
change_answers can_write course edit = ((λ n t. refl), (λ n t. refl))
change_answers can_write choice add = ((λ n t. refl), (λ n t. refl))
change_answers can_write choice del = ((λ n t. refl), (λ n t. refl))
change_answers can_write choice edit = ((λ n t. refl), (λ n t. refl))

-- Every other header without a file, for an identifier that does not exist, a query that was
-- rejected and a query without a result, is posted once, as the message with the same name, to the
-- page for that kind of record.
pub other_answers :
    (can_write : Page → Bool) (x : Entity)
    → Posts can_write (edit_null_code x) (page_of x) (edit_null_message x)
      × Posts can_write (query_err_code x) (page_of x) (query_err_message x)
      × Posts can_write (query_null_code x) (page_of x) (query_null_message x)
unfolding on_answer on_student_answer on_class_answer on_course_answer on_record_answer
other_answers can_write student = ((λ n t. refl), (λ n t. refl), (λ n t. refl))
other_answers can_write class = ((λ n t. refl), (λ n t. refl), (λ n t. refl))
other_answers can_write course = ((λ n t. refl), (λ n t. refl), (λ n t. refl))
other_answers can_write choice = ((λ n t. refl), (λ n t. refl), (λ n t. refl))

-- The students' page has no handler for the success of a class's EDIT, so that message changes
-- nothing there, in whatever state the page is.
pub class_edit_ok_lost :
    (can_write : Page → Bool) (n_len : ℕ) (t : Receiver) (d : StudentInfoDlg) (selected : Option ℕ)
    (file : Option Bytes)
    → (on_answer can_write (record { n_cmd = ok_code class edit; n_len = n_len }) t
        ≡ next (post stu_dlg ClassInfo.wm_class_edit_ok t))
      × (StudentInfo.on_message selected file ClassInfo.wm_class_edit_ok d ≡ d)
unfolding on_answer on_student_answer on_class_answer StudentInfo.on_message
class_edit_ok_lost can_write n_len t d selected file = (refl, refl)

drop-hdr_bytes : (hdr : PacketHdr) (old : Bytes) → length old ≡ hdr_size → drop hdr_size old ≡ []
drop-hdr_bytes hdr old h = drop-all hdr_size old (omega arith)

-- A header that arrives whole is read as it was sent, and acted on.
pub recv_round_whole :
    (can_write : Page → Bool) (hdr : PacketHdr) (later : List Arrival) (t : Receiver)
    → hdr.n_cmd < 2 ^ 16
    → hdr.n_len < 2 ^ 32
    → length t.recv_hdr ≡ hdr_size
    → recv_round can_write (record t { inbox = push_back (hdr_bytes hdr) later })
      ≡ on_answer can_write hdr (record t { inbox = later; recv_hdr = hdr_bytes hdr })
unfolding recv_round recv hdr_bytes
recv_round_whole can_write hdr later t h k size = rw (drop-hdr_bytes hdr t.recv_hdr size) (
    ap
      (λ g.
        on_answer can_write g
          (record t { inbox = later; recv_hdr = unfold hdr_bytes in hdr_bytes hdr }))
      (unfold hdr_bytes in hdr_of_bytes-hdr_bytes hdr h k))

-- The messages that a number of rounds post once the connection is closed.
abbrev pub copies : ℕ → Post → List Post
copies zero p = []
copies (suc n) p = p ∷ copies n p

closed_round :
    (can_write : Page → Bool) (later : List Arrival) (t : Receiver)
    → t.inbox ≡ closed ∷ later
    → recv_round can_write t ≡ on_answer can_write (hdr_of_bytes t.recv_hdr) t
unfolding recv_round recv
closed_round can_write later t e = rw e refl

-- When the server has closed the connection, each round reads nothing and acts on the old header
-- again: where that was the success of an ADD, a DEL or an EDIT, every further round posts its
-- message once more, for ever.
pub closed_reposts :
    (can_write : Page → Bool) (n n_len : ℕ) (later : List Arrival) (x : Entity) (c : Change)
    (t : Receiver)
    → t.inbox ≡ closed ∷ later
    → hdr_of_bytes t.recv_hdr ≡ record { n_cmd = ok_code x c; n_len = n_len }
    → recv_rounds can_write n t
      ≡ next (record t {
        posted = t.posted ++ copies n (record { window = ok_page x c; message = ok_message x c });
      })
unfolding recv_rounds
closed_reposts can_write zero n_len later x c t e h =
    λ i. next (record t { posted = sym (append-nil t.posted) i })
closed_reposts can_write (suc n) n_len later x c t e h =
    rw
      (
        closed_round can_write later t e
            ∙ ap (λ hdr. on_answer can_write hdr t) h
            ∙ (change_answers can_write x c).0 n_len t,
        recv_rounds,
      )
      (closed_reposts can_write n n_len later x c (post (ok_page x c) (ok_message x c) t) e h ∙ λ i.
        next (record t {
          posted =
              append_assoc t.posted (record { window = ok_page x c; message = ok_message x c } ∷ [])
                (copies n (record { window = ok_page x c; message = ok_message x c })) i;
        }))
