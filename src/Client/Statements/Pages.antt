-- ===== src/Client/Statements/Pages.antt =====
-- Each button of the four pages, from its edit controls to the request that it queues.
use school_information_manag.Prelude.{
  ℕ, ◌≡◌, refl, List, [], ◌∷◌, ◌++◌, false, Bytes, codes, ◌⊎◌, inl, inr, Bool-cases, true, arith,
}
use school_information_manag.Proto.{
  stu_add, stu_del, stu_edit, stu_edit_check, class_add, class_del, class_edit, class_edit_check,
  course_add, course_del, course_edit, course_edit_check, record_add, record_del, record_edit,
  record_edit_check,
}
use school_information_manag.Text.{atoi}
use school_information_manag.Text.Decimal.{atoi-IsInt}
use school_information_manag.Text.Format.{Arg, int, text, pieces}
use school_information_manag.Text.Scan.{IsQuoteFree}
use school_information_manag.Client.Dialog.{QueryRequest, is_empty}
use school_information_manag.Client.StudentInfo.{StudentInfoDlg}
use school_information_manag.Client.ClassInfo.{ClassDlg}
use school_information_manag.Client.CourseInfo.{CourseDlg}
use school_information_manag.Client.RecordInfo.{RecordDlg}
use school_information_manag.Client.StudentInfo
use school_information_manag.Client.ClassInfo
use school_information_manag.Client.CourseInfo
use school_information_manag.Client.RecordInfo
use school_information_manag.Client.Statements.{Asks, query_request-Asks}

-- One request is put behind what is queued.
abbrev pub QueuesOne : List QueryRequest → List QueryRequest → ℕ → Bytes → List Arg → Type 0
QueuesOne before after cmd fmt args =
    (r : QueryRequest) × (after ≡ before ++ r ∷ []) × Asks cmd fmt args r

-- Two requests are put there, in order.
abbrev pub QueuesTwo :
    List QueryRequest → List QueryRequest → ℕ → Bytes → List Arg → ℕ → Bytes → List Arg → Type 0
QueuesTwo before after cmd fmt args cmd' fmt' args' =
    (r : QueryRequest) × (r' : QueryRequest) × (after ≡ before ++ r ∷ r' ∷ [])
    × Asks cmd fmt args r
    × Asks cmd' fmt' args' r'

-- On the students' page, where the name and the class hold no quote, ADD and DEL each queue one
-- request. It has its button's command and the length of its text, and from its text the number that
-- `atoi` reads in the ID and the unchanged other fields are recovered.
pub student_requests :
    (d : StudentInfoDlg)
    → IsQuoteFree d.edit_name
    → IsQuoteFree d.edit_class_id
    → QueuesOne d.query_queue
        (StudentInfo.on_clicked_btn_add d).query_queue
        stu_add
        StudentInfo.add_format
        (int (atoi d.edit_sid) ∷ text d.edit_name ∷ text d.edit_class_id ∷ [])
      × QueuesOne d.query_queue
          (StudentInfo.on_clicked_btn_del d).query_queue
          stu_del
          StudentInfo.del_format
          (int (atoi d.edit_sid) ∷ text d.edit_name ∷ text d.edit_class_id ∷ [])
unfolding StudentInfo.on_clicked_btn_add StudentInfo.on_clicked_btn_del pieces
student_requests d q_edit_name q_edit_class_id = (
  (
    _,
    refl,
    query_request-Asks stu_add StudentInfo.add_format
        (int (atoi d.edit_sid) ∷ text d.edit_name ∷ text d.edit_class_id ∷ [])
        (atoi-IsInt d.edit_sid, refl, (q_edit_name, refl, (q_edit_class_id, refl, tt))),
  ),
  (
    _,
    refl,
    query_request-Asks stu_del StudentInfo.del_format
        (int (atoi d.edit_sid) ∷ text d.edit_name ∷ text d.edit_class_id ∷ [])
        (atoi-IsInt d.edit_sid, refl, (q_edit_name, refl, (q_edit_class_id, refl, tt))),
  ),
)

-- On the students' page, where no edit control is empty and the name and the class hold no quote,
-- EDIT queues the check of the ID and then the update. Each has its command and the length of its
-- text, and from its text the number that `atoi` reads in the ID and the unchanged other fields are
-- recovered.
pub student_edit_requests :
    (d : StudentInfoDlg)
    → IsQuoteFree d.edit_name
    → IsQuoteFree d.edit_class_id
    → is_empty d.edit_sid ≡ false
    → is_empty d.edit_name ≡ false
    → is_empty d.edit_class_id ≡ false
    → QueuesTwo d.query_queue
        (StudentInfo.on_clicked_btn_edit d).query_queue
        stu_edit_check
        StudentInfo.check_format
        (int (atoi d.edit_sid) ∷ [])
        stu_edit
        StudentInfo.edit_format
        (text d.edit_name ∷ text d.edit_class_id ∷ int (atoi d.edit_sid) ∷ [])
unfolding StudentInfo.on_clicked_btn_edit pieces
student_edit_requests d q_edit_name q_edit_class_id a b c =
    rw (a, b, c)
      (
        _,
        _,
        refl,
        query_request-Asks stu_edit_check StudentInfo.check_format (int (atoi d.edit_sid) ∷ [])
            (atoi-IsInt d.edit_sid, tt, tt),
        query_request-Asks stu_edit StudentInfo.edit_format
            (text d.edit_name ∷ text d.edit_class_id ∷ int (atoi d.edit_sid) ∷ [])
            (q_edit_name, refl, (q_edit_class_id, refl, (atoi-IsInt d.edit_sid, tt, tt))),
      )

-- On the classes' page, where the ID and the name hold no quote, ADD and DEL each queue one request,
-- and EDIT the check of the ID and then the update, empty edit controls or not. Each request has its
-- button's command and the length of its text, and from its text the fields are recovered.
pub class_requests :
    (d : ClassDlg)
    → IsQuoteFree d.edit_class_id
    → IsQuoteFree d.edit_class_name
    → QueuesOne d.query_queue
        (ClassInfo.on_clicked_btn_add d).query_queue
        class_add
        ClassInfo.add_format
        (text d.edit_class_id ∷ text d.edit_class_name ∷ [])
      × QueuesOne d.query_queue
          (ClassInfo.on_clicked_btn_del d).query_queue
          class_del
          ClassInfo.del_format
          (text d.edit_class_id ∷ text d.edit_class_name ∷ [])
      × QueuesTwo d.query_queue
          (ClassInfo.on_clicked_btn_edit d).query_queue
          class_edit_check
          ClassInfo.check_format
          (text d.edit_class_id ∷ [])
          class_edit
          ClassInfo.edit_format
          (text d.edit_class_name ∷ text d.edit_class_id ∷ [])
unfolding ClassInfo.on_clicked_btn_add ClassInfo.on_clicked_btn_del ClassInfo.on_clicked_btn_edit
    pieces
class_requests d q_edit_class_id q_edit_class_name = (
  (
    _,
    refl,
    query_request-Asks class_add ClassInfo.add_format
        (text d.edit_class_id ∷ text d.edit_class_name ∷ [])
        (q_edit_class_id, refl, (q_edit_class_name, refl, tt)),
  ),
  (
    _,
    refl,
    query_request-Asks class_del ClassInfo.del_format
        (text d.edit_class_id ∷ text d.edit_class_name ∷ [])
        (q_edit_class_id, refl, (q_edit_class_name, refl, tt)),
  ),
  (
    _,
    _,
    refl,
    query_request-Asks class_edit_check ClassInfo.check_format (text d.edit_class_id ∷ [])
        (q_edit_class_id, refl, tt),
    query_request-Asks class_edit ClassInfo.edit_format
        (text d.edit_class_name ∷ text d.edit_class_id ∷ [])
        (q_edit_class_name, refl, (q_edit_class_id, refl, tt)),
  ),
)

-- On the courses' page, where the ID and the name hold no quote, ADD and DEL each queue one request,
-- and EDIT the check of the ID and then the update, empty edit controls or not. Each request has its
-- button's command and the length of its text, and from its text the fields are recovered.
pub course_requests :
    (d : CourseDlg)
    → IsQuoteFree d.edit_course_id
    → IsQuoteFree d.edit_course_name
    → QueuesOne d.query_queue
        (CourseInfo.on_clicked_btn_add d).query_queue
        course_add
        CourseInfo.add_format
        (text d.edit_course_id ∷ text d.edit_course_name ∷ [])
      × QueuesOne d.query_queue
          (CourseInfo.on_clicked_btn_del d).query_queue
          course_del
          CourseInfo.del_format
          (text d.edit_course_id ∷ text d.edit_course_name ∷ [])
      × QueuesTwo d.query_queue
          (CourseInfo.on_clicked_btn_edit d).query_queue
          course_edit_check
          CourseInfo.check_format
          (text d.edit_course_id ∷ [])
          course_edit
          CourseInfo.edit_format
          (text d.edit_course_name ∷ text d.edit_course_id ∷ [])
unfolding CourseInfo.on_clicked_btn_add CourseInfo.on_clicked_btn_del CourseInfo.on_clicked_btn_edit
    pieces
course_requests d q_edit_course_id q_edit_course_name = (
  (
    _,
    refl,
    query_request-Asks course_add CourseInfo.add_format
        (text d.edit_course_id ∷ text d.edit_course_name ∷ [])
        (q_edit_course_id, refl, (q_edit_course_name, refl, tt)),
  ),
  (
    _,
    refl,
    query_request-Asks course_del CourseInfo.del_format
        (text d.edit_course_id ∷ text d.edit_course_name ∷ [])
        (q_edit_course_id, refl, (q_edit_course_name, refl, tt)),
  ),
  (
    _,
    _,
    refl,
    query_request-Asks course_edit_check CourseInfo.check_format (text d.edit_course_id ∷ [])
        (q_edit_course_id, refl, tt),
    query_request-Asks course_edit CourseInfo.edit_format
        (text d.edit_course_name ∷ text d.edit_course_id ∷ [])
        (q_edit_course_name, refl, (q_edit_course_id, refl, tt)),
  ),
)

-- On the page of chosen courses, where the course holds no quote, ADD and DEL each queue one request,
-- and EDIT the check of the ID and then the update, empty edit controls or not. Each request has its
-- button's command and the length of its text, and from its text the number that `atoi` reads in the
-- ID and the unchanged course are recovered.
pub record_requests :
    (d : RecordDlg)
    → IsQuoteFree d.edit_cid
    → QueuesOne d.query_queue
        (RecordInfo.on_clicked_btn_add d).query_queue
        record_add
        RecordInfo.add_format
        (int (atoi d.edit_sid) ∷ text d.edit_cid ∷ [])
      × QueuesOne d.query_queue
          (RecordInfo.on_clicked_btn_del d).query_queue
          record_del
          RecordInfo.del_format
          (int (atoi d.edit_sid) ∷ text d.edit_cid ∷ [])
      × QueuesTwo d.query_queue
          (RecordInfo.on_clicked_btn_edit d).query_queue
          record_edit_check
          RecordInfo.check_format
          (int (atoi d.edit_sid) ∷ [])
          record_edit
          RecordInfo.edit_format
          (text d.edit_cid ∷ int (atoi d.edit_sid) ∷ [])
unfolding RecordInfo.on_clicked_btn_add RecordInfo.on_clicked_btn_del RecordInfo.on_clicked_btn_edit
    pieces
record_requests d q_edit_cid = (
  (
    _,
    refl,
    query_request-Asks record_add RecordInfo.add_format
        (int (atoi d.edit_sid) ∷ text d.edit_cid ∷ [])
        (atoi-IsInt d.edit_sid, refl, (q_edit_cid, refl, tt)),
  ),
  (
    _,
    refl,
    query_request-Asks record_del RecordInfo.del_format
        (int (atoi d.edit_sid) ∷ text d.edit_cid ∷ [])
        (atoi-IsInt d.edit_sid, refl, (q_edit_cid, refl, tt)),
  ),
  (
    _,
    _,
    refl,
    query_request-Asks record_edit_check RecordInfo.check_format (int (atoi d.edit_sid) ∷ [])
        (atoi-IsInt d.edit_sid, tt, tt),
    query_request-Asks record_edit RecordInfo.edit_format
        (text d.edit_cid ∷ int (atoi d.edit_sid) ∷ [])
        (q_edit_cid, refl, (atoi-IsInt d.edit_sid, tt, tt)),
  ),
)

-- On the students' page an EDIT with an empty edit control queues nothing and shows one box.
pub student_edit_stops :
    (d : StudentInfoDlg)
    → ((is_empty d.edit_sid ≡ true)
        ⊎ ((is_empty d.edit_name ≡ true) ⊎ (is_empty d.edit_class_id ≡ true)))
    → (message : Bytes) × (StudentInfo.on_clicked_btn_edit d
        ≡ record d { boxes = d.boxes ++ message ∷ [] })
unfolding StudentInfo.on_clicked_btn_edit
student_edit_stops d h = elim (Bool-cases (is_empty d.edit_sid)) [
  | inl a ↦ (codes "Please enter the ID to be modified", rw a refl)
  | inr a ↦ elim (Bool-cases (is_empty d.edit_name)) [
    | inl b ↦ (codes "Please enter name", rw a (rw b refl))
    | inr b ↦ (codes "Please enter class ID", ground arith)
  ]
]
