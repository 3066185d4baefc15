-- ===== src/Client/Statements/Queries.antt =====
-- The statements of the QUERY buttons, whose conditions stand for the edit controls that are filled.
use school_information_manag.Prelude.{
  ℕ, ◌≡◌, refl, some, List, [], ◌∷◌, ◌++◌, append-nil, All, if◌then◌else◌, length, Bytes, codes,
}
use school_information_manag.Proto.{stu_query, class_query, course_query, record_query}
use school_information_manag.Text.{atoi}
use school_information_manag.Text.Decimal.{atoi-IsInt}
use school_information_manag.Text.Format.{Piece, Arg, int, text, plain, pieces, format, render}
use school_information_manag.Text.Scan.{IsQuoteFree, Fits, scan, scan-render}
use school_information_manag.Text.Parts.{EndsLit, Part, format-Part, Part-append, unless-Part}
use school_information_manag.Client.Dialog.{QueryRequest, query_request, is_empty, unless_empty}
use school_information_manag.Client.StudentInfo.{StudentInfoDlg}
use school_information_manag.Client.ClassInfo.{ClassDlg}
use school_information_manag.Client.CourseInfo.{CourseDlg}
use school_information_manag.Client.RecordInfo.{RecordDlg}
use school_information_manag.Client.StudentInfo
use school_information_manag.Client.ClassInfo
use school_information_manag.Client.CourseInfo
use school_information_manag.Client.RecordInfo

-- A condition: the edit control, its format, and its argument.
pub record Condition : Type 0 where
  pub field : Bytes
  pub fmt : Bytes
  pub arg : Arg

-- The pieces of the base and of the conditions whose edit control is filled.
abbrev pub filled_pieces : List Condition → List Piece
filled_pieces [] = []
filled_pieces (c ∷ cs) = (if is_empty c.field then [] else pieces plain c.fmt) ++ filled_pieces cs

abbrev pub filled_args : List Condition → List Arg
filled_args [] = []
filled_args (c ∷ cs) = (if is_empty c.field then [] else c.arg ∷ []) ++ filled_args cs

-- One request is put behind what is queued; it has this command and the length of its text, and the
-- text is the base with just the conditions of the filled edit controls, in order, whose arguments
-- are recovered from it.
abbrev pub QueuesQuery : List QueryRequest → List QueryRequest → ℕ → Bytes → List Condition → Type 0
QueuesQuery before after cmd base cs =
    (r : QueryRequest) × (after ≡ before ++ r ∷ [])
    × (r.hdr.n_cmd ≡ cmd)
    × (r.hdr.n_len ≡ length r.query)
    × (scan (pieces plain base ++ filled_pieces cs) r.query ≡ some (filled_args cs))

Part-scan : {s : Bytes} {ps : List Piece} {args : List Arg} → Part s ps args → scan ps s ≡ some args
Part-scan {s} {ps} {args} p = rw p.printed (scan-render ps args p.fits)

abbrev conditions_text : List Condition → Bytes
conditions_text [] = []
conditions_text (c ∷ cs) = unless_empty c.field (format c.fmt (c.arg ∷ [])) ++ conditions_text cs

-- The argument can be read back, and more text may follow.
abbrev IsReadable : Condition → Type 0
IsReadable c = EndsLit (pieces plain c.fmt) × Fits (pieces plain c.fmt) (c.arg ∷ [])

conditions-Part :
    (cs : List Condition)
    → All IsReadable cs
    → Part (conditions_text cs) (filled_pieces cs) (filled_args cs)
conditions-Part [] h = unfold render in record { printed = refl; open_end = tt; fits = tt }
conditions-Part (c ∷ cs) h =
    Part-append (unless-Part (is_empty c.field) (format-Part c.fmt (c.arg ∷ []) h.0.0 h.0.1))
      (conditions-Part cs h.1)

-- What a QUERY button queues, from the text that it makes.
query_lem :
    (queue : List QueryRequest) (cmd : ℕ) (base query : Bytes) (cs : List Condition)
    → EndsLit (pieces plain base)
    → Fits (pieces plain base) []
    → All IsReadable cs
    → query ≡ format base [] ++ conditions_text cs
    → QueuesQuery queue (queue ++ query_request cmd query ∷ []) cmd base cs
query_lem queue cmd base query cs e f h q = (
  query_request cmd query,
  refl,
  refl,
  refl,
  rw q (Part-scan (Part-append (format-Part base [] e f) (conditions-Part cs h))),
)

abbrev pub stu_conditions : StudentInfoDlg → List Condition
stu_conditions d =
    record { field = d.edit_sid; fmt = codes "AND sid = %d "; arg = int (atoi d.edit_sid) }
    ∷ record { field = d.edit_name; fmt = codes "AND name='%s' "; arg = text d.edit_name }
    ∷ record {
      field = d.edit_class_id;
      fmt = codes "AND class_id='%s' ";
      arg = text d.edit_class_id;
    }
    ∷ []

-- The students' page. The QUERY button queues one request, where the name and the class hold no
-- quote: its text is the base with a condition for each filled edit control and for no other, from
-- which the arguments are recovered.
pub student_query_reads :
    (d : StudentInfoDlg)
    → IsQuoteFree d.edit_name
    → IsQuoteFree d.edit_class_id
    → QueuesQuery d.query_queue
        (StudentInfo.on_clicked_btn_query d).query_queue
        stu_query
        (codes "SELECT * FROM student where 1= 1 ")
        (stu_conditions d)
unfolding StudentInfo.on_clicked_btn_query StudentInfo.query_text pieces
student_query_reads d q_edit_name q_edit_class_id =
    query_lem d.query_queue stu_query (codes "SELECT * FROM student where 1= 1 ")
      (StudentInfo.query_text d) (stu_conditions d) tt tt
      (
        (tt, (atoi-IsInt d.edit_sid, refl, tt)),
        ((tt, (q_edit_name, refl, tt)), ((tt, (q_edit_class_id, refl, tt)), tt)),
      )
      (simp append-nil)

abbrev pub class_conditions : ClassDlg → List Condition
class_conditions d =
    record { field = d.edit_class_id; fmt = codes "AND id = '%s' "; arg = text d.edit_class_id }
    ∷ record {
      field = d.edit_class_name;
      fmt = codes "AND name='%s' ";
      arg = text d.edit_class_name;
    }
    ∷ []

-- The classes' page. The QUERY button queues one request, where the ID and the name hold no quote:
-- its text is the base with a condition for each filled edit control and for no other, from which
-- the arguments are recovered.
pub class_query_reads :
    (d : ClassDlg)
    → IsQuoteFree d.edit_class_id
    → IsQuoteFree d.edit_class_name
    → QueuesQuery d.query_queue
        (ClassInfo.on_clicked_btn_query d).query_queue
        class_query
        (codes "SELECT * FROM class where 1= 1 ")
        (class_conditions d)
unfolding ClassInfo.on_clicked_btn_query ClassInfo.query_text pieces
class_query_reads d q_edit_class_id q_edit_class_name =
    query_lem d.query_queue class_query (codes "SELECT * FROM class where 1= 1 ")
      (ClassInfo.query_text d) (class_conditions d) tt tt
      ((tt, (q_edit_class_id, refl, tt)), ((tt, (q_edit_class_name, refl, tt)), tt))
      (simp append-nil)

abbrev pub course_conditions : CourseDlg → List Condition
course_conditions d =
    record { field = d.edit_course_id; fmt = codes "AND id = '%s' "; arg = text d.edit_course_id }
    ∷ record {
      field = d.edit_course_name;
      fmt = codes "AND name='%s' ";
      arg = text d.edit_course_name;
    }
    ∷ []

-- The courses' page. The QUERY button queues one request, where the ID and the name hold no quote:
-- its text is the base with a condition for each filled edit control and for no other, from which
-- the arguments are recovered.
pub course_query_reads :
    (d : CourseDlg)
    → IsQuoteFree d.edit_course_id
    → IsQuoteFree d.edit_course_name
    → QueuesQuery d.query_queue
        (CourseInfo.on_clicked_btn_query d).query_queue
        course_query
        (codes "SELECT * FROM course where 1= 1 ")
        (course_conditions d)
unfolding CourseInfo.on_clicked_btn_query CourseInfo.query_text pieces
course_query_reads d q_edit_course_id q_edit_course_name =
    query_lem d.query_queue course_query (codes "SELECT * FROM course where 1= 1 ")
      (CourseInfo.query_text d) (course_conditions d) tt tt
      ((tt, (q_edit_course_id, refl, tt)), ((tt, (q_edit_course_name, refl, tt)), tt))
      (simp append-nil)

abbrev pub record_conditions : RecordDlg → List Condition
record_conditions d =
    record { field = d.edit_sid; fmt = codes "AND record_sid = %d "; arg = int (atoi d.edit_sid) }
    ∷ record { field = d.edit_cid; fmt = codes "AND record_cid='%s' "; arg = text d.edit_cid }
    ∷ []

-- The page of chosen courses. The QUERY button queues one request, where the course holds no quote:
-- its text is the base with a condition for each filled edit control and for no other, from which
-- the arguments are recovered.
pub record_query_reads :
    (d : RecordDlg)
    → IsQuoteFree d.edit_cid
    → QueuesQuery d.query_queue
        (RecordInfo.on_clicked_btn_query d).query_queue
        record_query
        (codes "SELECT * FROM record where 1= 1 ")
        (record_conditions d)
unfolding RecordInfo.on_clicked_btn_query RecordInfo.query_text pieces
record_query_reads d q_edit_cid =
    query_lem d.query_queue record_query (codes "SELECT * FROM record where 1= 1 ")
      (RecordInfo.query_text d) (record_conditions d) tt tt
      ((tt, (atoi-IsInt d.edit_sid, refl, tt)), ((tt, (q_edit_cid, refl, tt)), tt))
      (simp append-nil)
