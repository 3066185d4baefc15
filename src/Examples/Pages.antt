-- ===== src/Examples/Pages.antt =====
-- The pages' buttons.
use school_information_manag.Prelude.{◌≡◌, arith, [], ◌∷◌, codes}
use school_information_manag.Proto.{stu_add, stu_del, stu_query}
use school_information_manag.Text.{atoi}
use school_information_manag.Text.Format.{int, text}
use school_information_manag.Client.StudentInfo.{StudentInfoDlg}
use school_information_manag.Client.ClassInfo.{ClassDlg}
use school_information_manag.Client.StudentInfo
use school_information_manag.Client.ClassInfo
use school_information_manag.Client.Statements.Pages.{QueuesOne, student_requests}
use school_information_manag.Client.Statements.Queries.{
  QueuesQuery, stu_conditions, student_query_reads,
}
use school_information_manag.Client.Statements.Injection.{class_add_collides}

abbrev student_page : StudentInfoDlg
student_page = record {
  list_stu_info = [];
  edit_sid = codes "7";
  edit_name = codes "B";
  edit_class_id = codes "1";
  query_queue = [];
  boxes = [];
}

abbrev class_page : ClassDlg
class_page = record {
  list_class = [];
  edit_class_id = codes "1";
  edit_class_name = codes "A";
  query_queue = [];
  boxes = [];
}

student_requests_example :
    QueuesOne []
      (StudentInfo.on_clicked_btn_add student_page).query_queue
      stu_add
      StudentInfo.add_format
      (int (atoi (codes "7")) ∷ text (codes "B") ∷ text (codes "1") ∷ [])
    × QueuesOne []
        (StudentInfo.on_clicked_btn_del student_page).query_queue
        stu_del
        StudentInfo.del_format
        (int (atoi (codes "7")) ∷ text (codes "B") ∷ text (codes "1") ∷ [])
student_requests_example =
    student_requests student_page ((λ e. omega arith), tt) ((λ e. omega arith), tt)

student_query_reads_example :
    QueuesQuery []
      (StudentInfo.on_clicked_btn_query student_page).query_queue
      stu_query
      (codes "SELECT * FROM student where 1= 1 ")
      (stu_conditions student_page)
student_query_reads_example =
    student_query_reads student_page ((λ e. omega arith), tt) ((λ e. omega arith), tt)

class_add_collides_example :
    (ClassInfo.on_clicked_btn_add (record class_page {
      edit_class_id = codes "1', 'A";
      edit_class_name = codes "B";
    })).query_queue
    ≡ (ClassInfo.on_clicked_btn_add (record class_page {
      edit_class_id = codes "1";
      edit_class_name = codes "A', 'B";
    })).query_queue
class_add_collides_example = class_add_collides class_page (codes "1") (codes "A") (codes "B")
