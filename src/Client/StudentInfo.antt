-- ===== src/Client/StudentInfo.antt =====
-- StudentManagementClient/CStudentInfoDlg.cpp: the page for students.
use school_information_manag.Prelude.{
  ℕ, ◌+◌, Option, none, some, List, [], ◌∷◌, ◌++◌, ◌==◌, if◌then◌else◌, Bytes, codes,
}
use school_information_manag.Proto.{stu_add, stu_del, stu_query, stu_edit, stu_edit_check}
use school_information_manag.Net.{Outbox}
use school_information_manag.Listing.{read_file_and_display}
use school_information_manag.Text.{atoi}
use school_information_manag.Text.Format.{int, text, format}
use school_information_manag.Client.Dialog.{
  QueryRequest, query_request, is_empty, box_if_empty, unless_empty, Items, item_text, delete_item,
  background_round, wm_user,
}

-- `boxes` are the texts of the message boxes that were shown.
pub record StudentInfoDlg : Type 0 where
  pub list_stu_info : Items
  pub edit_sid : Bytes
  pub edit_name : Bytes
  pub edit_class_id : Bytes
  pub query_queue : List QueryRequest
  pub boxes : List Bytes

abbrev pub wm_stu_add_ok : ℕ
wm_stu_add_ok = wm_user + 3

abbrev pub wm_stu_add_err : ℕ
wm_stu_add_err = wm_user + 4

abbrev pub wm_stu_del_ok : ℕ
wm_stu_del_ok = wm_user + 5

abbrev pub wm_stu_del_err : ℕ
wm_stu_del_err = wm_user + 6

abbrev pub wm_stu_query_result : ℕ
wm_stu_query_result = wm_user + 7

abbrev pub wm_stu_query_null : ℕ
wm_stu_query_null = wm_user + 8

abbrev pub wm_stu_query_err : ℕ
wm_stu_query_err = wm_user + 9

abbrev pub wm_stu_edit_err : ℕ
wm_stu_edit_err = wm_user + 10

abbrev pub wm_stu_edit_null : ℕ
wm_stu_edit_null = wm_user + 11

abbrev pub wm_stu_edit_ok : ℕ
wm_stu_edit_ok = wm_user + 12

abbrev pub add_format : Bytes
add_format = codes "INSERT INTO student VALUES(%d, '%s', '%s')"

abbrev pub del_format : Bytes
del_format = codes "DELETE FROM student WHERE sid = %d AND name = '%s' AND class_id = '%s'"

abbrev pub check_format : Bytes
check_format = codes "SELECT COUNT(*) FROM student WHERE sid = % d"

abbrev pub edit_format : Bytes
edit_format = codes "UPDATE student SET name = '%s', class_id = '%s' WHERE sid = %d"

abbrev box : Bytes → StudentInfoDlg → StudentInfoDlg
box message d = record d { boxes = d.boxes ++ message ∷ [] }

abbrev push : List QueryRequest → StudentInfoDlg → StudentInfoDlg
push requests d = record d { query_queue = d.query_queue ++ requests }

abbrev clear_edits : StudentInfoDlg → StudentInfoDlg
clear_edits d = record d { edit_sid = []; edit_name = []; edit_class_id = [] }

-- The boxes of ADD and DEL, which do not stop the handler.
abbrev pub empty_boxes : StudentInfoDlg → List Bytes
empty_boxes d =
    box_if_empty d.edit_sid (codes "Please enter ID")
    ++ (box_if_empty d.edit_name (codes "Please enter name")
        ++ box_if_empty d.edit_class_id (codes "Please enter class ID"))

unfoldable pub on_clicked_btn_add : StudentInfoDlg → StudentInfoDlg
on_clicked_btn_add d = record d {
  boxes = d.boxes ++ empty_boxes d;
  query_queue =
      d.query_queue
      ++ query_request stu_add
          (format add_format (int (atoi d.edit_sid) ∷ text d.edit_name ∷ text d.edit_class_id ∷ []))
        ∷ [];
}

unfoldable pub query_text : StudentInfoDlg → Bytes
query_text d =
    format (codes "SELECT * FROM student where 1= 1 ") []
    ++ (unless_empty d.edit_sid (format (codes "AND sid = %d ") (int (atoi d.edit_sid) ∷ []))
        ++ (unless_empty d.edit_name (format (codes "AND name='%s' ") (text d.edit_name ∷ []))
            ++ unless_empty d.edit_class_id
                (format (codes "AND class_id='%s' ") (text d.edit_class_id ∷ []))))

unfoldable pub on_clicked_btn_query : StudentInfoDlg → StudentInfoDlg
on_clicked_btn_query d = push (query_request stu_query (query_text d) ∷ []) d

unfoldable pub on_click_list_stuinfo : Option ℕ → StudentInfoDlg → StudentInfoDlg
on_click_list_stuinfo none d = d
on_click_list_stuinfo (some r) d = record d {
  edit_sid = item_text d.list_stu_info r 0;
  edit_name = item_text d.list_stu_info r 1;
  edit_class_id = item_text d.list_stu_info r 2;
}

unfoldable pub on_clicked_btn_del : StudentInfoDlg → StudentInfoDlg
on_clicked_btn_del d = record d {
  boxes = d.boxes ++ empty_boxes d;
  query_queue =
      d.query_queue
      ++ query_request stu_del
          (format del_format (int (atoi d.edit_sid) ∷ text d.edit_name ∷ text d.edit_class_id ∷ []))
        ∷ [];
}

abbrev pub check_request : StudentInfoDlg → QueryRequest
check_request d = query_request stu_edit_check (format check_format (int (atoi d.edit_sid) ∷ []))

abbrev pub edit_request : StudentInfoDlg → QueryRequest
edit_request d =
    query_request stu_edit
      (format edit_format (text d.edit_name ∷ text d.edit_class_id ∷ int (atoi d.edit_sid) ∷ []))

-- Here an empty edit control ends the handler.
unfoldable pub on_clicked_btn_edit : StudentInfoDlg → StudentInfoDlg
on_clicked_btn_edit d =
    if is_empty d.edit_sid
    then box (codes "Please enter the ID to be modified") d
    else if is_empty d.edit_name
    then box (codes "Please enter name") d
    else if is_empty d.edit_class_id
    then box (codes "Please enter class ID") d
    else push (check_request d ∷ edit_request d ∷ []) d

-- One round of BackgroundThread.
unfoldable pub background_thread : StudentInfoDlg → Outbox → Option (StudentInfoDlg × Outbox)
background_thread d o = elim (background_round d.query_queue o) [
  | none ↦ none
  | some (queue, o') ↦ some (record d { query_queue = queue }, o')
]

unfoldable pub on_add_ok : StudentInfoDlg → StudentInfoDlg
on_add_ok d = clear_edits (box (codes "Add student information successfully") d)

unfoldable pub on_add_err : StudentInfoDlg → StudentInfoDlg
on_add_err d = box (codes "Failed to add student information") d

-- The first selected item is removed.
unfoldable pub on_stu_del_ok : Option ℕ → StudentInfoDlg → StudentInfoDlg
on_stu_del_ok selected d =
    clear_edits (record d { list_stu_info = delete_item selected d.list_stu_info })

unfoldable pub on_stu_del_err : StudentInfoDlg → StudentInfoDlg
on_stu_del_err d = box (codes "Failed to delete student information") d

-- ReadFileAndDisplay adds to the list control; a file that cannot be opened adds nothing.
unfoldable pub displayed : Option Bytes → Items
displayed none = []
displayed (some file) = read_file_and_display 3 file

unfoldable pub on_stu_query_result : Option Bytes → StudentInfoDlg → StudentInfoDlg
on_stu_query_result file d = clear_edits (record d { list_stu_info = displayed file })

unfoldable pub on_stu_query_null : StudentInfoDlg → StudentInfoDlg
on_stu_query_null d = box (codes "No result") d

unfoldable pub on_stu_query_err : StudentInfoDlg → StudentInfoDlg
on_stu_query_err d = box (codes "Query error") d

unfoldable pub on_stu_edit_err : StudentInfoDlg → StudentInfoDlg
on_stu_edit_err d = box (codes "Error modifying data") d

unfoldable pub on_stu_edit_null : StudentInfoDlg → StudentInfoDlg
on_stu_edit_null d = box (codes "Unable to modify a non-existent student ID, please add it first") d

unfoldable pub on_stu_edit_ok : StudentInfoDlg → StudentInfoDlg
on_stu_edit_ok d = d

-- The message map: which handler a posted message runs, given the selected item and the received
-- file at that time. A message that is not in the map changes nothing.
unfoldable pub on_message : Option ℕ → Option Bytes → ℕ → StudentInfoDlg → StudentInfoDlg
on_message selected file wm d =
    if wm == wm_stu_add_ok
    then on_add_ok d
    else if wm == wm_stu_add_err
    then on_add_err d
    else if wm == wm_stu_del_ok
    then on_stu_del_ok selected d
    else if wm == wm_stu_del_err
    then on_stu_del_err d
    else if wm == wm_stu_query_result
    then on_stu_query_result file d
    else if wm == wm_stu_query_null
    then on_stu_query_null d
    else if wm == wm_stu_query_err
    then on_stu_query_err d
    else if wm == wm_stu_edit_err
    then on_stu_edit_err d
    else if wm == wm_stu_edit_null
    then on_stu_edit_null d
    else if wm == wm_stu_edit_ok
    then on_stu_edit_ok d
    else d
