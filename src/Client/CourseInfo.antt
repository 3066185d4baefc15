-- ===== src/Client/CourseInfo.antt =====
-- StudentManagementClient/CCourseDlg.cpp: the page for courses.
use school_information_manag.Prelude.{
  ℕ, ◌+◌, Option, none, some, List, [], ◌∷◌, ◌++◌, ◌==◌, if◌then◌else◌, Bytes, codes,
}
use school_information_manag.Proto.{
  course_add, course_del, course_query, course_edit, course_edit_check,
}
use school_information_manag.Net.{Outbox}
use school_information_manag.Listing.{read_file_and_display}
use school_information_manag.Text.Format.{text, format}
use school_information_manag.Client.Dialog.{
  QueryRequest, query_request, box_if_empty, unless_empty, Items, item_text, delete_item,
  background_round, wm_user,
}

pub record CourseDlg : Type 0 where
  pub list_course : Items
  pub edit_course_id : Bytes
  pub edit_course_name : Bytes
  pub query_queue : List QueryRequest
  pub boxes : List Bytes

abbrev pub wm_course_add_ok : ℕ
wm_course_add_ok = wm_user + 23

abbrev pub wm_course_add_err : ℕ
wm_course_add_err = wm_user + 24

abbrev pub wm_course_del_ok : ℕ
wm_course_del_ok = wm_user + 25

abbrev pub wm_course_del_err : ℕ
wm_course_del_err = wm_user + 26

abbrev pub wm_course_query_result : ℕ
wm_course_query_result = wm_user + 27

abbrev pub wm_course_query_null : ℕ
wm_course_query_null = wm_user + 28

abbrev pub wm_course_query_err : ℕ
wm_course_query_err = wm_user + 29

abbrev pub wm_course_edit_err : ℕ
wm_course_edit_err = wm_user + 30

abbrev pub wm_course_edit_null : ℕ
wm_course_edit_null = wm_user + 31

abbrev pub wm_course_edit_ok : ℕ
wm_course_edit_ok = wm_user + 32

abbrev pub add_format : Bytes
add_format = codes "INSERT INTO course VALUES('%s', '%s')"

abbrev pub del_format : Bytes
del_format = codes "DELETE FROM course WHERE id = '%s' AND name = '%s'"

abbrev pub check_format : Bytes
check_format = codes "SELECT COUNT(*) FROM course WHERE id = '%s'"

abbrev pub edit_format : Bytes
edit_format = codes "UPDATE course SET name = '%s' WHERE id = '%s'"

abbrev box : Bytes → CourseDlg → CourseDlg
box message d = record d { boxes = d.boxes ++ message ∷ [] }

abbrev clear_edits : CourseDlg → CourseDlg
clear_edits d = record d { edit_course_id = []; edit_course_name = [] }

-- The boxes for empty edit controls, which do not stop the handlers.
abbrev pub empty_boxes : CourseDlg → List Bytes
empty_boxes d =
    box_if_empty d.edit_course_id (codes "Please enter course ID")
    ++ box_if_empty d.edit_course_name (codes "Please enter course name")

unfoldable pub on_clicked_btn_add : CourseDlg → CourseDlg
on_clicked_btn_add d = record d {
  boxes = d.boxes ++ empty_boxes d;
  query_queue =
      d.query_queue
      ++ query_request course_add
          (format add_format (text d.edit_course_id ∷ text d.edit_course_name ∷ []))
        ∷ [];
}

unfoldable pub on_clicked_btn_del : CourseDlg → CourseDlg
on_clicked_btn_del d = record d {
  boxes = d.boxes ++ empty_boxes d;
  query_queue =
      d.query_queue
      ++ query_request course_del
          (format del_format (text d.edit_course_id ∷ text d.edit_course_name ∷ []))
        ∷ [];
}

abbrev pub check_request : CourseDlg → QueryRequest
check_request d = query_request course_edit_check (format check_format (text d.edit_course_id ∷ []))

abbrev pub edit_request : CourseDlg → QueryRequest
edit_request d =
    query_request course_edit
      (format edit_format (text d.edit_course_name ∷ text d.edit_course_id ∷ []))

-- An empty edit control shows a box, and both requests are queued all the same.
unfoldable pub on_clicked_btn_edit : CourseDlg → CourseDlg
on_clicked_btn_edit d = record d {
  boxes = d.boxes ++ empty_boxes d;
  query_queue = d.query_queue ++ check_request d ∷ edit_request d ∷ [];
}

unfoldable pub query_text : CourseDlg → Bytes
query_text d =
    format (codes "SELECT * FROM course where 1= 1 ") []
    ++ (unless_empty d.edit_course_id (format (codes "AND id = '%s' ") (text d.edit_course_id ∷ []))
        ++ unless_empty d.edit_course_name
            (format (codes "AND name='%s' ") (text d.edit_course_name ∷ [])))

unfoldable pub on_clicked_btn_query : CourseDlg → CourseDlg
on_clicked_btn_query d = record d {
  query_queue = d.query_queue ++ query_request course_query (query_text d) ∷ [];
}

unfoldable pub on_click_list_course : Option ℕ → CourseDlg → CourseDlg
on_click_list_course none d = d
on_click_list_course (some r) d = record d {
  edit_course_id = item_text d.list_course r 0;
  edit_course_name = item_text d.list_course r 1;
}

-- One round of BackgroundThread.
unfoldable pub background_thread : CourseDlg → Outbox → Option (CourseDlg × Outbox)
background_thread d o = elim (background_round d.query_queue o) [
  | none ↦ none
  | some (queue, o') ↦ some (record d { query_queue = queue }, o')
]

unfoldable pub on_course_add_ok : CourseDlg → CourseDlg
on_course_add_ok d = clear_edits (box (codes "Successfully added course info") d)

unfoldable pub on_course_add_err : CourseDlg → CourseDlg
on_course_add_err d = box (codes "Failed to add course information") d

-- The first selected item is removed.
unfoldable pub on_course_del_ok : Option ℕ → CourseDlg → CourseDlg
on_course_del_ok selected d =
    clear_edits (record d { list_course = delete_item selected d.list_course })

unfoldable pub on_course_del_err : CourseDlg → CourseDlg
on_course_del_err d = box (codes "Failed to delete course information") d

-- ReadFileAndDisplay adds to the list control; a file that cannot be opened adds nothing.
unfoldable pub displayed : Option Bytes → Items
displayed none = []
displayed (some file) = read_file_and_display 2 file

unfoldable pub on_course_query_result : Option Bytes → CourseDlg → CourseDlg
on_course_query_result file d = clear_edits (record d { list_course = displayed file })

unfoldable pub on_course_query_null : CourseDlg → CourseDlg
on_course_query_null d = box (codes "No result") d

unfoldable pub on_course_query_err : CourseDlg → CourseDlg
on_course_query_err d = box (codes "Query error") d

unfoldable pub on_course_edit_err : CourseDlg → CourseDlg
on_course_edit_err d = box (codes "Error modifying data") d

unfoldable pub on_course_edit_null : CourseDlg → CourseDlg
on_course_edit_null d =
    box (codes "Unable to modify a non-existent course number, please add it first") d

unfoldable pub on_course_edit_ok : CourseDlg → CourseDlg
on_course_edit_ok d = d

-- The message map: which handler a posted message runs, given the selected item and the received
-- file at that time. A message that is not in the map changes nothing.
unfoldable pub on_message : Option ℕ → Option Bytes → ℕ → CourseDlg → CourseDlg
on_message selected file wm d =
    if wm == wm_course_add_ok
    then on_course_add_ok d
    else if wm == wm_course_add_err
    then on_course_add_err d
    else if wm == wm_course_del_ok
    then on_course_del_ok selected d
    else if wm == wm_course_del_err
    then on_course_del_err d
    else if wm == wm_course_query_result
    then on_course_query_result file d
    else if wm == wm_course_query_null
    then on_course_query_null d
    else if wm == wm_course_query_err
    then on_course_query_err d
    else if wm == wm_course_edit_null
    then on_course_edit_null d
    else if wm == wm_course_edit_ok
    then on_course_edit_ok d
    else if wm == wm_course_edit_err
    then on_course_edit_err d
    else d
