-- ===== src/Client/ClassInfo.antt =====
-- StudentManagementClient/CClassDlg.cpp: the page for classes.
use school_information_manag.Prelude.{
  ℕ, ◌+◌, Option, none, some, List, [], ◌∷◌, ◌++◌, ◌==◌, if◌then◌else◌, Bytes, codes,
}
use school_information_manag.Proto.{class_add, class_del, class_query, class_edit, class_edit_check}
use school_information_manag.Net.{Outbox}
use school_information_manag.Listing.{read_file_and_display}
use school_information_manag.Text.Format.{text, format}
use school_information_manag.Client.Dialog.{
  QueryRequest, query_request, box_if_empty, unless_empty, Items, item_text, delete_item,
  background_round, wm_user,
}

pub record ClassDlg : Type 0 where
  pub list_class : Items
  pub edit_class_id : Bytes
  pub edit_class_name : Bytes
  pub query_queue : List QueryRequest
  pub boxes : List Bytes

abbrev pub wm_class_add_ok : ℕ
wm_class_add_ok = wm_user + 13

abbrev pub wm_class_add_err : ℕ
wm_class_add_err = wm_user + 14

abbrev pub wm_class_del_ok : ℕ
wm_class_del_ok = wm_user + 15

abbrev pub wm_class_del_err : ℕ
wm_class_del_err = wm_user + 16

abbrev pub wm_class_query_result : ℕ
wm_class_query_result = wm_user + 17

abbrev pub wm_class_query_null : ℕ
wm_class_query_null = wm_user + 18

abbrev pub wm_class_query_err : ℕ
wm_class_query_err = wm_user + 19

abbrev pub wm_class_edit_err : ℕ
wm_class_edit_err = wm_user + 20

abbrev pub wm_class_edit_null : ℕ
wm_class_edit_null = wm_user + 21

abbrev pub wm_class_edit_ok : ℕ
wm_class_edit_ok = wm_user + 22

abbrev pub add_format : Bytes
add_format = codes "INSERT INTO class VALUES('%s', '%s')"

abbrev pub del_format : Bytes
del_format = codes "DELETE FROM class WHERE id = '%s' AND name = '%s'"

abbrev pub check_format : Bytes
check_format = codes "SELECT COUNT(*) FROM class WHERE id = '%s'"

abbrev pub edit_format : Bytes
edit_format = codes "UPDATE class SET name = '%s' WHERE id = '%s'"

abbrev box : Bytes → ClassDlg → ClassDlg
box message d = record d { boxes = d.boxes ++ message ∷ [] }

abbrev clear_edits : ClassDlg → ClassDlg
clear_edits d = record d { edit_class_id = []; edit_class_name = [] }

-- The boxes for empty edit controls, which do not stop the handlers.
abbrev pub empty_boxes : ClassDlg → List Bytes
empty_boxes d =
    box_if_empty d.edit_class_id (codes "Please enter class ID")
    ++ box_if_empty d.edit_class_name (codes "Please enter class name")

unfoldable pub on_clicked_btn_add : ClassDlg → ClassDlg
on_clicked_btn_add d = record d {
  boxes = d.boxes ++ empty_boxes d;
  query_queue =
      d.query_queue
      ++ query_request class_add
          (format add_format (text d.edit_class_id ∷ text d.edit_class_name ∷ []))
        ∷ [];
}

unfoldable pub on_clicked_btn_del : ClassDlg → ClassDlg
on_clicked_btn_del d = record d {
  boxes = d.boxes ++ empty_boxes d;
  query_queue =
      d.query_queue
      ++ query_request class_del
          (format del_format (text d.edit_class_id ∷ text d.edit_class_name ∷ []))
        ∷ [];
}

abbrev pub check_request : ClassDlg → QueryRequest
check_request d = query_request class_edit_check (format check_format (text d.edit_class_id ∷ []))

abbrev pub edit_request : ClassDlg → QueryRequest
edit_request d =
    query_request class_edit
      (format edit_format (text d.edit_class_name ∷ text d.edit_class_id ∷ []))

-- An empty edit control shows a box, and both requests are queued all the same.
unfoldable pub on_clicked_btn_edit : ClassDlg → ClassDlg
on_clicked_btn_edit d = record d {
  boxes = d.boxes ++ empty_boxes d;
  query_queue = d.query_queue ++ check_request d ∷ edit_request d ∷ [];
}

unfoldable pub query_text : ClassDlg → Bytes
query_text d =
    format (codes "SELECT * FROM class where 1= 1 ") []
    ++ (unless_empty d.edit_class_id (format (codes "AND id = '%s' ") (text d.edit_class_id ∷ []))
        ++ unless_empty d.edit_class_name
            (format (codes "AND name='%s' ") (text d.edit_class_name ∷ [])))

unfoldable pub on_clicked_btn_query : ClassDlg → ClassDlg
on_clicked_btn_query d = record d {
  query_queue = d.query_queue ++ query_request class_query (query_text d) ∷ [];
}

unfoldable pub on_click_list_class : Option ℕ → ClassDlg → ClassDlg
on_click_list_class none d = d
on_click_list_class (some r) d = record d {
  edit_class_id = item_text d.list_class r 0;
  edit_class_name = item_text d.list_class r 1;
}

-- One round of BackgroundThread.
unfoldable pub background_thread : ClassDlg → Outbox → Option (ClassDlg × Outbox)
background_thread d o = elim (background_round d.query_queue o) [
  | none ↦ none
  | some (queue, o') ↦ some (record d { query_queue = queue }, o')
]

unfoldable pub on_class_add_ok : ClassDlg → ClassDlg
on_class_add_ok d = clear_edits (box (codes "Added class information successfully") d)

unfoldable pub on_class_add_err : ClassDlg → ClassDlg
on_class_add_err d = box (codes "Failed to add class information") d

-- The first selected item is removed.
unfoldable pub on_class_del_ok : Option ℕ → ClassDlg → ClassDlg
on_class_del_ok selected d =
    clear_edits (record d { list_class = delete_item selected d.list_class })

unfoldable pub on_class_del_err : ClassDlg → ClassDlg
on_class_del_err d = box (codes "Failed to delete class information") d

-- ReadFileAndDisplay adds to the list control; a file that cannot be opened adds nothing.
unfoldable pub displayed : Option Bytes → Items
displayed none = []
displayed (some file) = read_file_and_display 2 file

unfoldable pub on_class_query_result : Option Bytes → ClassDlg → ClassDlg
on_class_query_result file d = clear_edits (record d { list_class = displayed file })

unfoldable pub on_class_query_null : ClassDlg → ClassDlg
on_class_query_null d = box (codes "No results found") d

unfoldable pub on_class_query_err : ClassDlg → ClassDlg
on_class_query_err d = box (codes "Query error") d

unfoldable pub on_class_edit_err : ClassDlg → ClassDlg
on_class_edit_err d = box (codes "Error modifying data") d

unfoldable pub on_class_edit_null : ClassDlg → ClassDlg
on_class_edit_null d =
    box (codes "Unable to modify a non-existent class number, please add it first") d

unfoldable pub on_class_edit_ok : ClassDlg → ClassDlg
on_class_edit_ok d = d

-- The message map: which handler a posted message runs, given the selected item and the received
-- file at that time. A message that is not in the map changes nothing.
unfoldable pub on_message : Option ℕ → Option Bytes → ℕ → ClassDlg → ClassDlg
on_message selected file wm d =
    if wm == wm_class_add_ok
    then on_class_add_ok d
    else if wm == wm_class_add_err
    then on_class_add_err d
    else if wm == wm_class_del_ok
    then on_class_del_ok selected d
    else if wm == wm_class_del_err
    then on_class_del_err d
    else if wm == wm_class_query_result
    then on_class_query_result file d
    else if wm == wm_class_query_null
    then on_class_query_null d
    else if wm == wm_class_query_err
    then on_class_query_err d
    else if wm == wm_class_edit_err
    then on_class_edit_err d
    else if wm == wm_class_edit_null
    then on_class_edit_null d
    else if wm == wm_class_edit_ok
    then on_class_edit_ok d
    else d
