-- ===== src/Client/RecordInfo.antt =====
-- StudentManagementClient/CRecordDlg.cpp: the page for the choices of courses.
use school_information_manag.Prelude.{
  ℕ, ◌+◌, Option, none, some, List, [], ◌∷◌, ◌++◌, ◌==◌, if◌then◌else◌, Bytes, codes,
}
use school_information_manag.Proto.{
  record_add, record_del, record_query, record_edit, record_edit_check,
}
use school_information_manag.Net.{Outbox}
use school_information_manag.Listing.{read_file_and_display}
use school_information_manag.Text.{atoi}
use school_information_manag.Text.Format.{int, text, format}
use school_information_manag.Client.Dialog.{
  QueryRequest, query_request, box_if_empty, unless_empty, Items, item_text, delete_item,
  background_round, wm_user,
}

pub record RecordDlg : Type 0 where
  pub list_record : Items
  pub edit_sid : Bytes
  pub edit_cid : Bytes
  pub query_queue : List QueryRequest
  pub boxes : List Bytes

abbrev pub wm_record_add_ok : ℕ
wm_record_add_ok = wm_user + 33

abbrev pub wm_record_add_err : ℕ
wm_record_add_err = wm_user + 34

abbrev pub wm_record_del_ok : ℕ
wm_record_del_ok = wm_user + 35

abbrev pub wm_record_del_err : ℕ
wm_record_del_err = wm_user + 36

abbrev pub wm_record_query_result : ℕ
wm_record_query_result = wm_user + 37

abbrev pub wm_record_query_null : ℕ
wm_record_query_null = wm_user + 38

abbrev pub wm_record_query_err : ℕ
wm_record_query_err = wm_user + 39

abbrev pub wm_record_edit_err : ℕ
wm_record_edit_err = wm_user + 40

abbrev pub wm_record_edit_null : ℕ
wm_record_edit_null = wm_user + 41

abbrev pub wm_record_edit_ok : ℕ
wm_record_edit_ok = wm_user + 42

abbrev pub add_format : Bytes
add_format = codes "INSERT INTO record VALUES( %d, '%s')"

abbrev pub del_format : Bytes
del_format = codes "DELETE FROM record WHERE record_sid = %d AND record_cid = '%s'"

abbrev pub check_format : Bytes
check_format = codes "SELECT COUNT(*) FROM record WHERE record_sid = % d"

abbrev pub edit_format : Bytes
edit_format = codes "UPDATE record SET record_cid = '%s' WHERE record_sid = %d"

abbrev box : Bytes → RecordDlg → RecordDlg
box message d = record d { boxes = d.boxes ++ message ∷ [] }

abbrev clear_edits : RecordDlg → RecordDlg
clear_edits d = record d { edit_sid = []; edit_cid = [] }

-- The boxes for empty edit controls, which do not stop the handlers.
abbrev pub empty_boxes : RecordDlg → List Bytes
empty_boxes d =
    box_if_empty d.edit_sid (codes "Please enter student ID")
    ++ box_if_empty d.edit_cid (codes "Please enter course ID")

unfoldable pub on_clicked_btn_add : RecordDlg → RecordDlg
on_clicked_btn_add d = record d {
  boxes = d.boxes ++ empty_boxes d;
  query_queue =
      d.query_queue
      ++ query_request record_add (format add_format (int (atoi d.edit_sid) ∷ text d.edit_cid ∷ []))
        ∷ [];
}

unfoldable pub on_clicked_btn_del : RecordDlg → RecordDlg
on_clicked_btn_del d = record d {
  boxes = d.boxes ++ empty_boxes d;
  query_queue =
      d.query_queue
      ++ query_request record_del (format del_format (int (atoi d.edit_sid) ∷ text d.edit_cid ∷ []))
        ∷ [];
}

abbrev pub check_request : RecordDlg → QueryRequest
check_request d = query_request record_edit_check (format check_format (int (atoi d.edit_sid) ∷ []))

abbrev pub edit_request : RecordDlg → QueryRequest
edit_request d =
    query_request record_edit (format edit_format (text d.edit_cid ∷ int (atoi d.edit_sid) ∷ []))

-- An empty edit control shows a box, and both requests are queued all the same.
unfoldable pub on_clicked_btn_edit : RecordDlg → RecordDlg
on_clicked_btn_edit d = record d {
  boxes = d.boxes ++ empty_boxes d;
  query_queue = d.query_queue ++ check_request d ∷ edit_request d ∷ [];
}

unfoldable pub query_text : RecordDlg → Bytes
query_text d =
    format (codes "SELECT * FROM record where 1= 1 ") []
    ++ (unless_empty d.edit_sid (format (codes "AND record_sid = %d ") (int (atoi d.edit_sid) ∷ []))
        ++ unless_empty d.edit_cid (format (codes "AND record_cid='%s' ") (text d.edit_cid ∷ [])))

unfoldable pub on_clicked_btn_query : RecordDlg → RecordDlg
on_clicked_btn_query d = record d {
  query_queue = d.query_queue ++ query_request record_query (query_text d) ∷ [];
}

unfoldable pub on_click_list_record : Option ℕ → RecordDlg → RecordDlg
on_click_list_record none d = d
on_click_list_record (some r) d = record d {
  edit_sid = item_text d.list_record r 0;
  edit_cid = item_text d.list_record r 1;
}

-- One round of BackgroundThread.
unfoldable pub background_thread : RecordDlg → Outbox → Option (RecordDlg × Outbox)
background_thread d o = elim (background_round d.query_queue o) [
  | none ↦ none
  | some (queue, o') ↦ some (record d { query_queue = queue }, o')
]

unfoldable pub on_record_add_ok : RecordDlg → RecordDlg
on_record_add_ok d = clear_edits (box (codes "Added course selection information successfully") d)

unfoldable pub on_record_add_err : RecordDlg → RecordDlg
on_record_add_err d = box (codes "Failed to add course selection information") d

-- The first selected item is removed.
unfoldable pub on_record_del_ok : Option ℕ → RecordDlg → RecordDlg
on_record_del_ok selected d =
    clear_edits (record d { list_record = delete_item selected d.list_record })

unfoldable pub on_record_del_err : RecordDlg → RecordDlg
on_record_del_err d = box (codes "Failed to delete course selection information") d

-- ReadFileAndDisplay adds to the list control; a file that cannot be opened adds nothing.
unfoldable pub displayed : Option Bytes → Items
displayed none = []
displayed (some file) = read_file_and_display 2 file

unfoldable pub on_record_query_result : Option Bytes → RecordDlg → RecordDlg
on_record_query_result file d = clear_edits (record d { list_record = displayed file })

unfoldable pub on_record_query_null : RecordDlg → RecordDlg
on_record_query_null d = box (codes "No result") d

unfoldable pub on_record_query_err : RecordDlg → RecordDlg
on_record_query_err d = box (codes "Query error") d

unfoldable pub on_record_edit_err : RecordDlg → RecordDlg
on_record_edit_err d = box (codes "Error modifying data") d

unfoldable pub on_record_edit_null : RecordDlg → RecordDlg
on_record_edit_null d =
    box (codes "Unable to modify a non-existent student ID, please add it first") d

unfoldable pub on_record_edit_ok : RecordDlg → RecordDlg
on_record_edit_ok d = d

-- The message map: which handler a posted message runs, given the selected item and the received
-- file at that time. A message that is not in the map changes nothing.
unfoldable pub on_message : Option ℕ → Option Bytes → ℕ → RecordDlg → RecordDlg
on_message selected file wm d =
    if wm == wm_record_add_ok
    then on_record_add_ok d
    else if wm == wm_record_add_err
    then on_record_add_err d
    else if wm == wm_record_del_ok
    then on_record_del_ok selected d
    else if wm == wm_record_del_err
    then on_record_del_err d
    else if wm == wm_record_query_result
    then on_record_query_result file d
    else if wm == wm_record_query_null
    then on_record_query_null d
    else if wm == wm_record_query_err
    then on_record_query_err d
    else if wm == wm_record_edit_null
    then on_record_edit_null d
    else if wm == wm_record_edit_err
    then on_record_edit_err d
    else if wm == wm_record_edit_ok
    then on_record_edit_ok d
    else d
