-- ===== src/Proto/Requests.antt =====
-- The command codes by what they ask for: the four kinds of records that the system keeps, and the
-- operations on them. An independent reading of the names in Proto.h, against which the arithmetic
-- of the server on the codes is checked.
use school_information_manag.Prelude.{ℕ}
use school_information_manag.Proto

-- Students, classes, courses, and the choices of courses (RECORD).
pub data Entity : Type 0 where
  student class course choice : Entity

-- A statement that changes a table.
pub data Change : Type 0 where
  add del edit : Change

abbrev pub change_code : Entity → Change → ℕ
change_code student add = Proto.stu_add
change_code student del = Proto.stu_del
change_code student edit = Proto.stu_edit
change_code class add = Proto.class_add
change_code class del = Proto.class_del
change_code class edit = Proto.class_edit
change_code course add = Proto.course_add
change_code course del = Proto.course_del
change_code course edit = Proto.course_edit
change_code choice add = Proto.record_add
change_code choice del = Proto.record_del
change_code choice edit = Proto.record_edit

abbrev pub ok_code : Entity → Change → ℕ
ok_code student add = Proto.stu_add_ok
ok_code student del = Proto.stu_del_ok
ok_code student edit = Proto.stu_edit_ok
ok_code class add = Proto.class_add_ok
ok_code class del = Proto.class_del_ok
ok_code class edit = Proto.class_edit_ok
ok_code course add = Proto.course_add_ok
ok_code course del = Proto.course_del_ok
ok_code course edit = Proto.course_edit_ok
ok_code choice add = Proto.record_add_ok
ok_code choice del = Proto.record_del_ok
ok_code choice edit = Proto.record_edit_ok

abbrev pub err_code : Entity → Change → ℕ
err_code student add = Proto.stu_add_err
err_code student del = Proto.stu_del_err
err_code student edit = Proto.stu_edit_err
err_code class add = Proto.class_add_err
err_code class del = Proto.class_del_err
err_code class edit = Proto.class_edit_err
err_code course add = Proto.course_add_err
err_code course del = Proto.course_del_err
err_code course edit = Proto.course_edit_err
err_code choice add = Proto.record_add_err
err_code choice del = Proto.record_del_err
err_code choice edit = Proto.record_edit_err

abbrev pub check_code : Entity → ℕ
check_code student = Proto.stu_edit_check
check_code class = Proto.class_edit_check
check_code course = Proto.course_edit_check
check_code choice = Proto.record_edit_check

abbrev pub edit_null_code : Entity → ℕ
edit_null_code student = Proto.stu_edit_null
edit_null_code class = Proto.class_edit_null
edit_null_code course = Proto.course_edit_null
edit_null_code choice = Proto.record_edit_null

abbrev pub query_code : Entity → ℕ
query_code student = Proto.stu_query
query_code class = Proto.class_query
query_code course = Proto.course_query
query_code choice = Proto.record_query

abbrev pub query_result_code : Entity → ℕ
query_result_code student = Proto.stu_query_result
query_result_code class = Proto.class_query_result
query_result_code course = Proto.course_query_result
query_result_code choice = Proto.record_query_result

abbrev pub query_err_code : Entity → ℕ
query_err_code student = Proto.stu_query_err
query_err_code class = Proto.class_query_err
query_err_code course = Proto.course_query_err
query_err_code choice = Proto.record_query_err

abbrev pub query_null_code : Entity → ℕ
query_null_code student = Proto.stu_query_null
query_null_code class = Proto.class_query_null
query_null_code course = Proto.course_query_null
query_null_code choice = Proto.record_query_null
