-- ===== src/Client.antt =====
-- StudentManagementClient: the dialogs, the thread of each that sends its requests, the thread that
-- receives the answers, and the login.
pub mod Dialog
pub mod StudentInfo
pub mod ClassInfo
pub mod CourseInfo
pub mod RecordInfo
pub mod Statements
pub mod Main
pub mod Socket
pub mod Login
