-- ===== src/Server.antt =====
-- StudentManagementServer/CMySqlTask.cpp: the task that serves one client.
pub mod State
pub mod Handlers
pub mod Loop
pub mod Replies
pub mod Queries
pub mod Memory
pub mod Checks
pub mod Logins
pub mod Faults
pub mod Session
pub mod Main
pub mod Connect
