-- ===== src/System.antt =====
-- The client (StudentManagementClient) and the server (StudentManagementServer) together: whole rounds
-- from a page to the server and back, tasks that run at the same time, and the loop over `accept` with
-- the pool.
pub mod QueryRound
pub mod ChangeRound
pub mod LoginRound
pub mod Mixing
pub mod Clash
pub mod Starved
pub mod Serving
