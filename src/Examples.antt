-- ===== src/Examples.antt =====
-- Runs at concrete inputs: a database, machines and tasks of the server, the pool, pages and sockets of
-- the client, and blocks of the reliable protocol.
pub mod Fixtures
pub mod Rounds
pub mod Requests
pub mod Files
pub mod Segments
pub mod Channel
pub mod Clash
pub mod Starved
pub mod Sockets
pub mod Serving
pub mod Pages
pub mod Threads
pub mod Logins
