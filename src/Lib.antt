-- ===== src/Lib.antt =====
-- A school's students, classes, courses and chosen courses: a client of dialogs, a server that
-- runs the client's SQL statements on a MySQL database, and a reliable protocol over datagrams
-- that both programs carry along. This library models the two programs and proves what they do.
--
-- The parts and how they interact. A page of the client
-- (StudentManagementClient/CStudentInfoDlg.cpp and its three siblings) turns its edit controls
-- into a statement and queues it with a header; a background thread sends header and statement
-- over TCP. On the server (StudentManagementServer/StudentManagementServer.cpp) each client has a
-- task (StudentManagementServer/CMySqlTask.cpp) that a thread pool
-- (StudentManagementServer/CThreadPool.cpp) runs: it reads the header, reads the statement, asks
-- the database, and answers with a header alone or with a file. The main dialog
-- (StudentManagementClient/CMainDlg.cpp) has a thread that reads the answers, saves a file, and
-- posts a message to a page, which then changes what it shows.
--
-- The modules. Prelude: numbers, lists, bytes and the tests on them. Proto: the codes and the
-- header of Proto.h; Codec, the header as bytes; Requests, the codes by kind of record. Net:
-- `recv` and `send` on a connected socket; Stream, the bytes of a stream in any cuts. Text: `%d`,
-- `%s` and `atoi`. Listing: the text of a result, written by DoTask and read by
-- ReadFileAndDisplay. Transfer: sendFileToClient and the loop that receives a file. Server: Main,
-- the start of the server and its loop over `accept`; Connect, GetIniValue, ConnectMySQL and the
-- first line of DoTask; State, the task's state and what its handlers share; Handlers, the cases
-- of the `switch` in DoTask (on_login, on_add, on_del, on_query, on_edit_check, on_edit); Loop,
-- the `switch` and the loop (dispatch, serve_one, serve) and the end (drain). Client: Dialog, the
-- queue and the background thread; StudentInfo, ClassInfo, CourseInfo and RecordInfo, the four
-- pages, whose handlers have the source's names; Main, RecvThread (recv_round, on_answer) and the
-- tabs; Login, the login dialog and its WorkThread; Socket, CBaseSocket.h and CTcpSocket.h with
-- ConnectServer, and in Clicks the login button that uses them and in Destroyed the end of the
-- main dialog; Statements, the statements read back. TcpSocket: Send, SendAck, Recv, PeekSize,
-- Input and Update of TcpSocket.cpp; Setup, the socket and identifier of a block; Channel, a
-- sending and a receiving block with a network between them. ThreadPool: the steps of WorkThread,
-- AddTask and Wait. System: a request from the page to the server and back; Clash, result files of
-- tasks that run at the same time (Draws, tasks that drew different numbers; Same, two that drew
-- the same); Serving, the loop over `accept` with the pool; Starved, the
-- pool with tasks that do not end. Examples: each theorem at a concrete input.
--
-- State. A task is a record of its socket, its buffer, its connection, the disk and the random
-- numbers to come; a page is a record of its controls, its queue and the boxes it has shown; a
-- block of the protocol is a record of its numbers and lists. An operation takes the state and
-- returns it. What a call of `recv` finds is a list of arrivals, so the cuts of the stream, errors
-- and the end of the connection are all open. Undefined behaviour is a value: a fault that ends
-- the task.
--
-- Bounds and fuel. Headers hold a 16-bit command and a 32-bit length; a length that does not fit
-- the `int` of `recv` makes that call fail. Sequence numbers, lengths and ticks of TcpSocket are
-- naturals, so a run is one without overflow. The loops over a file take one byte at least in each
-- round, and their fuel is one more than the number of bytes; the loop of DoTask is a `while
-- (true)`, and its fuel is an argument.
--
-- Parameters. The MySQL client library is a record of its calls (Server.State.MySql,
-- Server.Connect.Connector) with what is documented of `mysql_fetch_row`; what a connection does
-- that could not be made is a hypothesis of its own (Server.Connect.Refused.Refuses). The old
-- contents of unwritten memory and whether a file can be opened are a record as well
-- (Server.State.Machine), and those of each packet that `new` makes are an argument
-- (TcpSocket.OldMemory). Memory does not run out. What Windows answers to `socket`, `connect`, `accept` and
-- GetPrivateProfileString is an argument.
--
-- The link of two blocks (TcpSocket.Channel) is one way: the sender sends messages and the
-- receiver only confirms, since a confirmation takes a number that no message has. The network
-- keeps every datagram that was ever sent, so that loss, repetition, delay and reordering are all
-- steps of it.
--
-- Not modelled: windows, menus and logs; the older copies of TcpSocket under include/, and the
-- headers and libraries of MySQL beside them, which are the code of another project.
pub mod Prelude
pub mod Proto
pub mod Net
pub mod Listing
pub mod Transfer
pub mod Text
pub mod Server
pub mod TcpSocket
pub mod Client
pub mod System
pub mod ThreadPool
pub mod Examples
