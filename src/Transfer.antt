-- ===== src/Transfer.antt =====
-- How a result file crosses the wire: CMySqlTask::sendFileToClient
-- (StudentManagementServer/CMySqlTask.cpp) and the receiving loop of CMainDlg::RecvThread
-- (StudentManagementClient/CMainDlg.cpp), which stands there once for each dialog.
pub mod Sending
pub mod Receiving
use school_information_manag.Prelude.{
  ℕ, zero, suc, ◌+◌, ◌-◌, ◌%◌, ◌^◌, true, false, Option, none, some, List, [], ◌∷◌, ◌++◌, ltb,
  if◌then◌else◌, length, take, drop, Bytes,
}
use school_information_manag.Proto.{PacketHdr, hdr_bytes, htonl}
use school_information_manag.Net.{Arrival, Received, bytes, error, blocks, recv, Outbox, send}

abbrev pub buffer_size : ℕ
buffer_size = 1024

-- The loop over `file.read`: each chunk is sent, and a failed send ends the loop.
unfoldable pub send_chunks : ℕ → Bytes → Outbox → Outbox
send_chunks zero content o = o
send_chunks (suc fuel) [] o = o
send_chunks (suc fuel) (b ∷ bs) o =
    let (done, o') = send (take buffer_size (b ∷ bs)) o in
    elim done [ true ↦ send_chunks fuel (drop buffer_size (b ∷ bs)) o' | false ↦ o' ]

abbrev pub file_hdr : ℕ → Bytes → PacketHdr
file_hdr input_cmd content = record {
  n_cmd = input_cmd + 1;
  n_len = htonl (length content % 2 ^ 32);
}

-- `none` is a file that cannot be opened. A chunk takes one byte at least, which bounds the loop.
unfoldable pub send_file_to_client : Option Bytes → ℕ → Outbox → Outbox
send_file_to_client none input_cmd o = o
send_file_to_client (some content) input_cmd o =
    let (done, o') = send (hdr_bytes (file_hdr input_cmd content)) o in
    elim done [ true ↦ send_chunks (suc (length content)) content o' | false ↦ o' ]

-- `finished`: the loop ended, by its test or by `break`, with what it wrote and what has not been
-- read. `waiting`: a call of `recv` does not return. `looping`: the fuel is used up.
pub data Download : Type 0 where
  finished : Bytes → List Arrival → Download
  waiting : Bytes → Download
  looping : Download

-- How many bytes the next call of `recv` asks for.
abbrev pub piece_size : ℕ → ℕ → ℕ
piece_size expected total =
    if ltb (expected - total) buffer_size then expected - total else buffer_size

-- The loop that receives `expected` bytes, of which `total` have come.
unfoldable pub receive_file : ℕ → ℕ → ℕ → Bytes → List Arrival → Download
receive_file zero expected total file inbox = looping
receive_file (suc fuel) expected total file inbox = elim (ltb total expected) [
  | false ↦ finished file inbox
  | true ↦
      let (r, inbox') = recv (piece_size expected total) inbox in
      elim r [
        | bytes bs ↦ receive_file fuel expected (total + length bs) (file ++ bs) inbox'
        | error e ↦ finished file inbox'
        | blocks ↦ waiting file
      ]
]
