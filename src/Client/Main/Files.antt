-- ===== src/Client/Main/Files.antt =====
-- The file of a query's result, from the socket to the page.
use school_information_manag.Prelude.{
  ℕ, ◌+◌, ◌%◌, ◌<◌, ◌^◌, ◌≡◌, refl, ◌∙◌, Bool, true, Option, List, ◌++◌, arith, length, Bytes,
}
use school_information_manag.Proto.{PacketHdr, hdr_bytes, hdr_size, htonl, ntohl}
use school_information_manag.Proto.Codec.{ntohl-htonl, htonl-lt}
use school_information_manag.Proto.Requests.{Entity, student, class, course, choice, query_code}
use school_information_manag.Net.{Arrival, push_back}
use school_information_manag.Net.Stream.{Delivers}
use school_information_manag.Transfer.{file_hdr}
use school_information_manag.Transfer.Receiving.{receive_file_complete}
use school_information_manag.Client.Dialog.{Items}
use school_information_manag.Client.StudentInfo
use school_information_manag.Client.ClassInfo
use school_information_manag.Client.CourseInfo
use school_information_manag.Client.RecordInfo
use school_information_manag.Client.Main.{
  Page, Receiver, next, post, save, downloaded, receive_result, on_answer, on_student_answer,
  on_class_answer, on_course_answer, on_record_answer, recv_round,
}
use school_information_manag.Client.Main.Answers.{page_of, recv_round_whole}

abbrev pub result_message : Entity → ℕ
result_message student = StudentInfo.wm_stu_query_result
result_message class = ClassInfo.wm_class_query_result
result_message course = CourseInfo.wm_course_query_result
result_message choice = RecordInfo.wm_record_query_result

on_answer_result :
    (can_write : Page → Bool) (x : Entity) (n_len : ℕ) (t : Receiver)
    → on_answer can_write (record { n_cmd = query_code x + 1; n_len = n_len }) t
      ≡ receive_result can_write (page_of x) (result_message x) n_len t
unfolding on_answer on_student_answer on_class_answer on_course_answer on_record_answer
on_answer_result can_write student n_len t = refl
on_answer_result can_write class n_len t = refl
on_answer_result can_write course n_len t = refl
on_answer_result can_write choice n_len t = refl

-- The state once a file is saved: the rest of the stream is left in the socket.
abbrev pub saved : Page → ℕ → Bytes → List Arrival → Receiver → Receiver
saved w message content inbox t =
    post w message (record t { inbox = inbox; files = save w content t.files })

receive_result_complete :
    (can_write : Page → Bool) (w : Page) (message : ℕ) (content more : Bytes) (t : Receiver)
    → can_write w ≡ true
    → length content < 2 ^ 32
    → Delivers t.inbox (content ++ more)
    → (inbox : List Arrival) × (receive_result can_write w message
          (htonl (length content % 2 ^ 32))
          t
        ≡ next (saved w message content inbox t))
      × Delivers inbox more
unfolding receive_result downloaded
receive_result_complete can_write w message content more t c h d =
    let (inbox, e, left) = receive_file_complete content more d in
    let size : ntohl (htonl (length content % 2 ^ 32)) ≡ length content =
      ntohl-htonl (length content % 2 ^ 32) (omega arith) ∙ omega arith in
    (inbox, rw c (rw size (rw e refl)), left)

query_code-lt : (x : Entity) → query_code x + 1 < 2 ^ 16
query_code-lt student = omega arith
query_code-lt class = omega arith
query_code-lt course = omega arith
query_code-lt choice = omega arith

-- A result file of fewer than 2 ^ 32 bytes, whose header arrives whole and whose bytes arrive in any
-- pieces with anything behind them, is saved byte for byte in the file of the page for that kind of
-- record, the page is told once, and what follows the file stays in the socket.
pub recv_round_file :
    (can_write : Page → Bool) (x : Entity) (content more : Bytes) (body : List Arrival)
    (t : Receiver)
    → can_write (page_of x) ≡ true
    → length content < 2 ^ 32
    → length t.recv_hdr ≡ hdr_size
    → Delivers body (content ++ more)
    → (inbox : List Arrival) × (recv_round can_write
          (record t { inbox = push_back (hdr_bytes (file_hdr (query_code x) content)) body })
        ≡ next (
            saved
              (page_of x)
              (result_message x)
              content
              inbox
              (record t { recv_hdr = hdr_bytes (file_hdr (query_code x) content) })))
      × Delivers inbox more
recv_round_file can_write x content more body t c h size d =
    let hdr : PacketHdr = file_hdr (query_code x) content in
    let started : Receiver = record t { inbox = body; recv_hdr = hdr_bytes hdr } in
    let (inbox, e, left) =
      receive_result_complete can_write (page_of x) (result_message x) content more started c h d in
    (
      inbox,
      recv_round_whole can_write hdr body t (query_code-lt x) (htonl-lt (length content % 2 ^ 32))
            size
          ∙ on_answer_result can_write x hdr.n_len started
          ∙ e,
      left,
    )

-- The columns of a page, and what it lists once it is told of a result.
abbrev pub columns : Entity → ℕ
columns student = 3
columns class = 2
columns course = 2
columns choice = 2

abbrev pub displayed : Entity → Option Bytes → Items
displayed student = StudentInfo.displayed
displayed class = ClassInfo.displayed
displayed course = CourseInfo.displayed
displayed choice = RecordInfo.displayed
