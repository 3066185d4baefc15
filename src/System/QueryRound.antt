-- ===== src/System/QueryRound.antt =====
-- A query, from the request in the server's socket to the rows on the page.
use school_information_manag.Prelude.{
  ◌<◌, ◌^◌, ◌≡◌, refl, ap, ◌∙◌, Bool, true, Option, some, List, [], ◌∷◌, ◌++◌, length, sym, Bytes,
  map, take, is_zero,
}
use school_information_manag.Proto.{hdr_bytes, hdr_size}
use school_information_manag.Proto.Requests.{Entity, student, class, course, choice, query_code}
use school_information_manag.Net.{Arrival, push_back, outbox_of}
use school_information_manag.Net.Stream.{Delivers, concat}
use school_information_manag.Listing.{text_out, read_file_and_display}
use school_information_manag.Listing.RoundTrip.{
  row_of, IsTable, file_text, write_rows-row_of, read_file_and_display-write_rows,
}
use school_information_manag.Transfer.{file_hdr, send_file_to_client}
use school_information_manag.Transfer.Sending.{send_file_to_client_pieces}
use school_information_manag.Server.State.{MySql, Machine, Task, next}
use school_information_manag.Server.Handlers.{draw, result_name}
use school_information_manag.Server.Loop.{serve_one}
use school_information_manag.Server.Replies.{request}
use school_information_manag.Server.Queries.{file_sent, serve_query_rows}
use school_information_manag.Client.StudentInfo
use school_information_manag.Client.ClassInfo
use school_information_manag.Client.CourseInfo
use school_information_manag.Client.RecordInfo
use school_information_manag.Client.Main.{
  Page, stu_dlg, class_dlg, course_dlg, record_dlg, Receiver, Round, save, recv_round,
}
use school_information_manag.Client.Main
use school_information_manag.Client.Main.Answers.{page_of}
use school_information_manag.Client.Main.Files.{result_message, recv_round_file, columns, displayed}

displayed_lem :
    (x : Entity) (file : Bytes) → displayed x (some file) ≡ read_file_and_display (columns x) file
unfolding StudentInfo.displayed ClassInfo.displayed CourseInfo.displayed RecordInfo.displayed
displayed_lem student file = refl
displayed_lem class file = refl
displayed_lem course file = refl
displayed_lem choice file = refl

save_self :
    (w : Page) (file : Bytes) (files : Page → Option Bytes) → save w file files w ≡ some file
save_self stu_dlg file files = refl
save_self class_dlg file files = refl
save_self course_dlg file files = refl
save_self record_dlg file files = refl

-- The file of a table as it lies on the disk.
abbrev pub table_file : List (List Bytes) → Bytes
table_file table = text_out (file_text table)

table_file-displayed :
    (x : Entity) (table : List (List Bytes))
    → IsTable (columns x) table
    → displayed x (some (table_file table)) ≡ map (take (columns x)) table
table_file-displayed x table h =
    let (file, written, shown) = read_file_and_display-write_rows (columns x) table h in
    let same : file ≡ file_text table = cc (written, write_rows-row_of table) in
    displayed_lem x (table_file table)
    ∙ ap (λ f. read_file_and_display (columns x) (text_out f)) (sym same)
    ∙ shown

-- The client's next round saves the file, leaves the rest of the stream, and tells the page, which
-- then lists the first columns of every row of the table, in order.
abbrev pub Lists : Entity → List (List Bytes) → Receiver → Round → Bytes → Type 0
Lists x table u round more =
    (v : Receiver) × (round ≡ Main.next v)
    × Delivers v.inbox more
    × (v.posted ≡ u.posted ++ record { window = page_of x; message = result_message x } ∷ [])
    × (displayed x (v.files (page_of x)) ≡ map (take (columns x)) table)

-- A query, whole. When the statement of 1 to 2 ^ 31 - 1 bytes arrives whole, the database accepts it
-- and yields a table whose rows have at least the page's columns and whose fields hold no tab, no
-- line end, no NUL and no Ctrl-Z, the result file can be created and is below 2 ^ 32 bytes, and all
-- sends succeed, then the server sends a header and pieces that make up the file. A client that can
-- write its file, and to which the header comes whole and the file's bytes come in any cuts with
-- anything behind them, saves the file in one round and lists on the page exactly the first columns
-- of all rows.
pub query_round :
    {m : MySql} (env : Machine) (t : Task m) (later : List Arrival) (text : Bytes) (x : Entity)
    (table : List (List Bytes)) (can_write : Page → Bool) (u : Receiver) (body : List Arrival)
    (more : Bytes)
    → 0 < length text
    → length text < 2 ^ 31
    → is_zero (m.real_query text t.conn).0 ≡ true
    → (m.store_result (m.real_query text t.conn).1).0 ≡ some (map row_of table)
    → IsTable (columns x) table
    → length (table_file table) < 2 ^ 32
    → env.can_open (result_name (draw t.draws).0) ≡ true
    → t.out ≡ outbox_of []
    → can_write (page_of x) ≡ true
    → length u.recv_hdr ≡ hdr_size
    → Delivers body (table_file table ++ more)
    → (t' : Task m) × (pieces : List Bytes) × (serve_one env
          (request env t later (query_code x) text)
        ≡ next t')
      × (t'.out ≡ outbox_of (hdr_bytes (file_hdr (query_code x) (table_file table)) ∷ pieces))
      × (concat pieces ≡ table_file table)
      × Lists x table u
          (recv_round can_write (record u {
            inbox = push_back (hdr_bytes (file_hdr (query_code x) (table_file table))) body;
          }))
          more
query_round {m} env t later text x table can_write u body more pos_n fits accepted rows good small
      opens out c size d =
    let sends = send_file_to_client_pieces (query_code x) (table_file table) in
    let (pieces, sent, whole, sizes) = sends in
    let (inbox, e, left) =
      recv_round_file can_write x (table_file table) more body u c small size d in
    (
      file_sent env t later text pos_n fits x (file_text table),
      pieces,
      serve_query_rows env t later text pos_n fits x (map row_of table) (file_text table) accepted
          rows opens (write_rows-row_of table),
      ap (send_file_to_client (some (table_file table)) (query_code x)) out ∙ sent,
      whole,
      (
        _,
        e,
        left,
        refl,
        ap (displayed x) (save_self (page_of x) (table_file table) u.files)
            ∙ table_file-displayed x table good,
      ),
    )
