-- ===== src/System/Clash/Draws.antt =====
-- Tasks that drew different numbers for their result files (the QUERY case of CMySqlTask::DoTask,
-- StudentManagementServer/CMySqlTask.cpp).
use school_information_manag.Prelude.{
  ℕ, ◌+◌, ◌≤◌, ◌≡◌, ◌≢◌, refl, sym, ap, ◌∙◌, true, Option, some, List, [], ◌∷◌, ◌++◌, map, take,
  length, arith, Bytes, codes, pos, append_cancel_left, append_cancel_right,
}
use school_information_manag.Text.{to_decimal, atoi}
use school_information_manag.Text.Decimal.{atoi-to_decimal}
use school_information_manag.Proto.{PacketHdr}
use school_information_manag.Net.{outbox_of}
use school_information_manag.Net.Stream.{concat}
use school_information_manag.Listing.{text_out, read_file_and_display}
use school_information_manag.Listing.RoundTrip.{
  row_of, IsTable, file_text, write_rows-row_of, read_file_and_display-write_rows,
}
use school_information_manag.Transfer.{send_file_to_client}
use school_information_manag.Transfer.Sending.{wire_hdr, send_file_to_client_complete}
use school_information_manag.Server.State.{MySql, Machine, Task, delete_buf}
use school_information_manag.Server.Handlers.{update, draw, result_name, send_result}
use school_information_manag.System.Clash.{drawn, sent, Job, Folder, Reach, alone}
use school_information_manag.System.Clash.Apart.{update_same, apart_undisturbed}

result_name_injective : (d e : ℕ) → d ≤ 100 → e ≤ 100 → result_name d ≡ result_name e → d ≡ e
result_name_injective d e h k p =
    let tails = append_cancel_left (codes "result") _ _ p in
    let digits = append_cancel_right (to_decimal d) (to_decimal e) (codes ".txt") tails in
    let numbers : pos d ≡ pos e =
      sym (atoi-to_decimal d (omega arith)) ∙ ap atoi digits ∙ atoi-to_decimal e (omega arith) in
    cc (numbers)

-- The number that the task draws for its file.
abbrev pub number : {m : MySql} → Task m → ℕ
number t = (draw t.draws).0

-- The job of a task whose query yielded this table.
abbrev pub job_of : {m : MySql} → PacketHdr → List (List Bytes) → Task m → Job
job_of hdr table t = record {
  name = result_name (number t);
  n_cmd = hdr.n_cmd;
  file = text_out (file_text table);
  out = t.out;
  place = drawn;
}

-- The handler alone: the file is on the disk, and is sent from there.
send_result_table :
    {m : MySql} (env : Machine) (hdr : PacketHdr) (table : List (List Bytes)) (t : Task m)
    → env.can_open (result_name (number t)) ≡ true
    → let file = text_out (file_text table) in
      send_result env hdr (map row_of table) t
      ≡ delete_buf (record t {
        disk = update t.disk (result_name (number t)) file;
        draws = (draw t.draws).1;
        out = send_file_to_client (some file) hdr.n_cmd t.out;
      })
unfolding send_result
send_result_table env hdr table t opens =
    let name = result_name (number t) in
    rw opens (
      rw (write_rows-row_of table) (rw (update_same t.disk name (text_out (file_text table))) refl))

-- How task `t` is served with the table: the stream is a header with the code after the request's
-- and pieces that make up a file in which a page of `n` columns finds the table, and the QUERY case
-- of the task leaves this stream, and the file under the name with the task's number, when it runs
-- without a break.
abbrev pub Served :
    {m : MySql} → Machine → ℕ → PacketHdr → List (List Bytes) → Task m → Job → Type 0
Served env n hdr table t now =
    (file : Bytes) × (pieces : List Bytes) × (now.out
      ≡ outbox_of (wire_hdr (hdr.n_cmd + 1) (length file) ∷ pieces))
    × (concat pieces ≡ file)
    × (read_file_and_display n file ≡ map (take n) table)
    × (send_result env hdr (map row_of table) t
        ≡ delete_buf (record t {
          disk = update t.disk (codes "result" ++ (to_decimal (number t) ++ codes ".txt")) file;
          draws = (draw t.draws).1;
          out = now.out;
        }))

alone-Served :
    {m : MySql} (env : Machine) (n : ℕ) (hdr : PacketHdr) (table : List (List Bytes)) (t : Task m)
    (now : Job)
    → env.can_open (codes "result" ++ (to_decimal (number t) ++ codes ".txt")) ≡ true
    → IsTable n table
    → t.out ≡ outbox_of []
    → now.out ≡ alone (job_of hdr table t)
    → Served env n hdr table t now
alone-Served env n hdr table t now opens good clean same =
    let file = text_out (file_text table) in
    let (pieces, out, whole, sizes) = send_file_to_client_complete hdr.n_cmd file in
    let (text, written, shown) = read_file_and_display-write_rows n table good in
    let plain : text ≡ file_text table = cc (written, write_rows-row_of table) in
    (
      file,
      pieces,
      same ∙ ap (send_file_to_client (some file) hdr.n_cmd) clean ∙ out,
      whole,
      ap (λ f. read_file_and_display n (text_out f)) (sym plain) ∙ shown,
      rw same (send_result_table env hdr table t opens),
    )

-- Any number of queries at the same time, whose tasks drew numbers of at most 100, in whatever order
-- their steps come. When no other task drew the number of one of them, its file opens, its table has
-- rows of at least `n` columns whose fields hold no tab, no line end, no NUL and no Ctrl-Z, nothing
-- was sent to its client before and no send fails, then that client, once it is served, has been
-- sent a header with the code after the request's and the file's size, and pieces that make up a
-- file in which a page of `n` columns finds its own table. It is the very stream that the QUERY case
-- of the task makes without a break, which puts the file under "result", the number, ".txt".
pub job_of-Served :
    {m : MySql} (env : Machine) (n : ℕ) (hdr : ℕ → PacketHdr) (table : ℕ → List (List Bytes))
    (t : ℕ → Task m) (disk : Bytes → Option Bytes) (now : Folder) (i : ℕ)
    → ((k : ℕ) → number (t k) ≤ 100)
    → ((k : ℕ) → k ≢ i → number (t k) ≢ number (t i))
    → env.can_open (codes "result" ++ (to_decimal (number (t i)) ++ codes ".txt")) ≡ true
    → IsTable n (table i)
    → (t i).out ≡ outbox_of []
    → Reach (record { disk = disk; jobs = λ k. job_of (hdr k) (table k) (t k) }) now
    → (now.jobs i).place ≡ sent
    → Served env n (hdr i) (table i) (t i) (now.jobs i)
job_of-Served env n hdr table t disk now i small apart opens good clean r done =
    let start : Folder = record { disk = disk; jobs = λ k. job_of (hdr k) (table k) (t k) } in
    let named : (k : ℕ) → k ≢ i → result_name (number (t k)) ≢ result_name (number (t i)) =
      λ k far same.
        apart k far
          (result_name_injective (number (t k)) (number (t i)) (small k) (small i) same) in
    alone-Served env n (hdr i) (table i) (t i) (now.jobs i) opens good clean
      (apart_undisturbed start now i refl named r done)
