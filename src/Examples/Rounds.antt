-- ===== src/Examples/Rounds.antt =====
-- A query, a change and an edit, each from the client to the server and back.
use school_information_manag.Prelude.{
  ◌≡◌, refl, arith, Option, none, some, List, [], ◌∷◌, Bytes, codes, pos, is_zero,
}
use school_information_manag.Proto.{PacketHdr, hdr_bytes}
use school_information_manag.Proto.Requests.{
  class, edit, del, query_code, change_code, check_code, edit_null_code, ok_code,
}
use school_information_manag.Net.{got, push_back, outbox_of}
use school_information_manag.Net.Stream.{idle, piece, concat}
use school_information_manag.Listing.RoundTrip.{IsPlain, file_text}
use school_information_manag.Listing.{Row, text_out}
use school_information_manag.Text.{atoi, signed_value, digits_value}
use school_information_manag.Listing.Lines.{terminated}
use school_information_manag.Transfer.{file_hdr}
use school_information_manag.Server.State.{Task, unset, next, overlay}
use school_information_manag.Server.Loop.{serve_one}
use school_information_manag.Server.Replies.{request}
use school_information_manag.Client.Dialog.{query_request, send_request}
use school_information_manag.Client.Main.{recv_round}
use school_information_manag.Client.Main
use school_information_manag.System.QueryRound.{Lists, table_file, query_round}
use school_information_manag.System.ChangeRound.{deliver, told, change_round, edit_of_missing}
use school_information_manag.System.Mixing.{Shuffled, packets_of, Executes, mixed_requests}
use school_information_manag.Examples.Fixtures.{
  db, machine, task, statement, receiver, can_write_all,
}

abbrev table : List (List Bytes)
table = (codes "1" ∷ codes "A" ∷ []) ∷ []

abbrev classes : Option (List Row)
classes = some ((some (codes "1") ∷ some (codes "A") ∷ []) ∷ [])

abbrev no_rows : Option (List Row)
no_rows = some ((some (codes "0") ∷ []) ∷ [])

one-IsPlain : IsPlain 49
one-IsPlain = record {
  no_tab = λ e. omega arith;
  no_lf = λ e. omega arith;
  no_nul = λ e. omega arith;
  no_ctrl_z = λ e. omega arith;
}

letter-IsPlain : IsPlain 65
letter-IsPlain = record {
  no_tab = λ e. omega arith;
  no_lf = λ e. omega arith;
  no_nul = λ e. omega arith;
  no_ctrl_z = λ e. omega arith;
}

query_round_example :
    (t' : Task (db (pos 0) classes)) × (pieces : List Bytes) × (serve_one machine
        (request machine (task (pos 0) classes unset) [] (query_code class) statement)
      ≡ next t')
    × (t'.out ≡ outbox_of (hdr_bytes (file_hdr (query_code class) (table_file table)) ∷ pieces))
    × (concat pieces ≡ table_file table)
    × Lists class table
        (receiver [])
        (recv_round can_write_all (
          receiver (
            push_back
              (hdr_bytes (file_hdr (query_code class) (table_file table)))
              (got 49 (9 ∷ []) ∷ got 65 (9 ∷ 13 ∷ 10 ∷ []) ∷ []))))
        []
unfolding text_out file_text terminated
query_round_example =
    query_round machine (task (pos 0) classes unset) [] statement class table can_write_all
      (receiver []) (got 49 (9 ∷ []) ∷ got 65 (9 ∷ 13 ∷ 10 ∷ []) ∷ []) [] (omega arith)
      (omega arith) refl refl ((omega arith, ((one-IsPlain, tt), ((letter-IsPlain, tt), tt))), tt)
      (omega arith) refl refl refl refl
      (piece 49 (9 ∷ []) (piece 65 (9 ∷ 13 ∷ 10 ∷ []) idle refl) refl)

change_round_example :
    (t' : Task (db (pos 1) none)) × (reply : PacketHdr) × (serve_one machine
        (record (task (pos 1) none unset) {
          inbox =
              deliver
                (send_request (query_request (change_code class del) statement) (outbox_of [])).sent
                [];
        })
      ≡ next t')
    × (t'.conn ≡ statement ∷ [])
    × (t'.inbox ≡ [])
    × (t'.out ≡ outbox_of (hdr_bytes reply ∷ []))
    × (recv_round can_write_all (receiver (push_back (hdr_bytes reply) []))
        ≡ Main.next (
            told (is_zero (pos 1)) class del (record (receiver []) { recv_hdr = hdr_bytes reply })))
change_round_example =
    change_round machine (task (pos 1) none unset) [] class del statement can_write_all
      (receiver []) [] (omega arith) (omega arith) refl refl

edit_of_missing_example :
    (t' : Task (db (pos 0) no_rows)) × (t'' : Task (db (pos 0) no_rows)) × (serve_one machine
        (record (task (pos 0) no_rows unset) {
          inbox =
              deliver
                (send_request
                  (query_request (check_code class) (codes "SELECT"))
                  (outbox_of [])).sent
                (deliver
                  (send_request
                    (query_request (change_code class edit) (codes "UPDATE"))
                    (outbox_of [])).sent
                  []);
        })
      ≡ next t')
    × (serve_one machine t' ≡ next t'')
    × (t''.out
        ≡ outbox_of (
            hdr_bytes (record { n_cmd = edit_null_code class; n_len = 0 })
            ∷ hdr_bytes (record { n_cmd = ok_code class edit; n_len = 0 })
            ∷ []))
unfolding atoi signed_value digits_value
edit_of_missing_example =
    edit_of_missing machine (task (pos 0) no_rows unset) [] class (codes "SELECT") (codes "UPDATE")
      (codes "0") [] [] (omega arith) (omega arith) (omega arith) (omega arith) refl refl refl refl
      refl

mixed_requests_example :
    (order : List Bytes) × Shuffled
      (packets_of class del statement)
      (packets_of class edit (codes "UPDATE"))
      order
    × Executes machine
        (task (pos 0) no_rows unset)
        (push_back statement (push_back (codes "UPDATE") []))
        (serve_one machine (record (task (pos 0) no_rows unset) { inbox = deliver order [] }))
        (overlay 17 (hdr_bytes (record { n_cmd = change_code class edit; n_len = 6 })) (λ i. 255))
mixed_requests_example =
    mixed_requests machine (task (pos 0) no_rows unset) [] class class del edit statement
      (codes "UPDATE") (omega arith) (omega arith)
