-- ===== src/Examples/Files.antt =====
-- A result file, written, sent, received and shown.
use school_information_manag.Prelude.{
  ◌≡◌, refl, arith, some, List, [], ◌∷◌, All, Bytes, codes, length, ◌≤◌, take, map,
}
use school_information_manag.Proto.Requests.{class, add, query_code, ok_code, err_code}
use school_information_manag.Net.{got, closed, outbox_of}
use school_information_manag.Net.Stream.{idle, piece, concat}
use school_information_manag.Listing.{write_rows, text_out, read_file_and_display}
use school_information_manag.Listing.RoundTrip.{IsPlain, row_of, read_file_and_display-write_rows}
use school_information_manag.Transfer.{looping, receive_file, send_file_to_client}
use school_information_manag.Transfer.Sending.{send_file_to_client_complete}
use school_information_manag.Transfer.Receiving.{
  Completes, receive_file_complete, receive_file_closed,
}
use school_information_manag.Client.Main.Answers.{
  page_of, ok_page, ok_message, err_message, Posts, change_answers,
}
use school_information_manag.Examples.Fixtures.{can_write_all}

abbrev one_row : List (List Bytes)
one_row = (codes "3" ∷ []) ∷ []

pub three-IsPlain : IsPlain 51
three-IsPlain = record {
  no_tab = λ e. omega arith;
  no_lf = λ e. omega arith;
  no_nul = λ e. omega arith;
  no_ctrl_z = λ e. omega arith;
}

read_file_and_display-write_rows_example :
    (file : Bytes) × (write_rows (map row_of one_row) ≡ some file)
    × (read_file_and_display 1 (text_out file) ≡ map (take 1) one_row)
read_file_and_display-write_rows_example =
    read_file_and_display-write_rows 1 one_row ((omega arith, ((three-IsPlain, tt), tt)), tt)

receive_file_complete_example :
    Completes (1 ∷ 2 ∷ 3 ∷ []) (4 ∷ []) (receive_file 4 3 0 [] (got 1 [] ∷ got 2 (3 ∷ 4 ∷ []) ∷ []))
receive_file_complete_example =
    receive_file_complete (1 ∷ 2 ∷ 3 ∷ []) (4 ∷ [])
      (piece 1 [] (piece 2 (3 ∷ 4 ∷ []) idle refl) refl)

receive_file_closed_example : receive_file 50 3 1 (9 ∷ []) (closed ∷ []) ≡ looping
receive_file_closed_example = receive_file_closed 50 3 1 (9 ∷ []) [] (omega arith)

send_file_to_client_complete_example :
    (pieces : List Bytes) × (send_file_to_client
        (some (codes "abc"))
        (query_code class)
        (outbox_of [])
      ≡ outbox_of ((25 ∷ 0 ∷ 0 ∷ 0 ∷ 0 ∷ 3 ∷ []) ∷ pieces))
    × (concat pieces ≡ codes "abc")
    × All (λ c. length c ≤ 1024) pieces
send_file_to_client_complete_example = send_file_to_client_complete (query_code class) (codes "abc")

change_answers_example :
    Posts can_write_all (ok_code class add) (ok_page class add) (ok_message class add)
    × Posts can_write_all (err_code class add) (page_of class) (err_message class add)
change_answers_example = change_answers can_write_all class add
