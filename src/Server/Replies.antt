-- ===== src/Server/Replies.antt =====
-- What the server does for a request that arrives whole, and which named code it answers with.
use school_information_manag.Prelude.{
  ℕ, ◌+◌, ◌^◌, ◌<◌, ◌≡◌, refl, ap, ◌∙◌, List, [], ◌∷◌, arith, if◌then◌else◌, length, take-all,
  drop-all, Bytes, is_zero,
}
use school_information_manag.Proto.{PacketHdr, hdr_bytes}
use school_information_manag.Proto.Codec.{hdr_of_bytes-hdr_bytes}
use school_information_manag.Proto.Requests.{
  Entity, student, class, course, choice, Change, add, del, edit, change_code, ok_code, err_code,
}
use school_information_manag.Net.{Arrival, bytes, push_back, recv, send}
use school_information_manag.Server.State.{
  MySql, Machine, dangling, live, Task, Step, next, overlay_full, delete_buf, send_logged, reply,
  receive_query,
}
use school_information_manag.Server.Handlers.{run_update, on_add, on_del, run_edit, on_edit}
use school_information_manag.Server.Loop.{dispatch, serve_one}

-- `recv` of as many bytes as lie in front.
recv_whole :
    (text : Bytes) (later : List Arrival)
    → 0 < length text
    → recv (length text) (push_back text later) ≡ (bytes text, later)
unfolding recv
recv_whole [] later h = absurd (omega arith)
recv_whole (b ∷ bs) later h =
    rw (take-all (length bs) bs (omega arith), drop-all (length bs) bs (omega arith))

module _ {m : MySql} (env : Machine) (t : Task m) (later : List Arrival) where
  -- The state with a header and a text at the front of the socket.
  abbrev pub request : ℕ → Bytes → Task m
  request cmd text = record t {
    inbox =
        push_back (hdr_bytes (record { n_cmd = cmd; n_len = length text })) (push_back text later);
  }

  -- The state once both are read.
  abbrev pub started : Task m
  started = record t { inbox = later; buf = live }

  -- The state that a statement leaves: the answer sent, the buffer deleted.
  abbrev pub answered : m.Conn → ℕ → Task m
  answered conn cmd = record t {
    inbox = later;
    buf = dangling;
    conn = conn;
    out = (send (hdr_bytes (record { n_cmd = cmd; n_len = 0 })) t.out).1;
  }

  abbrev pub hdr_of : ℕ → Bytes → PacketHdr
  hdr_of cmd text = record { n_cmd = cmd; n_len = length text }

  module _ (text : Bytes) (pos_n : 0 < length text) (fits : length text < 2 ^ 31) where
    pub receive_query_whole :
        (cmd : ℕ) (handle : Bytes → Task m → Step m)
        → receive_query env (hdr_of cmd text) handle (record t { inbox = push_back text later })
          ≡ handle text started
    unfolding receive_query
    receive_query_whole cmd handle =
        ground (
          arith,
          recv_whole text later pos_n,
          overlay_full (length text) text (env.stale later) refl,
        )

    -- A whole header is read and dispatched.
    pub serve_one_whole :
        (cmd : ℕ)
        → cmd < 2 ^ 16
        → serve_one env (request cmd text)
          ≡ dispatch env (hdr_of cmd text) (record t { inbox = push_back text later })
    unfolding serve_one recv hdr_bytes
    serve_one_whole cmd h =
        ap (λ hdr. dispatch env hdr (record t { inbox = push_back text later }))
          (unfold hdr_bytes in hdr_of_bytes-hdr_bytes (hdr_of cmd text) h (omega arith))

    run_update_answers :
        (cmd : ℕ)
        → run_update (hdr_of cmd text) text started
          ≡ next (
              answered
                (m.real_query text t.conn).1
                (if is_zero (m.real_query text t.conn).0 then cmd + 1 else cmd + 2))
    unfolding run_update delete_buf reply send_logged
    run_update_answers cmd = ground arith

    run_edit_answers :
        (cmd : ℕ)
        → run_edit (hdr_of cmd text) text started
          ≡ next (
              answered
                (m.real_query text t.conn).1
                (if is_zero (m.real_query text t.conn).0 then cmd + 3 else cmd + 4))
    unfolding run_edit delete_buf reply send_logged
    run_edit_answers cmd = ground arith

    on_add_answers :
        (cmd : ℕ)
        → on_add env (hdr_of cmd text) (record t { inbox = push_back text later })
          ≡ run_update (hdr_of cmd text) text started
    unfolding on_add
    on_add_answers cmd = ground (arith, receive_query_whole cmd (run_update (hdr_of cmd text)))

    on_del_answers :
        (cmd : ℕ)
        → on_del env (hdr_of cmd text) (record t { inbox = push_back text later })
          ≡ run_update (hdr_of cmd text) text started
    unfolding on_del
    on_del_answers cmd = ground (arith, receive_query_whole cmd (run_update (hdr_of cmd text)))

    on_edit_answers :
        (cmd : ℕ)
        → on_edit env (hdr_of cmd text) (record t { inbox = push_back text later })
          ≡ run_edit (hdr_of cmd text) text started
    unfolding on_edit
    on_edit_answers cmd = ground (arith, receive_query_whole cmd (run_edit (hdr_of cmd text)))

    dispatch_change :
        (x : Entity) (c : Change)
        → dispatch env (hdr_of (change_code x c) text) (record t { inbox = push_back text later })
          ≡ next (
              answered
                (m.real_query text t.conn).1
                (if is_zero (m.real_query text t.conn).0 then ok_code x c else err_code x c))
    unfolding dispatch
    dispatch_change student add = on_add_answers _ ∙ run_update_answers _
    dispatch_change student del = on_del_answers _ ∙ run_update_answers _
    dispatch_change student edit = on_edit_answers _ ∙ run_edit_answers _
    dispatch_change class add = on_add_answers _ ∙ run_update_answers _
    dispatch_change class del = on_del_answers _ ∙ run_update_answers _
    dispatch_change class edit = on_edit_answers _ ∙ run_edit_answers _
    dispatch_change course add = on_add_answers _ ∙ run_update_answers _
    dispatch_change course del = on_del_answers _ ∙ run_update_answers _
    dispatch_change course edit = on_edit_answers _ ∙ run_edit_answers _
    dispatch_change choice add = on_add_answers _ ∙ run_update_answers _
    dispatch_change choice del = on_del_answers _ ∙ run_update_answers _
    dispatch_change choice edit = on_edit_answers _ ∙ run_edit_answers _

    change_code-lt : (x : Entity) (c : Change) → change_code x c < 2 ^ 16
    change_code-lt student add = omega arith
    change_code-lt student del = omega arith
    change_code-lt student edit = omega arith
    change_code-lt class add = omega arith
    change_code-lt class del = omega arith
    change_code-lt class edit = omega arith
    change_code-lt course add = omega arith
    change_code-lt course del = omega arith
    change_code-lt course edit = omega arith
    change_code-lt choice add = omega arith
    change_code-lt choice del = omega arith
    change_code-lt choice edit = omega arith

    -- For each kind of record and each of ADD, DEL and EDIT, a request that arrives whole, with a
    -- statement of 1 to 2 ^ 31 - 1 bytes, is executed: the database gets exactly that statement
    -- once, and the client gets a header alone, with the code that Proto.h names OK where the
    -- database reports success and with the one that it names ERR where it does not. The buffer is
    -- deleted, and nothing else changes.
    pub serve_change :
        (x : Entity) (c : Change)
        → serve_one env (request (change_code x c) text)
          ≡ next (
              answered
                (m.real_query text t.conn).1
                (if is_zero (m.real_query text t.conn).0 then ok_code x c else err_code x c))
    serve_change x c = serve_one_whole (change_code x c) (change_code-lt x c) ∙ dispatch_change x c
