-- ===== src/System/Mixing.antt =====
-- Two pages' background threads send at the same time. Each sends a header and then a text, and
-- nothing keeps the packets of one request together: every page has a mutex of its own
-- (StudentManagementClient/CStudentInfoDlg.cpp and its siblings), and the socket is shared.
use school_information_manag.Prelude.{
  ℕ, ◌≤◌, ◌<◌, ◌^◌, ◌≡◌, refl, ap, arith, List, [], ◌∷◌, Bool-cases, inl, inr, length, take-all,
  drop-all, Bytes, is_zero,
}
use school_information_manag.Proto.{PacketHdr, hdr_bytes, hdr_size}
use school_information_manag.Proto.Codec.{length-hdr_bytes}
use school_information_manag.Proto.Requests.{
  Entity, student, class, course, choice, Change, add, del, edit, change_code,
}
use school_information_manag.Net.{Arrival, bytes, push_back, recv, Outbox, outbox_of}
use school_information_manag.Server.State.{
  MySql, Machine, live, Task, Step, next, overlay, delete_buf, send_logged, reply, receive_query,
}
use school_information_manag.Server.Handlers.{run_update, on_add, on_del, run_edit, on_edit}
use school_information_manag.Server.Loop.{dispatch, serve_one}
use school_information_manag.Server.Memory.{serve_one_header}
use school_information_manag.Client.Dialog.{query_request, send_request}
use school_information_manag.System.ChangeRound.{deliver, send_request-packets}

-- An order in which the packets of two threads may go out.
pub data Shuffled : List Bytes → List Bytes → List Bytes → Type 0 where
  none_left : Shuffled [] [] []
  first : {p : Bytes} {ps qs rs : List Bytes} → Shuffled ps qs rs → Shuffled (p ∷ ps) qs (p ∷ rs)
  second : {q : Bytes} {ps qs rs : List Bytes} → Shuffled ps qs rs → Shuffled ps (q ∷ qs) (q ∷ rs)

recv_header :
    (n : ℕ) (hdr : PacketHdr) (after : List Arrival)
    → hdr_size ≤ n
    → recv n (push_back (hdr_bytes hdr) after) ≡ (bytes (hdr_bytes hdr), after)
unfolding recv hdr_bytes
recv_header n hdr after h =
    rw (take-all n (hdr_bytes hdr) (rw (length-hdr_bytes hdr) h))
      (rw (drop-all n (hdr_bytes hdr) (rw (length-hdr_bytes hdr) h)) refl)

module _ {m : MySql} (env : Machine) (t : Task m) (after : List Arrival) where
  -- The step goes on, and the database was handed this statement.
  abbrev pub Executes : Step m → Bytes → Type 0
  Executes s text = (t' : Task m) × (s ≡ next t') × (t'.conn ≡ (m.real_query text t.conn).1)

  run_update-Executes :
      (hdr : PacketHdr) (text : Bytes)
      → Executes (run_update hdr text (record t { inbox = after; buf = live })) text
  unfolding run_update delete_buf reply send_logged
  run_update-Executes hdr text = elim (Bool-cases (is_zero (m.real_query text t.conn).0)) [
    | inl e ↦ rw e (_, refl, refl)
    | inr e ↦ rw e (_, refl, refl)
  ]

  run_edit-Executes :
      (hdr : PacketHdr) (text : Bytes)
      → Executes (run_edit hdr text (record t { inbox = after; buf = live })) text
  unfolding run_edit delete_buf reply send_logged
  run_edit-Executes hdr text = elim (Bool-cases (is_zero (m.real_query text t.conn).0)) [
    | inl e ↦ rw e (_, refl, refl)
    | inr e ↦ rw e (_, refl, refl)
  ]

  -- The bytes of the other header, and behind them what was in the new buffer.
  abbrev pub mixed_text : ℕ → PacketHdr → Bytes
  mixed_text n other = overlay n (hdr_bytes other) (env.stale after)

  receive_query_header :
      (hdr other : PacketHdr) (handle : Bytes → Task m → Step m)
      → hdr_size ≤ hdr.n_len
      → hdr.n_len < 2 ^ 31
      → receive_query env hdr handle (record t { inbox = push_back (hdr_bytes other) after })
        ≡ handle (mixed_text hdr.n_len other) (record t { inbox = after; buf = live })
  unfolding receive_query
  receive_query_header hdr other handle h k = ground (arith, recv_header hdr.n_len other after h)

  on_add_mixed :
      (hdr other : PacketHdr)
      → hdr_size ≤ hdr.n_len
      → hdr.n_len < 2 ^ 31
      → on_add env hdr (record t { inbox = push_back (hdr_bytes other) after })
        ≡ run_update hdr (mixed_text hdr.n_len other) (record t { inbox = after; buf = live })
  unfolding on_add
  on_add_mixed hdr other h k = ground (arith, receive_query_header hdr other (run_update hdr) h k)

  on_add-Executes :
      (hdr other : PacketHdr)
      → hdr_size ≤ hdr.n_len
      → hdr.n_len < 2 ^ 31
      → Executes
          (on_add env hdr (record t { inbox = push_back (hdr_bytes other) after }))
          (mixed_text hdr.n_len other)
  on_add-Executes hdr other h k =
      rw (on_add_mixed hdr other h k) (run_update-Executes hdr (mixed_text hdr.n_len other))

  on_del_mixed :
      (hdr other : PacketHdr)
      → hdr_size ≤ hdr.n_len
      → hdr.n_len < 2 ^ 31
      → on_del env hdr (record t { inbox = push_back (hdr_bytes other) after })
        ≡ run_update hdr (mixed_text hdr.n_len other) (record t { inbox = after; buf = live })
  unfolding on_del
  on_del_mixed hdr other h k = ground (arith, receive_query_header hdr other (run_update hdr) h k)

  on_del-Executes :
      (hdr other : PacketHdr)
      → hdr_size ≤ hdr.n_len
      → hdr.n_len < 2 ^ 31
      → Executes
          (on_del env hdr (record t { inbox = push_back (hdr_bytes other) after }))
          (mixed_text hdr.n_len other)
  on_del-Executes hdr other h k =
      rw (on_del_mixed hdr other h k) (run_update-Executes hdr (mixed_text hdr.n_len other))

  on_edit_mixed :
      (hdr other : PacketHdr)
      → hdr_size ≤ hdr.n_len
      → hdr.n_len < 2 ^ 31
      → on_edit env hdr (record t { inbox = push_back (hdr_bytes other) after })
        ≡ run_edit hdr (mixed_text hdr.n_len other) (record t { inbox = after; buf = live })
  unfolding on_edit
  on_edit_mixed hdr other h k = ground (arith, receive_query_header hdr other (run_edit hdr) h k)

  on_edit-Executes :
      (hdr other : PacketHdr)
      → hdr_size ≤ hdr.n_len
      → hdr.n_len < 2 ^ 31
      → Executes
          (on_edit env hdr (record t { inbox = push_back (hdr_bytes other) after }))
          (mixed_text hdr.n_len other)
  on_edit-Executes hdr other h k =
      rw (on_edit_mixed hdr other h k) (run_edit-Executes hdr (mixed_text hdr.n_len other))

  abbrev ask : Entity → Change → ℕ → PacketHdr
  ask x c n = record { n_cmd = change_code x c; n_len = n }

  dispatch_mixed :
      (x : Entity) (c : Change) (n : ℕ) (other : PacketHdr)
      → hdr_size ≤ n
      → n < 2 ^ 31
      → (change_code x c < 2 ^ 16)
        × Executes
            (dispatch env (ask x c n) (record t { inbox = push_back (hdr_bytes other) after }))
            (mixed_text n other)
  unfolding dispatch
  dispatch_mixed student add n o h k = (omega arith, on_add-Executes (ask student add n) o h k)
  dispatch_mixed student del n o h k = (omega arith, on_del-Executes (ask student del n) o h k)
  dispatch_mixed student edit n o h k = (omega arith, on_edit-Executes (ask student edit n) o h k)
  dispatch_mixed class add n o h k = (omega arith, on_add-Executes (ask class add n) o h k)
  dispatch_mixed class del n o h k = (omega arith, on_del-Executes (ask class del n) o h k)
  dispatch_mixed class edit n o h k = (omega arith, on_edit-Executes (ask class edit n) o h k)
  dispatch_mixed course add n o h k = (omega arith, on_add-Executes (ask course add n) o h k)
  dispatch_mixed course del n o h k = (omega arith, on_del-Executes (ask course del n) o h k)
  dispatch_mixed course edit n o h k = (omega arith, on_edit-Executes (ask course edit n) o h k)
  dispatch_mixed choice add n o h k = (omega arith, on_add-Executes (ask choice add n) o h k)
  dispatch_mixed choice del n o h k = (omega arith, on_del-Executes (ask choice del n) o h k)
  dispatch_mixed choice edit n o h k = (omega arith, on_edit-Executes (ask choice edit n) o h k)

-- What a background thread sends for a change.
abbrev pub packets_of : Entity → Change → Bytes → List Bytes
packets_of x c text = (send_request (query_request (change_code x c) text) (outbox_of [])).sent

packets_of_lem :
    (x : Entity) (c : Change) (text : Bytes)
    → packets_of x c text
      ≡ hdr_bytes (record { n_cmd = change_code x c; n_len = length text }) ∷ text ∷ []
packets_of_lem x c text =
    ap (λ (o : Outbox). o.sent) (send_request-packets (change_code x c) text [])

-- Two pages send a change each, the first of 6 to 2 ^ 31 - 1 bytes. There is an order of the four
-- packets, each request's in its own order, in which the server, when each packet arrives whole,
-- hands the database for the first request the bytes of the second request's header, filled up to
-- the length of the first with what the new buffer happened to hold.
pub mixed_requests :
    {m : MySql} (env : Machine) (t : Task m) (later : List Arrival) (x y : Entity) (c d : Change)
    (a b : Bytes)
    → hdr_size ≤ length a
    → length a < 2 ^ 31
    → (order : List Bytes) × Shuffled (packets_of x c a) (packets_of y d b) order
      × Executes env t
          (push_back a (push_back b later))
          (serve_one env (record t { inbox = deliver order later }))
          (overlay
            (length a)
            (hdr_bytes (record { n_cmd = change_code y d; n_len = length b }))
            (env.stale (push_back a (push_back b later))))
mixed_requests {m} env t later x y c d a b h k =
    let one : PacketHdr = record { n_cmd = change_code x c; n_len = length a } in
    let two : PacketHdr = record { n_cmd = change_code y d; n_len = length b } in
    let after : List Arrival = push_back a (push_back b later) in
    let done = dispatch_mixed env t after x c (length a) two h k in
    (
      hdr_bytes one ∷ hdr_bytes two ∷ a ∷ b ∷ [],
      rw (packets_of_lem x c a)
          (rw (packets_of_lem y d b) (first (second (first (second none_left))))),
      rw (serve_one_header env t (push_back (hdr_bytes two) after) one done.0 (omega (arith, k)))
          done.1,
    )
