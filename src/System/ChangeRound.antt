-- ===== src/System/ChangeRound.antt =====
-- An ADD, a DEL or an EDIT, from the page's queue to the message that the page gets.
use school_information_manag.Prelude.{
  ℕ, ◌<◌, ◌^◌, ◌≡◌, refl, ◌∙◌, arith, Bool, true, false, some, List, [], ◌∷◌, ◌++◌, if◌then◌else◌,
  length, take-all, Bytes, is_zero, is_pos,
}
use school_information_manag.Proto.{PacketHdr, hdr_bytes, hdr_size}
use school_information_manag.Proto.Requests.{
  Entity, student, class, course, choice, Change, add, del, edit, change_code, ok_code, err_code,
  check_code, edit_null_code,
}
use school_information_manag.Net.{Arrival, push_back, outbox_of, send}
use school_information_manag.Listing.{Row}
use school_information_manag.Text.{atoi}
use school_information_manag.Server.State.{MySql, Machine, Task, next}
use school_information_manag.Server.Loop.{serve_one}
use school_information_manag.Server.Replies.{answered, serve_change}
use school_information_manag.Server.Checks.{serve_check_counts}
use school_information_manag.Client.Dialog.{query_request, send_request}
use school_information_manag.Client.Main.{Page, Receiver, Round, post, recv_round}
use school_information_manag.Client.Main
use school_information_manag.Client.Main.Answers.{
  page_of, ok_page, ok_message, err_message, change_answers, recv_round_whole,
}

-- These packets arrive one by one, each whole.
abbrev pub deliver : List Bytes → List Arrival → List Arrival
deliver [] later = later
deliver (p ∷ ps) later = push_back p (deliver ps later)

-- A background thread whose sends succeed sends a request's header and then its text.
pub send_request-packets :
    (cmd : ℕ) (text : Bytes) (sent : List Bytes)
    → send_request (query_request cmd text) (outbox_of sent)
      ≡ outbox_of
          ((sent ++ hdr_bytes (record { n_cmd = cmd; n_len = length text }) ∷ []) ++ text ∷ [])
unfolding send_request send
send_request-packets cmd text sent = rw (take-all (length text) text (omega arith)) refl

answer_code : Bool → Entity → Change → ℕ
answer_code done x c = if done then ok_code x c else err_code x c

answer_code-lt : (done : Bool) (x : Entity) (c : Change) → answer_code done x c < 2 ^ 16
unfolding answer_code
answer_code-lt true student add = omega arith
answer_code-lt true student del = omega arith
answer_code-lt true student edit = omega arith
answer_code-lt true class add = omega arith
answer_code-lt true class del = omega arith
answer_code-lt true class edit = omega arith
answer_code-lt true course add = omega arith
answer_code-lt true course del = omega arith
answer_code-lt true course edit = omega arith
answer_code-lt true choice add = omega arith
answer_code-lt true choice del = omega arith
answer_code-lt true choice edit = omega arith
answer_code-lt false student add = omega arith
answer_code-lt false student del = omega arith
answer_code-lt false student edit = omega arith
answer_code-lt false class add = omega arith
answer_code-lt false class del = omega arith
answer_code-lt false class edit = omega arith
answer_code-lt false course add = omega arith
answer_code-lt false course del = omega arith
answer_code-lt false course edit = omega arith
answer_code-lt false choice add = omega arith
answer_code-lt false choice del = omega arith
answer_code-lt false choice edit = omega arith

-- What the page is told, by what the database returned.
abbrev pub told : Bool → Entity → Change → Receiver → Receiver
told done x c u =
    if done then post (ok_page x c) (ok_message x c) u else post (page_of x) (err_message x c) u

on_answer-told :
    (can_write : Page → Bool) (done : Bool) (x : Entity) (c : Change) (u : Receiver)
    → Main.on_answer can_write (record { n_cmd = answer_code done x c; n_len = 0 }) u
      ≡ Main.next (told done x c u)
unfolding answer_code
on_answer-told can_write true x c u = (change_answers can_write x c).0 0 u
on_answer-told can_write false x c u = (change_answers can_write x c).1 0 u

tells_page :
    (can_write : Page → Bool) (u : Receiver) (after : List Arrival) (done : Bool) (x : Entity)
    (c : Change)
    → length u.recv_hdr ≡ hdr_size
    → recv_round can_write (record u {
      inbox = push_back (hdr_bytes (record { n_cmd = answer_code done x c; n_len = 0 })) after;
    })
      ≡ Main.next (
          told done x c (record u {
            inbox = after;
            recv_hdr = hdr_bytes (record { n_cmd = answer_code done x c; n_len = 0 });
          }))
tells_page can_write u after done x c size =
    recv_round_whole can_write (record { n_cmd = answer_code done x c; n_len = 0 }) after u
      (answer_code-lt done x c) (omega arith) size
    ∙ on_answer-told can_write done x c _

-- An ADD, a DEL or an EDIT of any kind of record, whole. A page's background thread sends the
-- request, a text of 1 to 2 ^ 31 - 1 bytes, and both packets arrive whole, one after the other, at a
-- server whose sends succeed. Then the server hands the database exactly the text, once, leaves what
-- follows in the socket, and sends one header alone; and when that header comes whole to a client,
-- its next round posts the message of that change's success to the page that hears of it where the
-- database reported success, and otherwise the message of its failure to the page of that kind.
pub change_round :
    {m : MySql} (env : Machine) (t : Task m) (later : List Arrival) (x : Entity) (c : Change)
    (text : Bytes) (can_write : Page → Bool) (u : Receiver) (after : List Arrival)
    → 0 < length text
    → length text < 2 ^ 31
    → t.out ≡ outbox_of []
    → length u.recv_hdr ≡ hdr_size
    → (t' : Task m) × (reply : PacketHdr) × (serve_one env (record t {
      inbox =
          deliver (send_request (query_request (change_code x c) text) (outbox_of [])).sent later;
    })
        ≡ next t')
      × (t'.conn ≡ (m.real_query text t.conn).1)
      × (t'.inbox ≡ later)
      × (t'.out ≡ outbox_of (hdr_bytes reply ∷ []))
      × (recv_round can_write (record u { inbox = push_back (hdr_bytes reply) after })
          ≡ Main.next (
              told
                (is_zero (m.real_query text t.conn).0)
                x
                c
                (record u { inbox = after; recv_hdr = hdr_bytes reply })))
unfolding answer_code
change_round {m} env t later x c text can_write u after pos_n fits out size =
    let done : Bool = is_zero (m.real_query text t.conn).0 in
    let code : ℕ = answer_code done x c in
    (
      answered env t later (m.real_query text t.conn).1 code,
      record { n_cmd = code; n_len = 0 },
      rw (send_request-packets (change_code x c) text [])
          (serve_change env t later text pos_n fits x c),
      refl,
      refl,
      rw out (unfold send in refl),
      tells_page can_write u after done x c size,
    )

-- The EDIT button sends a check and then the update. Where both arrive whole, the database accepts
-- both, counts no row for the check, and all sends succeed, the server answers twice: first that the
-- identifier does not exist, and then that the edit succeeded.
pub edit_of_missing :
    {m : MySql} (env : Machine) (t : Task m) (later : List Arrival) (x : Entity)
    (check update count : Bytes) (fields : Row) (rows : List Row)
    → 0 < length check
    → length check < 2 ^ 31
    → 0 < length update
    → length update < 2 ^ 31
    → t.out ≡ outbox_of []
    → is_zero (m.real_query check t.conn).0 ≡ true
    → (m.store_result (m.real_query check t.conn).1).0 ≡ some ((some count ∷ fields) ∷ rows)
    → is_pos (atoi count) ≡ false
    → is_zero (m.real_query update (m.store_result (m.real_query check t.conn).1).1).0 ≡ true
    → (t' : Task m) × (t'' : Task m) × (serve_one env (record t {
      inbox = deliver (send_request (query_request (check_code x) check) (outbox_of [])).sent (
          deliver
            (send_request (query_request (change_code x edit) update) (outbox_of [])).sent
            later);
    })
        ≡ next t')
      × (serve_one env t' ≡ next t'')
      × (t''.out
          ≡ outbox_of (
              hdr_bytes (record { n_cmd = edit_null_code x; n_len = 0 })
              ∷ hdr_bytes (record { n_cmd = ok_code x edit; n_len = 0 })
              ∷ []))
edit_of_missing {m} env t later x check update count fields rows p1 f1 p2 f2 out ok1 res zero_rows
      ok2 =
    let rest : List Arrival =
      deliver (send_request (query_request (change_code x edit) update) (outbox_of [])).sent
        later in
    let conn : m.Conn = (m.store_result (m.real_query check t.conn).1).1 in
    let first : Task m = answered env t rest conn (edit_null_code x) in
    (
      first,
      answered env first later (m.real_query update conn).1 (ok_code x edit),
      rw (send_request-packets (check_code x) check []) (
          serve_check_counts env t rest check p1 f1 x count fields rows ok1 res
          ∙ rw zero_rows refl),
      rw (send_request-packets (change_code x edit) update [])
          (serve_change env first later update p2 f2 x edit ∙ rw ok2 refl),
      rw out (unfold send in refl),
    )
