-- ===== src/Client/Socket/Requests.antt =====
-- What the login button sends (OnClickedBtnLogin of StudentManagementClient/StudentManagementDlg.cpp, by
-- CTcpSocket.h) on the connection that it makes.
use school_information_manag.Prelude.{
  ℕ, ◌≡◌, refl, sym, ap, ◌∙◌, true, false, inl, inr, Option, none, some, arith, ◌==◌, ==_iff,
  Bool-cases, take, take-all, length, Bytes, is_neg, not,
}
use school_information_manag.Proto.{hdr_bytes, mysql_login}
use school_information_manag.Net.{Outbox, send}
use school_information_manag.Client.Dialog.{query_request, send_request}
use school_information_manag.Client.Login.{LoginDlg, login_query, on_clicked_btn_login}
use school_information_manag.Client.Socket.Links.{link_of, connect_server_link}
use school_information_manag.Client.Socket.Clicks.{Press, Clicked, send_login, press}
use school_information_manag.Client.Socket.{
  Socket, Failure, set_error, Wires, set_at, sent, connect_server,
}

-- What a connection has been sent after the button was pressed with this socket in the object.
abbrev pub login_out : LoginDlg → Option ℕ → (ℕ → Outbox) → ℕ → Outbox
login_out d none out = out
login_out d (some h) out = set_at h (on_clicked_btn_login d (out h)) out

sent_out :
    (h : ℕ) (e : Failure) (bs : Bytes) (s : Socket) (w : Wires)
    → s.m_socket ≡ some h
    → ((sent e bs s w).2.out ≡ set_at h (send bs (w.out h)).1 w.out)
      × (is_neg (sent e bs s w).0 ≡ not (send bs (w.out h)).0)
      × ((sent e bs s w).1.m_socket ≡ some h)
unfolding sent set_error
sent_out h e bs s w held = rw held (elim (Bool-cases (send bs (w.out h)).0) [
  | inl t ↦ rw t (refl, refl, refl)
  | inr t ↦ rw t (refl, refl, refl)
])

set_at_self : (h : ℕ) (o : Outbox) (out : ℕ → Outbox) → set_at h o out h ≡ o
set_at_self h o out = rw ((==_iff h h).1 refl) refl

set_at_twice :
    (h k : ℕ) (o o' : Outbox) (out : ℕ → Outbox) → set_at h o (set_at h o' out) k ≡ set_at h o out k
set_at_twice h k o o' out = elim (Bool-cases (k == h)) [ inl t ↦ rw t refl | inr t ↦ rw t refl ]

send_login-none :
    (e : Failure) (query : Bytes) (s : Socket) (w : Wires)
    → s.m_socket ≡ none
    → (send_login e query s w).1 ≡ w
unfolding send_login sent
send_login-none e query s w held = rw held refl

send_login-some :
    (d : LoginDlg) (h k : ℕ) (e : Failure) (s : Socket) (w : Wires)
    → s.m_socket ≡ some h
    → (send_login e (login_query d) s w).1.out k
      ≡ set_at h (on_clicked_btn_login d (w.out h)) w.out k
unfolding send_login on_clicked_btn_login send_request
send_login-some d h k e s w held =
    let query = login_query d in
    let hdr = hdr_bytes (query_request mysql_login query).hdr in
    let first = sent_out h e hdr s w held in
    let o1 = (send hdr (w.out h)).1 in
    let s1 = (sent e hdr s w).1 in
    let w1 = (sent e hdr s w).2 in
    let second = sent_out h e query s1 w1 first.2 in
    let whole : take (length query) query ≡ query = take-all (length query) query (omega arith) in
    elim (Bool-cases (send hdr (w.out h)).0) [
      | inl t ↦
          let good : is_neg (sent e hdr s w).0 ≡ false = first.1 ∙ ap not t in
          let here : w1.out h ≡ (send hdr (w.out h)).1 =
            ap (λ (f : ℕ → Outbox). f h) first.0 ∙ set_at_self h (send hdr (w.out h)).1 w.out in
          rw good (
            rw t (
              ap (λ (f : ℕ → Outbox). f k) second.0
              ∙ ap (λ o. set_at h (send query o).1 w1.out k) here
              ∙ ap (λ out. set_at h (send query o1).1 out k) first.0
              ∙ set_at_twice h k (send query o1).1 o1 w.out
              ∙ ap (λ q. set_at h (send q o1).1 w.out k) (sym whole)))
      | inr t ↦
          let bad : is_neg (sent e hdr s w).0 ≡ true = first.1 ∙ ap not t in
          rw bad (rw t (ap (λ (f : ℕ → Outbox). f k) first.0))
    ]

send_login_out :
    (d : LoginDlg) (held : Option ℕ) (k : ℕ) (e : Failure) (s : Socket) (w : Wires)
    → s.m_socket ≡ held
    → (send_login e (login_query d) s w).1.out k ≡ login_out d held w.out k
send_login_out d none k e s w h =
    ap (λ (v : Wires). v.out k) (send_login-none e (login_query d) s w h)
send_login_out d (some n) k e s w h = send_login-some d n k e s w h

-- What the button sends, whatever the system answers: where it connects its new socket, that
-- connection gets just the header and the statement of the login, the statement only if the header
-- could be sent; no other connection gets anything; and where it does not connect, nothing is sent.
pub press_sends :
    (d : LoginDlg) (p : Press) (c : Clicked) (k : ℕ)
    → (press d p c).wires.out k ≡ login_out d (link_of p.made p.linked) c.wires.out k
unfolding press
press_sends d p c k =
    send_login_out d (link_of p.made p.linked) k p.reason
      (connect_server p.made p.linked c.socket).1 c.wires
      (connect_server_link p.made p.linked c.socket).0
