-- ===== src/Client/Socket/Links.antt =====
-- The sockets that the login button makes, closes and leaves open
-- (StudentManagementClient/StudentManagementDlg.cpp, CBaseSocket.h and CTcpSocket.h).
use school_information_manag.Prelude.{
  ℕ, ◌+◌, ◌≡◌, refl, sym, ap, ◌∙◌, inl, inr, Option, none, some, List, [], ◌∷◌, ◌++◌, append-nil,
  append_assoc, arith, Bool-cases, length, Bytes, is_neg,
}
use school_information_manag.Proto.{hdr_bytes, mysql_login}
use school_information_manag.Net.{send}
use school_information_manag.Client.Dialog.{query_request}
use school_information_manag.Client.Login.{LoginDlg, login_query}
use school_information_manag.Client.Socket.Clicks.{Press, Clicked, send_login, press, presses}
use school_information_manag.Client.Socket.{
  sent_on, Socket, Failure, set_error, Created, created, not_created, Called, done, refused,
  create_socket, call_socket, close, Wires, sent, connect_server,
}

-- The socket that a press leaves in the object.
abbrev pub link_of : Created → Called → Option ℕ
link_of (not_created e) linked = none
link_of (created h) done = some h
link_of (created h) (refused e) = none

-- The socket that the system made and could not connect.
abbrev pub failed_link : Created → Called → List ℕ
failed_link (not_created e) linked = []
failed_link (created h) done = []
failed_link (created h) (refused e) = h ∷ []

abbrev pub failed_links : List Press → List ℕ
failed_links [] = []
failed_links (p ∷ ps) = failed_link p.made p.linked ++ failed_links ps

-- The socket that the last press leaves.
abbrev pub last_link : Option ℕ → List Press → Option ℕ
last_link held [] = held
last_link held (p ∷ ps) = last_link (link_of p.made p.linked) ps

-- A call of `Sent` touches only the error fields of the object.
sent_same :
    (e : Failure) (bs : Bytes) (s : Socket) (w : Wires)
    → ((sent e bs s w).1.m_socket ≡ s.m_socket) × ((sent e bs s w).1.closed ≡ s.closed)
unfolding sent set_error
sent_same e bs s w =
    elim s.m_socket
      as (λ h.
        ((sent_on e bs h s w).1.m_socket ≡ s.m_socket)
        × ((sent_on e bs h s w).1.closed ≡ s.closed)) [
          | none ↦ (refl, refl)
          | some h ↦ elim (Bool-cases (send bs (w.out h)).0) [
            | inl t ↦ rw t (refl, refl)
            | inr t ↦ rw t (refl, refl)
          ]
        ]

send_login_same :
    (e : Failure) (query : Bytes) (s : Socket) (w : Wires)
    → ((send_login e query s w).0.m_socket ≡ s.m_socket)
      × ((send_login e query s w).0.closed ≡ s.closed)
unfolding send_login
send_login_same e query s w =
    let hdr = hdr_bytes (query_request mysql_login query).hdr in
    let first = sent_same e hdr s w in
    let second = sent_same e query (sent e hdr s w).1 (sent e hdr s w).2 in
    elim (Bool-cases (is_neg (sent e hdr s w).0)) [
      | inl t ↦ rw t first
      | inr t ↦ rw t (second.0 ∙ first.0, second.1 ∙ first.1)
    ]

pub connect_server_link :
    (made : Created) (linked : Called) (s : Socket)
    → ((connect_server made linked s).1.m_socket ≡ link_of made linked)
      × ((connect_server made linked s).1.closed ≡ s.closed ++ failed_link made linked)
unfolding connect_server create_socket call_socket close set_error
connect_server_link (not_created e) linked s = (refl, sym (append-nil s.closed))
connect_server_link (created h) done s = (refl, sym (append-nil s.closed))
connect_server_link (created h) (refused e) s = (refl, refl)

press_link :
    (d : LoginDlg) (p : Press) (c : Clicked)
    → ((press d p c).socket.m_socket ≡ link_of p.made p.linked)
      × ((press d p c).socket.closed ≡ c.socket.closed ++ failed_link p.made p.linked)
      × ((press d p c).threads ≡ c.threads + 1)
unfolding press
press_link d p c =
    let s = (connect_server p.made p.linked c.socket).1 in
    let linked = connect_server_link p.made p.linked c.socket in
    let same = send_login_same p.reason (login_query d) s c.wires in
    (same.0 ∙ linked.0, same.1 ∙ linked.1, refl)

-- Whatever the system answers to any number of presses of the login button: each starts a thread, the
-- object holds the socket of the last one if it was connected and none otherwise, and the sockets that
-- were closed are just those that could not be connected, in order. So a press on a connected socket
-- leaves that socket open for good.
pub presses_links :
    (d : LoginDlg) (ps : List Press) (c : Clicked)
    → let c' = presses d ps c in
      (c'.socket.m_socket ≡ last_link c.socket.m_socket ps)
      × (c'.socket.closed ≡ c.socket.closed ++ failed_links ps)
      × (c'.threads ≡ c.threads + length ps)
unfolding presses
presses_links d [] c = (refl, sym (append-nil c.socket.closed), omega arith)
presses_links d (p ∷ ps) c =
    let now = press_link d p c in
    let later = presses_links d ps (press d p c) in
    (
      later.0 ∙ ap (λ h. last_link h ps) now.0,
      later.1
          ∙ ap (λ l. l ++ failed_links ps) now.1
          ∙ append_assoc c.socket.closed (failed_link p.made p.linked) (failed_links ps),
      omega (arith, later.2, now.2),
    )
