-- ===== src/Client/Socket.antt =====
-- StudentManagementClient/CBaseSocket.h and CTcpSocket.h: the client's one socket, `g_tcpSocket`; and
-- ConnectServer of StudentManagementClient/StudentManagementDlg.cpp.
pub mod Clicks
pub mod Links
pub mod Requests
pub mod Destroyed
use school_information_manag.Prelude.{
  ℕ, ◌≡◌, Bool, true, false, Option, none, some, List, [], ◌∷◌, ◌++◌, ◌==◌, length, if◌then◌else◌,
  Bytes, codes, ℤ, pos, negsuc,
}
use school_information_manag.Net.{Arrival, Received, bytes, error, blocks, recv, Outbox, send}

-- An object and the static error fields. INVALID_SOCKET is `none`. `closed` are the sockets that
-- `closesocket` was called with, in order.
pub record Socket : Type 0 where
  pub m_socket : Option ℕ
  pub n_err_code : ℕ
  pub sz_error : Bytes
  pub closed : List ℕ

-- What the system tells of a failed call: `WSAGetLastError` and the text of `FormatMessage`.
pub record Failure : Type 0 where
  pub code : ℕ
  pub text : Bytes

-- `SetError`: the texts are short of the 4096 bytes of `m_szError`.
unfoldable pub set_error : Bytes → Failure → Socket → Socket
set_error name e s = record s {
  n_err_code = e.code;
  sz_error = codes "[" ++ (name ++ (codes "]" ++ e.text));
}

-- The constructor without a socket, and `CBaseSocket(SOCKET s)`.
abbrev pub new_socket : Option ℕ → Socket
new_socket h = record { m_socket = h; n_err_code = 0; sz_error = []; closed = [] }

-- A call of the system that yields a socket or fails.
pub data Created : Type 0 where
  created : ℕ → Created
  not_created : Failure → Created

-- A call of the system that succeeds or fails.
pub data Called : Type 0 where
  done : Called
  refused : Failure → Called

-- `CreateSocket`: what the object held before is not closed.
unfoldable pub create_socket : Created → Socket → ℤ × Socket
create_socket (created h) s = (pos 0, record s { m_socket = some h })
create_socket (not_created e) s =
    (negsuc 0, set_error (codes "socket") e (record s { m_socket = none }))

-- `Bind`, `Listen` and `Connect`, by the name of the system's call.
unfoldable pub call_socket : Bytes → Called → Socket → ℤ × Socket
call_socket name done s = (pos 0, s)
call_socket name (refused e) s = (negsuc 0, set_error name e s)

-- `Accept`: NULL is `none`, and the new object has the same static fields.
unfoldable pub accept : Created → Socket → Option ℕ × Socket
accept (created h) s = (some h, s)
accept (not_created e) s = (none, set_error (codes "accept") e s)

-- `Close`, which the destructor calls too.
abbrev pub close_held : Option ℕ → Socket → Socket
close_held none s = s
close_held (some h) s = record s { m_socket = none; closed = s.closed ++ h ∷ [] }

unfoldable pub close : Socket → Socket
close s = close_held s.m_socket s

-- What the connections of the sockets have been sent, and what will come on them.
pub record Wires : Type 0 where
  pub out : ℕ → Outbox
  pub inbox : ℕ → List Arrival

abbrev pub set_at {ℓ} : {A : Type ℓ} → ℕ → A → (ℕ → A) → ℕ → A
set_at h a f k = if k == h then a else f k

-- `Sent`: a call on no socket fails. `e` is what the system tells when the call fails.
abbrev sent_on : Failure → Bytes → Option ℕ → Socket → Wires → ℤ × Socket × Wires
sent_on e bs none s w = (negsuc 0, set_error (codes "send") e s, w)
sent_on e bs (some h) s w =
    let (ok, o) = send bs (w.out h) in
    let w' = record w { out = set_at h o w.out } in
    if ok then (pos (length bs), s, w') else (negsuc 0, set_error (codes "send") e s, w')

unfoldable pub sent : Failure → Bytes → Socket → Wires → ℤ × Socket × Wires
sent e bs s w = sent_on e bs s.m_socket s w

-- `Receive`: `none` where the call does not return.
abbrev pub receive_on :
    Failure → ℕ → Option ℕ → Socket → Wires → Option (ℤ × Bytes × Socket × Wires)
receive_on e n none s w = some (negsuc 0, [], set_error (codes "recv") e s, w)
receive_on e n (some h) s w =
    let (r, later) = recv n (w.inbox h) in
    let w' = record w { inbox = set_at h later w.inbox } in
    elim r [
      | blocks ↦ none
      | bytes bs ↦ some (pos (length bs), bs, s, w')
      | error code ↦ some (negsuc 0, [], set_error (codes "recv") (record e { code = code }) s, w')
    ]

unfoldable pub receive : Failure → ℕ → Socket → Wires → Option (ℤ × Bytes × Socket × Wires)
receive e n s w = receive_on e n s.m_socket s w

-- `ConnectServer` of the login dialog.
unfoldable pub connect_server : Created → Called → Socket → ℤ × Socket
connect_server c k s =
    let (made, s1) = create_socket c s in
    let (linked, s2) = call_socket (codes "connect") k s1 in
    elim made [
      | negsuc n ↦ (negsuc 0, s1)
      | pos n ↦ elim linked [ negsuc n ↦ (negsuc 0, close s2) | pos n ↦ (pos 0, s2) ]
    ]
