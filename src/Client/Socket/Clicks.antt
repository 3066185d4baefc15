-- ===== src/Client/Socket/Clicks.antt =====
-- The login button on the client's socket (OnClickedBtnLogin of
-- StudentManagementClient/StudentManagementDlg.cpp with ConnectServer).
use school_information_manag.Prelude.{ℕ, ◌+◌, List, [], ◌∷◌, if◌then◌else◌, Bytes, is_neg}
use school_information_manag.Proto.{hdr_bytes, mysql_login}
use school_information_manag.Client.Dialog.{query_request}
use school_information_manag.Client.Login.{LoginDlg, login_query}
use school_information_manag.Client.Socket.{
  Socket, Failure, Created, Called, Wires, sent, connect_server,
}

-- What the system answers to one press of the button: to `socket`, to `connect`, and, where a `send`
-- fails, why.
pub record Press : Type 0 where
  pub made : Created
  pub linked : Called
  pub reason : Failure

-- The socket object, the connections, and how many threads the button has started.
pub record Clicked : Type 0 where
  pub socket : Socket
  pub wires : Wires
  pub threads : ℕ

-- The two calls of `Sent`: where the first fails, the handler returns.
unfoldable pub send_login : Failure → Bytes → Socket → Wires → Socket × Wires
send_login e query s w =
    let r = query_request mysql_login query in
    let (code, s1, w1) = sent e (hdr_bytes r.hdr) s w in
    let (code', s2, w2) = sent e query s1 w1 in if is_neg code then (s1, w1) else (s2, w2)

-- OnClickedBtnLogin, whose first line ignores the result of ConnectServer.
unfoldable pub press : LoginDlg → Press → Clicked → Clicked
press d p c =
    let (code, s) = connect_server p.made p.linked c.socket in
    let (s', w) = send_login p.reason (login_query d) s c.wires in
    record { socket = s'; wires = w; threads = c.threads + 1 }

unfoldable pub presses : LoginDlg → List Press → Clicked → Clicked
presses d [] c = c
presses d (p ∷ ps) c = presses d ps (press d p c)
