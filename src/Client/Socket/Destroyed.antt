-- ===== src/Client/Socket/Destroyed.antt =====
-- The main dialog's end, and the head of the loop of its thread that receives
-- (StudentManagementClient/CMainDlg.cpp).
use school_information_manag.Prelude.{
  ℕ, zero, suc, ◌≡◌, refl, sym, ap, negsuc, [], Option, none, some, if◌then◌else◌, Bytes, codes,
  is_neg,
}
use school_information_manag.Proto.{hdr_size}
use school_information_manag.Client.Socket.{
  Socket, Failure, set_error, close, close_held, Wires, receive, receive_on,
}

-- `OnDestroy`
unfoldable pub on_destroy : Socket → Socket
on_destroy s = close s

-- What the loop of RecvThread comes to: its `switch`, with the bytes of a header, or a call of
-- `Receive` that does not return.
pub data Heard : Type 0 where
  header : Bytes → Socket → Wires → Heard
  silent : Heard

-- The rounds of RecvThread up to the first `Receive` that does not fail, with fuel; a failure is
-- logged and the loop continues. `none` means that the fuel is used up. Each call fails for the reason
-- `e` if it fails.
unfoldable pub next_header : ℕ → Failure → Socket → Wires → Option Heard
next_header zero e s w = none
next_header (suc fuel) e s w = elim (receive e hdr_size s w) [
  | none ↦ some silent
  | some (code, bs, s', w') ↦
      let rest = next_header fuel e s' w' in if is_neg code then rest else some (header bs s' w')
]

m_socket-close : (s : Socket) → (close s).m_socket ≡ none
unfolding close
m_socket-close s =
    elim s.m_socket as (λ h. h ≡ s.m_socket → (close_held h s).m_socket ≡ none) [
      | none ↦ λ e. sym e
      | some h ↦ λ e. refl
    ]
      refl

receive-none :
    (e : Failure) (n : ℕ) (s : Socket) (w : Wires)
    → s.m_socket ≡ none
    → receive e n s w ≡ some (negsuc 0, [], set_error (codes "recv") e s, w)
unfolding receive
receive-none e n s w h = ap (λ held. receive_on e n held s w) h

next_header-none :
    (fuel : ℕ) (e : Failure) (s : Socket) (w : Wires)
    → s.m_socket ≡ none
    → next_header fuel e s w ≡ none
unfolding next_header set_error
next_header-none zero e s w h = refl
next_header-none (suc fuel) e s w h =
    rw (next_header, receive-none e hdr_size s w h)
      (next_header-none fuel e (set_error (codes "recv") e s) w h)

-- Once the main dialog is destroyed, its thread never comes to a header again and never ends: the
-- socket is closed, each call of `Receive` fails, and no fuel is enough.
pub destroyed_spins :
    (fuel : ℕ) (e : Failure) (s : Socket) (w : Wires) → next_header fuel e (on_destroy s) w ≡ none
unfolding on_destroy close
destroyed_spins fuel e s w = next_header-none fuel e (close s) w (m_socket-close s)
