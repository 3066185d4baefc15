-- ===== src/TcpSocket/Setup.antt =====
-- The set-up of a block's socket and its identifier (StudentManagementServer/TcpSocket.cpp).
use school_information_manag.Prelude.{
  ℕ, ◌-◌, ◌^◌, ◌≡◌, refl, ap, map, ◌==◌, Bool, inl, inr, Bool-cases, if◌then◌else◌, List, [], ◌∷◌,
  ◌++◌, Bytes, ℤ, pos, negsuc, is_neg,
}
use school_information_manag.TcpSocket.{
  TcpPacket, TcpPcb, Datagram, would_block, broken, packet, input, cmd_psh, cmd_ack, alloc_pcb,
}

-- What `inet_addr` makes of a text, and a port.
pub record Address : Type 0 where
  pub ip : ℕ
  pub port : ℕ

-- The fields of a block that only the set-up writes.
pub record Endpoint : Type 0 where
  pub handle : ℤ
  pub local_addr : Address
  pub remote_addr : Address

-- What Windows answers: whether `WSAStartup`, `ioctlsocket` and `bind` succeed, and the result of
-- `socket`.
pub record Winsock : Type 0 where
  pub starts : Bool
  pub made : ℤ
  pub nonblocking : Bool
  pub binds : Bool
  pub inet_addr : Bytes → ℕ

-- `InitSocket`: the block keeps the result of `socket`, also a negative one.
unfoldable pub set_up : Winsock → Endpoint → ℤ × Endpoint
set_up w e =
    let e' = record e { handle = w.made } in
    if w.starts
    then if is_neg w.made
      then (negsuc 0, e')
      else if w.nonblocking
      then (pos 0, e')
      else (negsuc 0, e')
    else (negsuc 0, e)

unfoldable pub bind_local : Winsock → Bytes → ℕ → Endpoint → ℤ × Endpoint
bind_local w address port e =
    let e' = record e { local_addr = record { ip = w.inet_addr address; port = port } } in
    if w.binds then (pos 0, e') else (negsuc 0, e')

unfoldable pub bind_remote : Winsock → Bytes → ℕ → Endpoint → ℤ × Endpoint
bind_remote w address port e =
    (pos 0, record e { remote_addr = record { ip = w.inet_addr address; port = port } })

-- `ntdll.dll`: not found, without the function, or with it.
pub data Ntdll : Type 0 where
  no_library no_function : Ntdll
  crc32 : (Bytes → ℕ) → Ntdll

-- `RtlComputerCrc32`, whose -1 is an `unsigned int`.
unfoldable pub rtl_computer_crc32 : Ntdll → Bytes → ℕ
rtl_computer_crc32 no_library bs = 2 ^ 32 - 1
rtl_computer_crc32 no_function bs = 2 ^ 32 - 1
rtl_computer_crc32 (crc32 f) bs = f bs

-- `SetConv`, given the GUID that the system draws.
unfoldable pub set_conv : Ntdll → Bytes → ℕ
set_conv dll guid = rtl_computer_crc32 dll guid

-- The constructor of a block and `AllocPcb`; the addresses are not set.
unfoldable pub new_pcb : Ntdll → Bytes → Address → Address → TcpPcb × Endpoint
new_pcb dll guid local_addr remote_addr = (
  alloc_pcb (set_conv dll guid),
  record { handle = negsuc 0; local_addr = local_addr; remote_addr = remote_addr },
)

-- The same packet from a block with another identifier.
abbrev pub from : ℕ → Datagram → Datagram
from conv (packet n p) = packet n (record p { conv = conv })
from conv d = d

abbrev unnamed : TcpPacket → TcpPacket
unnamed p = record p { conv = 0 }

-- A block that forgets the identifiers in the packets it has received.
abbrev pub without_conv : TcpPcb → TcpPcb
without_conv pcb = record pcb { recv_buf = map unnamed pcb.recv_buf }

map_last :
    (ps : List TcpPacket) (p : TcpPacket) (conv : ℕ)
    → map unnamed (ps ++ record p { conv = conv } ∷ []) ≡ map unnamed (ps ++ p ∷ [])
map_last [] p conv = refl
map_last (q ∷ ps) p conv = ap (◌∷◌ (unnamed q)) (map_last ps p conv)

-- `Input` does not ask whose packet it is: a datagram with any other identifier in it has the same
-- result, confirms the same packets, and is itself received and confirmed just so.
pub input_from_anyone :
    (conv : ℕ) (d : Datagram) (pcb : TcpPcb)
    → ((input (from conv d) pcb).0 ≡ (input d pcb).0)
      × (without_conv (input (from conv d) pcb).1 ≡ without_conv (input d pcb).1)
unfolding input
input_from_anyone conv would_block pcb = (refl, refl)
input_from_anyone conv broken pcb = (refl, refl)
input_from_anyone conv (packet n p) pcb = elim (Bool-cases (p.n_cmd == cmd_psh)) [
  | inl e ↦ rw e (
    refl,
    λ i. record pcb {
      recv_buf = map_last pcb.recv_buf p conv i;
      ack_list = pcb.ack_list ++ p.n_seq ∷ [];
    },
  )
  | inr e ↦ rw e (elim (Bool-cases (p.n_cmd == cmd_ack)) [
    | inl f ↦ rw f (refl, refl)
    | inr f ↦ rw f (refl, refl)
  ])
]
