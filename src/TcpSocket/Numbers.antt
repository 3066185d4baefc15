-- ===== src/TcpSocket/Numbers.antt =====
-- How far the numbers of a block go (StudentManagementServer/TcpSocket.cpp), which are `int` in the source.
use school_information_manag.Prelude.{
  ℕ, zero, suc, ◌+◌, ◌≤◌, ◌≡◌, refl, ap, Option, none, some, List, [], ◌∷◌, arith, ltb, ◌==◌,
  Bool-cases, inl, inr, length, length-append, Bytes, ℤ, pos, negsuc,
}
use school_information_manag.TcpSocket.{
  OldMemory, TcpPacket, TcpPcb, Datagram, would_block, broken, packet, alloc_pcb, segment_count,
  send_loop, send, in_order, take_in_order, peek_size, copy_message, recv_message, recv, input,
  cmd_psh, cmd_ack, move_queue, update,
}
use school_information_manag.TcpSocket.Acks.{send_acks_lem}
use school_information_manag.TcpSocket.Order.{
  Event, inputs, recvs, sends, updates, step, run, SameReceiver, send-SameReceiver,
  update-SameReceiver,
}

-- How many segments a history sends, and how many datagrams it takes in.
abbrev pub segments_of : Event → ℕ
segments_of (sends old buf (pos len)) = segment_count len
segments_of (sends old buf (negsuc n)) = 0
segments_of (inputs d) = 0
segments_of (recvs len) = 0
segments_of (updates old now) = 0

abbrev pub datagrams_of : Event → ℕ
datagrams_of (inputs d) = 1
datagrams_of (recvs len) = 0
datagrams_of (sends old buf len) = 0
datagrams_of (updates old now) = 0

abbrev pub total : (Event → ℕ) → List Event → ℕ
total f [] = 0
total f (e ∷ es) = f e + total f es

-- The numbers used and the numbers still to be confirmed; the number expected and what is held back.
abbrev given : TcpPcb → ℕ
given pcb = pcb.n_seq + length pcb.ack_list

abbrev taken : TcpPcb → ℕ
taken pcb = pcb.n_recv_seq + length pcb.recv_buf

n_seq-send_loop :
    (old : OldMemory) (buf : Bytes) (len left sent : ℕ) (pcb : TcpPcb)
    → ((send_loop old buf len left sent pcb).1.n_seq ≡ pcb.n_seq + left)
      × ((send_loop old buf len left sent pcb).1.ack_list ≡ pcb.ack_list)
unfolding send_loop
n_seq-send_loop old buf len zero sent pcb = (omega arith, refl)
n_seq-send_loop old buf len (suc left) sent pcb =
    let rest = n_seq-send_loop old buf len left _ _ in (omega (arith, rest.0), rest.1)

given-send :
    (old : OldMemory) (buf : Bytes) (len : ℤ) (pcb : TcpPcb)
    → given (send old buf len pcb).1 ≡ given pcb + segments_of (sends old buf len)
unfolding send
given-send old buf (negsuc n) pcb = omega arith
given-send old buf (pos len) pcb =
    let s = n_seq-send_loop old buf len (segment_count len) 0 pcb in
    omega (arith, s.0, ap length s.1)

given-update : (old : OldMemory) (now : ℕ) (pcb : TcpPcb) → given (update old now pcb).1 ≡ given pcb
unfolding update move_queue
given-update old now pcb = elim (Bool-cases (ltb now 30)) [
  | inl e ↦ rw e refl
  | inr e ↦ rw e (rw (send_acks_lem old pcb pcb.ack_list) (omega arith))
]

taken-in_order :
    (next : ℕ) (ps : List TcpPacket)
    → (in_order next ps).2 + length (in_order next ps).0 ≡ next + length ps
unfolding in_order
taken-in_order next [] = refl
taken-in_order next (p ∷ ps) = elim (Bool-cases (p.n_seq == next)) [
  | inl e ↦ rw e (omega (arith, taken-in_order (next + 1) ps))
  | inr e ↦ rw e (omega (arith, taken-in_order next ps))
]

-- What `Recv` leaves as it is.
record SameNumbers (a b : TcpPcb) : Type 0 where
  same_given : given b ≡ given a
  same_taken : taken b ≡ taken a

take_in_order-SameNumbers : (pcb : TcpPcb) → SameNumbers pcb (take_in_order pcb)
unfolding take_in_order
take_in_order-SameNumbers pcb = record {
  same_given = refl;
  same_taken = taken-in_order pcb.n_recv_seq pcb.recv_buf;
}

recv_message-SameNumbers :
    (len : ℕ) (size : Option ℕ) (pcb : TcpPcb) → SameNumbers pcb (recv_message len size pcb).pcb
recv_message-SameNumbers len none pcb = take_in_order-SameNumbers pcb
recv_message-SameNumbers len (some zero) pcb = take_in_order-SameNumbers pcb
recv_message-SameNumbers len (some (suc n)) pcb = elim (Bool-cases (ltb len (suc n))) [
  | inl e ↦ rw e (record { same_given = refl; same_taken = refl })
  | inr e ↦
      let s =
        take_in_order-SameNumbers
          (record pcb { recv_queue = (copy_message (suc n) 0 pcb.recv_queue).2 }) in
      rw e (record { same_given = s.same_given; same_taken = s.same_taken })
]

recv-SameNumbers : (len : ℤ) (pcb : TcpPcb) → SameNumbers pcb (recv len pcb).pcb
unfolding recv
recv-SameNumbers (negsuc n) pcb = record { same_given = refl; same_taken = refl }
recv-SameNumbers (pos len) pcb = recv_message-SameNumbers len (peek_size 0 pcb.recv_queue) pcb

input_numbers :
    (d : Datagram) (pcb : TcpPcb)
    → (given (input d pcb).1 ≤ given pcb + 1) × (taken (input d pcb).1 ≤ taken pcb + 1)
unfolding input
input_numbers would_block pcb = (omega arith, omega arith)
input_numbers broken pcb = (omega arith, omega arith)
input_numbers (packet n p) pcb = elim (Bool-cases (p.n_cmd == cmd_psh)) [
  | inl e ↦ rw e (
    omega (arith, length-append pcb.ack_list (p.n_seq ∷ [])),
    omega (arith, length-append pcb.recv_buf (p ∷ [])),
  )
  | inr e ↦ rw e (elim (Bool-cases (p.n_cmd == cmd_ack)) [
    | inl f ↦ rw f (omega arith, omega arith)
    | inr f ↦ rw f (omega arith, omega arith)
  ])
]

taken-SameReceiver : {a b : TcpPcb} → SameReceiver a b → taken b ≡ taken a
taken-SameReceiver s = omega (arith, s.next, ap length s.buf)

step_numbers :
    (pcb : TcpPcb) (e : Event)
    → (given (step pcb e) ≤ given pcb + segments_of e + datagrams_of e)
      × (taken (step pcb e) ≤ taken pcb + datagrams_of e)
unfolding step
step_numbers pcb (inputs d) =
    let s = input_numbers d pcb in (omega (arith, s.0), omega (arith, s.1))
step_numbers pcb (recvs len) =
    let s = recv-SameNumbers len pcb in (omega (arith, s.same_given), omega (arith, s.same_taken))
step_numbers pcb (sends old buf len) = (
  omega (arith, given-send old buf len pcb),
  omega (arith, taken-SameReceiver (send-SameReceiver old buf len pcb)),
)
step_numbers pcb (updates old now) = (
  omega (arith, given-update old now pcb),
  omega (arith, taken-SameReceiver (update-SameReceiver old now pcb)),
)

run_numbers :
    (pcb : TcpPcb) (es : List Event)
    → (given (run pcb es) ≤ given pcb + total segments_of es + total datagrams_of es)
      × (taken (run pcb es) ≤ taken pcb + total datagrams_of es)
unfolding run
run_numbers pcb [] = (omega arith, omega arith)
run_numbers pcb (e ∷ es) =
    let now = step_numbers pcb e in
    let later = run_numbers (step pcb e) es in
    (omega (arith, now.0, later.0), omega (arith, now.1, later.1))

-- After every history of calls and datagrams, the next number of a new block is at most the number of
-- segments that were sent and of datagrams that came, and the number it expects at most that of the
-- datagrams: the `int` fields of the source hold them as long as these are below 2 ^ 31.
pub run_bounded :
    (conv : ℕ) (es : List Event)
    → ((run (alloc_pcb conv) es).n_seq ≤ total segments_of es + total datagrams_of es)
      × ((run (alloc_pcb conv) es).n_recv_seq ≤ total datagrams_of es)
unfolding alloc_pcb
run_bounded conv es =
    let r = run_numbers (alloc_pcb conv) es in (omega (arith, r.0), omega (arith, r.1))
