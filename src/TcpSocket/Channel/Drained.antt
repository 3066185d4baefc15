-- ===== src/TcpSocket/Channel/Drained.antt =====
-- Repeated calls of `Recv` (StudentManagementServer/TcpSocket.cpp) on a receiver that all numbers have
-- reached.
use school_information_manag.Prelude.{
  ℕ, zero, suc, ◌+◌, ◌≤◌, ◌<◌, ◌≡◌, refl, sym, ap, ◌∙◌, subst, inl, inr, Option, none, some, List,
  [], ◌∷◌, ◌++◌, append-nil, append_assoc, arith, ltb, ◌==◌, Bool-cases, length, length-append, All,
  Bytes, ℤ, pos,
}
use school_information_manag.TcpSocket.{
  TcpPacket, TcpPcb, in_order, take_in_order, peek_size, copy_message, recv_message, recv,
}
use school_information_manag.TcpSocket.Parts.{Part, parts_of, length-parts_of, Stream, message}
use school_information_manag.TcpSocket.Channel.{Link, receives, Reach, next, joined, messages_from}
use school_information_manag.TcpSocket.Channel.Reliable.{
  IsLink, joined-IsLink, Reach-IsLink, append-cancel, delivers_next,
}

in_order_up : (number : ℕ) (ps : List TcpPacket) → number ≤ (in_order number ps).2
unfolding in_order
in_order_up number [] = omega arith
in_order_up number (p ∷ ps) = elim (Bool-cases (p.n_seq == number)) [
  | inl e ↦ rw e (omega (arith, in_order_up (number + 1) ps))
  | inr e ↦ rw e (in_order_up number ps)
]

take_in_order_up : (pcb : TcpPcb) → pcb.n_recv_seq ≤ (take_in_order pcb).n_recv_seq
unfolding take_in_order
take_in_order_up pcb = in_order_up pcb.n_recv_seq pcb.recv_buf

recv_message_up :
    (len : ℕ) (size : Option ℕ) (pcb : TcpPcb)
    → pcb.n_recv_seq ≤ (recv_message len size pcb).pcb.n_recv_seq
recv_message_up len none pcb = take_in_order_up pcb
recv_message_up len (some zero) pcb = take_in_order_up pcb
recv_message_up len (some (suc n)) pcb = elim (Bool-cases (ltb len (suc n))) [
  | inl e ↦ rw e (omega arith)
  | inr e ↦
      rw e
        (take_in_order_up (record pcb { recv_queue = (copy_message (suc n) 0 pcb.recv_queue).2 }))
]

recv_up : (len : ℕ) (pcb : TcpPcb) → pcb.n_recv_seq ≤ (recv (pos len) pcb).pcb.n_recv_seq
unfolding recv
recv_up len pcb = recv_message_up len (peek_size 0 pcb.recv_queue) pcb

-- The receiver never expects more than the sender has numbered.
expects-le : (l : Link) → IsLink l → l.receiver.n_recv_seq ≤ l.sender.n_seq
expects-le l h =
    let r = h.receiver in
    omega (
      arith,
      h.sender.numbered,
      r.expects,
      ap length r.whole,
      length-append r.front (parts_of l.receiver.recv_queue ++ r.rest),
      length-append (parts_of l.receiver.recv_queue) r.rest,
      length-parts_of l.receiver.recv_queue,
    )

Stream-pos :
    {seq : ℕ} {msg : Bytes} {msgs : List Bytes} {ps : List Part}
    → Stream seq (msg ∷ msgs) ps
    → 0 < length msg
Stream-pos (message h m e s) = h

-- The link after a call of `Recv`, and after this many.
abbrev pub received : ℕ → Link → Link
received len l = record l {
  receiver = (recv (pos len) l.receiver).pcb;
  delivered =
      l.delivered
      ++ messages_from (recv (pos len) l.receiver).code (recv (pos len) l.receiver).copied;
}

abbrev pub received_times : ℕ → ℕ → Link → Link
received_times zero len l = l
received_times (suc n) len l = received_times n len (received len l)

messages_from-Delivered :
    (msg copied : Bytes) (code : ℤ)
    → 0 < length msg
    → code ≡ pos (length msg)
    → copied ≡ msg
    → messages_from code copied ≡ msg ∷ []
messages_from-Delivered [] copied code h e f = absurd (omega arith)
messages_from-Delivered (b ∷ bs) copied code h e f = rw e (rw f refl)

-- Every message gets through. When the receiver expects the very number that the sender will give
-- next, so every number has come, then as many calls of `Recv` as messages are left, into buffers that
-- are large enough for each of them, deliver all that was asked for.
pub delivers_everything :
    (conv conv' : ℕ) (l : Link) (len : ℕ) (left : List Bytes)
    → Reach (joined conv conv') l
    → l.receiver.n_recv_seq ≡ l.sender.n_seq
    → l.asked ≡ l.delivered ++ left
    → All (λ msg. length msg ≤ len) left
    → (received_times (length left) len l).delivered ≡ l.asked
delivers_everything conv conv' l len [] r n e fits = sym (e ∙ append-nil l.delivered)
delivers_everything conv conv' l len (msg ∷ left) r n e fits =
    let h = Reach-IsLink (joined-IsLink conv conv') r in
    let rest : h.left ≡ msg ∷ left =
      append-cancel l.delivered h.left (msg ∷ left) (sym h.conserved ∙ e) in
    let some_byte : 0 < length msg = Stream-pos (
      subst
        (λ m.
          Stream (length h.receiver.front) m (parts_of l.receiver.recv_queue ++ h.receiver.rest))
        rest h.receiver.stream) in
    let now = delivers_next conv conv' l len msg left r n e fits.0 in
    let one : messages_from (recv (pos len) l.receiver).code (recv (pos len) l.receiver).copied
        ≡ msg ∷ [] =
      messages_from-Delivered msg _ _ some_byte now.0 now.1 in
    let r' : Reach (joined conv conv') (received len l) = next r (receives l (pos len)) in
    let n' : (received len l).receiver.n_recv_seq ≡ l.sender.n_seq = omega (
      arith,
      n,
      recv_up len l.receiver,
      expects-le (received len l) (Reach-IsLink (joined-IsLink conv conv') r'),
    ) in
    delivers_everything conv conv' (received len l) len left r' n'
      (e
        ∙ sym (append_assoc l.delivered (msg ∷ []) left)
        ∙ ap (λ m. l.delivered ++ m ++ left) (sym one))
      fits.1
