-- ===== src/TcpSocket/Gaps.antt =====
-- The numbers that acknowledgements take (StudentManagementServer/TcpSocket.cpp), and a receiver
-- that waits for a number.
use school_information_manag.Prelude.{
  ℕ, zero, suc, ◌+◌, ◌≤◌, ◌≡◌, refl, ap, ◌∙◌, subst, ◌≢◌, inl, inr, Option, none, some, List, [],
  ◌∷◌, ◌++◌, arith, ltb, ◌==◌, ==_iff, Bool-cases, length, All, All-append, Bytes, ℤ, pos, negsuc,
}
use school_information_manag.TcpSocket.{
  OldMemory, TcpPacket, TcpPcb, Datagram, would_block, broken, packet, send_ack, send_acks, send,
  copy_message, in_order, take_in_order, recv_message, peek_size, recv, input, cmd_psh, cmd_ack,
}
use school_information_manag.TcpSocket.Sending.{Segments, finish, segment_of, send-Segments}
use school_information_manag.TcpSocket.Order.{
  SameReceiver, send-SameReceiver, update-SameReceiver, recv_queue-input, Event, inputs, recvs,
  sends, updates, step, run,
}

-- The block waits for the number `n`, and does not hold it.
abbrev pub Waits : ℕ → TcpPcb → Type 0
Waits n pcb = (pcb.n_recv_seq ≡ n) × All (λ p. p.n_seq ≢ n) pcb.recv_buf

-- The event brings no data under the number `n`.
abbrev pub Misses : ℕ → Event → Type 0
Misses n (inputs (packet size p)) = (p.n_cmd ≡ cmd_psh) → p.n_seq ≢ n
Misses n (inputs would_block) = Unit
Misses n (inputs broken) = Unit
Misses n (recvs len) = Unit
Misses n (sends old buf len) = Unit
Misses n (updates old now) = Unit

in_order_none :
    (n : ℕ) (ps : List TcpPacket) → All (λ p. p.n_seq ≢ n) ps → in_order n ps ≡ (ps, [], n)
unfolding in_order
in_order_none n [] h = refl
in_order_none n (p ∷ ps) h = ground (arith, in_order_none n ps h.1, h.0)

take_in_order-Waits : (n : ℕ) (pcb : TcpPcb) → Waits n pcb → Waits n (take_in_order pcb)
unfolding take_in_order
take_in_order-Waits n pcb h = rw (h.0) (rw (in_order_none n pcb.recv_buf h.1) (refl, h.1))

recv_message-Waits :
    (n len : ℕ) (size : Option ℕ) (pcb : TcpPcb)
    → Waits n pcb
    → Waits n (recv_message len size pcb).pcb
recv_message-Waits n len none pcb h = take_in_order-Waits n pcb h
recv_message-Waits n len (some zero) pcb h = take_in_order-Waits n pcb h
recv_message-Waits n len (some (suc k)) pcb h = elim (Bool-cases (ltb len (suc k))) [
  | inl e ↦ rw e h
  | inr e ↦ rw e (
      take_in_order-Waits n (record pcb { recv_queue = (copy_message (suc k) 0 pcb.recv_queue).2 })
        h)
]

recv-Waits : (n : ℕ) (len : ℤ) (pcb : TcpPcb) → Waits n pcb → Waits n (recv len pcb).pcb
unfolding recv
recv-Waits n (negsuc k) pcb h = h
recv-Waits n (pos len) pcb h = recv_message-Waits n len (peek_size 0 pcb.recv_queue) pcb h

SameReceiver-Waits : (n : ℕ) {a b : TcpPcb} → SameReceiver a b → Waits n a → Waits n b
SameReceiver-Waits n s h = rw (s.next, s.buf) h

recv_buf-input :
    (n : ℕ) (size : ℕ) (p : TcpPacket) (pcb : TcpPcb)
    → Misses n (inputs (packet size p))
    → All (λ q. q.n_seq ≢ n) pcb.recv_buf
    → All (λ q. q.n_seq ≢ n) (input (packet size p) pcb).1.recv_buf
unfolding input
recv_buf-input n size p pcb h k = elim (Bool-cases (p.n_cmd == cmd_psh)) [
  | inl e ↦
      rw e (
        All-append (λ q. q.n_seq ≢ n) pcb.recv_buf (p ∷ []) k
          (h ((==_iff p.n_cmd cmd_psh).0 e), tt))
  | inr e ↦ rw e (elim (Bool-cases (p.n_cmd == cmd_ack)) [ inl f ↦ rw f k | inr f ↦ rw f k ])
]

input-Waits :
    (n : ℕ) (d : Datagram) (pcb : TcpPcb)
    → Misses n (inputs d)
    → Waits n pcb
    → Waits n (input d pcb).1
input-Waits n would_block pcb h k = unfold input in k
input-Waits n broken pcb h k = unfold input in k
input-Waits n (packet size p) pcb h k =
    ((recv_queue-input (packet size p) pcb).1 ∙ k.0, recv_buf-input n size p pcb h k.1)

step-Waits : (n : ℕ) (pcb : TcpPcb) (e : Event) → Misses n e → Waits n pcb → Waits n (step pcb e)
unfolding step
step-Waits n pcb (inputs d) m h = input-Waits n d pcb m h
step-Waits n pcb (recvs len) m h = recv-Waits n len pcb h
step-Waits n pcb (sends old buf len) m h =
    SameReceiver-Waits n (send-SameReceiver old buf len pcb) h
step-Waits n pcb (updates old now) m h = SameReceiver-Waits n (update-SameReceiver old now pcb) h

-- A block that waits for the number `n` and does not hold it goes on waiting for `n`, whatever it
-- calls and whatever else arrives, as long as no data with the number `n` comes.
pub run-Waits :
    (n : ℕ) (pcb : TcpPcb) (es : List Event)
    → All (Misses n) es
    → Waits n pcb
    → Waits n (run pcb es)
unfolding run
run-Waits n pcb [] m h = h
run-Waits n pcb (e ∷ es) m h = run-Waits n (step pcb e) es m.1 (step-Waits n pcb e m.0 h)

n_seq-send_acks :
    (old : OldMemory) (pcb : TcpPcb) (seqs : List ℕ)
    → (send_acks old pcb seqs).n_seq ≡ pcb.n_seq + length seqs
unfolding send_acks send_ack
n_seq-send_acks old pcb [] = omega arith
n_seq-send_acks old pcb (seq ∷ seqs) = n_seq-send_acks old (send_ack old pcb seq) seqs ∙ omega arith

Segments-above :
    {conv seq : ℕ} {msg : Bytes} {ps : List TcpPacket} (n : ℕ)
    → n ≤ seq
    → Segments conv seq msg ps
    → All (λ p. n ≤ p.n_seq) ps
Segments-above n h finish = tt
Segments-above n h (segment_of p e1 e2 e3 len pos_n max seg cnt text more) =
    (omega (arith, e3), Segments-above n (omega arith) more)

-- Every acknowledgement takes a sequence number, which no data packet will have: after `k` of them
-- the segments of the next message begin `k` numbers later than the last number that was sent.
pub acks_take_numbers :
    (old : OldMemory) (pcb : TcpPcb) (seqs : List ℕ) (buf : Bytes)
    → (packets : List TcpPacket) × ((send old buf
          (pos (length buf))
          (send_acks old pcb seqs)).1.send_queue
        ≡ (send_acks old pcb seqs).send_queue ++ packets)
      × Segments (send_acks old pcb seqs).conv (pcb.n_seq + length seqs) buf packets
      × All (λ p. pcb.n_seq + length seqs ≤ p.n_seq) packets
acks_take_numbers old pcb seqs buf =
    let (packets, result, segments) = send-Segments old buf (send_acks old pcb seqs) in
    let moved : Segments (send_acks old pcb seqs).conv (pcb.n_seq + length seqs) buf packets =
      subst (λ n. Segments (send_acks old pcb seqs).conv n buf packets)
        (n_seq-send_acks old pcb seqs) segments in
    (
      packets,
      ap (λ (r : ℤ × TcpPcb). r.1.send_queue) result,
      moved,
      Segments-above _ (omega arith) moved,
    )
