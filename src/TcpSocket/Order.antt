-- ===== src/TcpSocket/Order.antt =====
-- The receive queue under every history of calls and datagrams.
use school_information_manag.Prelude.{
  ℕ, zero, suc, ◌+◌, ◌≡◌, refl, sym, subst, inl, inr, Option, none, some, List, [], ◌∷◌, ◌++◌,
  arith, ltb, ◌==◌, ==_iff, Bool-cases, Bytes, ℤ, pos, negsuc,
}
use school_information_manag.TcpSocket.{
  OldMemory, TcpPacket, TcpPcb, Datagram, would_block, broken, packet, alloc_pcb, send_ack,
  send_acks, send_loop, send, segment_count, copy_message, in_order, take_in_order, recv_message,
  peek_size, recv, input, update, move_queue,
}

-- The packets have the sequence numbers from `first` up to, and without, `next`.
abbrev pub Numbered : ℕ → List TcpPacket → ℕ → Type 0
Numbered first [] next = first ≡ next
Numbered first (p ∷ ps) next = (p.n_seq ≡ first) × Numbered (first + 1) ps next

Numbered-append :
    (first middle next : ℕ) (ps qs : List TcpPacket)
    → Numbered first ps middle
    → Numbered middle qs next
    → Numbered first (ps ++ qs) next
Numbered-append first middle next [] qs h k = subst (λ a. Numbered a qs next) (sym h) k
Numbered-append first middle next (p ∷ ps) qs h k =
    (h.0, Numbered-append (first + 1) middle next ps qs h.1 k)

-- What one pass over the buffer moves continues the numbering.
in_order-Numbered :
    (next : ℕ) (ps : List TcpPacket) → Numbered next (in_order next ps).1 (in_order next ps).2
unfolding in_order
in_order-Numbered next [] = refl
in_order-Numbered next (p ∷ ps) = elim (Bool-cases (p.n_seq == next)) [
  | inl e ↦ rw e ((==_iff p.n_seq next).0 e, in_order-Numbered (next + 1) ps)
  | inr e ↦ rw e (in_order-Numbered next ps)
]

-- The queue holds an unbroken run of sequence numbers that ends before the next expected one.
abbrev pub InOrder : TcpPcb → Type 0
InOrder pcb = (first : ℕ) × Numbered first pcb.recv_queue pcb.n_recv_seq

take_in_order-InOrder : (pcb : TcpPcb) → InOrder pcb → InOrder (take_in_order pcb)
unfolding take_in_order
take_in_order-InOrder pcb (first, h) = (
  first,
  Numbered-append first pcb.n_recv_seq _ pcb.recv_queue _ h
      (in_order-Numbered pcb.n_recv_seq pcb.recv_buf),
)

-- A message is taken from the front of the queue.
copy_message-Numbered :
    (size copied first next : ℕ) (ps : List TcpPacket)
    → Numbered first ps next
    → (first' : ℕ) × Numbered first' (copy_message size copied ps).2 next
unfolding copy_message
copy_message-Numbered size copied first next [] h = (first, h)
copy_message-Numbered size copied first next (p ∷ ps) h = elim (Bool-cases (ltb copied size)) [
  | inl e ↦ rw e (copy_message-Numbered size (copied + p.n_len) (first + 1) next ps h.1)
  | inr e ↦ rw e (first, h)
]

recv_message-InOrder :
    (len : ℕ) (size : Option ℕ) (pcb : TcpPcb)
    → InOrder pcb
    → InOrder (recv_message len size pcb).pcb
recv_message-InOrder len none pcb h = take_in_order-InOrder pcb h
recv_message-InOrder len (some zero) pcb h = take_in_order-InOrder pcb h
recv_message-InOrder len (some (suc n)) pcb h = elim (Bool-cases (ltb len (suc n))) [
  | inl e ↦ rw e h
  | inr e ↦ rw e (
      take_in_order-InOrder (record pcb { recv_queue = (copy_message (suc n) 0 pcb.recv_queue).2 })
        (copy_message-Numbered (suc n) 0 h.0 pcb.n_recv_seq pcb.recv_queue h.1))
]

recv-InOrder : (len : ℤ) (pcb : TcpPcb) → InOrder pcb → InOrder (recv len pcb).pcb
unfolding recv
recv-InOrder (negsuc n) pcb h = h
recv-InOrder (pos len) pcb h = recv_message-InOrder len (peek_size 0 pcb.recv_queue) pcb h

-- The two sides of a block are separate: sending does not touch what is received.
pub record SameReceiver (a b : TcpPcb) : Type 0 where
  pub queue : b.recv_queue ≡ a.recv_queue
  pub buf : b.recv_buf ≡ a.recv_buf
  pub next : b.n_recv_seq ≡ a.n_recv_seq

SameReceiver-InOrder : {a b : TcpPcb} → SameReceiver a b → InOrder a → InOrder b
SameReceiver-InOrder s h = (h.0, rw (s.queue, s.next) h.1)

send_loop-SameReceiver :
    (old : OldMemory) (buf : Bytes) (len left sent : ℕ) (pcb : TcpPcb)
    → SameReceiver pcb (send_loop old buf len left sent pcb).1
unfolding send_loop
send_loop-SameReceiver old buf len zero sent pcb = record { queue = refl; buf = refl; next = refl }
send_loop-SameReceiver old buf len (suc left) sent pcb =
    let s = send_loop-SameReceiver old buf len left _ _ in
    record { queue = s.queue; buf = s.buf; next = s.next }

pub send-SameReceiver :
    (old : OldMemory) (buf : Bytes) (len : ℤ) (pcb : TcpPcb)
    → SameReceiver pcb (send old buf len pcb).1
unfolding send
send-SameReceiver old buf (negsuc n) pcb = record { queue = refl; buf = refl; next = refl }
send-SameReceiver old buf (pos len) pcb =
    send_loop-SameReceiver old buf len (segment_count len) 0 pcb

send_acks-SameReceiver :
    (old : OldMemory) (pcb : TcpPcb) (seqs : List ℕ) → SameReceiver pcb (send_acks old pcb seqs)
unfolding send_acks send_ack
send_acks-SameReceiver old pcb [] = record { queue = refl; buf = refl; next = refl }
send_acks-SameReceiver old pcb (seq ∷ seqs) =
    let s = send_acks-SameReceiver old (send_ack old pcb seq) seqs in
    record { queue = s.queue; buf = s.buf; next = s.next }

pub update-SameReceiver :
    (old : OldMemory) (now : ℕ) (pcb : TcpPcb) → SameReceiver pcb (update old now pcb).1
unfolding update move_queue
update-SameReceiver old now pcb =
    let s = send_acks-SameReceiver old pcb pcb.ack_list in
    record {
      queue = ground (arith, s.queue);
      buf = ground (arith, s.buf);
      next = ground (arith, s.next);
    }

pub recv_queue-input :
    (d : Datagram) (pcb : TcpPcb)
    → ((input d pcb).1.recv_queue ≡ pcb.recv_queue) × ((input d pcb).1.n_recv_seq ≡ pcb.n_recv_seq)
unfolding input
recv_queue-input would_block pcb = (refl, refl)
recv_queue-input broken pcb = (refl, refl)
recv_queue-input (packet n p) pcb = (ground arith, ground arith)

input-InOrder : (d : Datagram) (pcb : TcpPcb) → InOrder pcb → InOrder (input d pcb).1
input-InOrder d pcb h = (h.0, rw ((recv_queue-input d pcb).0, (recv_queue-input d pcb).1) h.1)

-- What happens to a block: a datagram or a call, with the old memory of the packets that it makes.
pub data Event : Type 0 where
  inputs : Datagram → Event
  recvs : ℤ → Event
  sends : OldMemory → Bytes → ℤ → Event
  updates : OldMemory → ℕ → Event

unfoldable pub step : TcpPcb → Event → TcpPcb
step pcb (inputs d) = (input d pcb).1
step pcb (recvs len) = (recv len pcb).pcb
step pcb (sends old buf len) = (send old buf len pcb).1
step pcb (updates old now) = (update old now pcb).1

unfoldable pub run : TcpPcb → List Event → TcpPcb
run pcb [] = pcb
run pcb (e ∷ es) = run (step pcb e) es

step-InOrder : (pcb : TcpPcb) (e : Event) → InOrder pcb → InOrder (step pcb e)
unfolding step
step-InOrder pcb (inputs d) h = input-InOrder d pcb h
step-InOrder pcb (recvs len) h = recv-InOrder len pcb h
step-InOrder pcb (sends old buf len) h = SameReceiver-InOrder (send-SameReceiver old buf len pcb) h
step-InOrder pcb (updates old now) h = SameReceiver-InOrder (update-SameReceiver old now pcb) h

run-InOrder : (pcb : TcpPcb) (es : List Event) → InOrder pcb → InOrder (run pcb es)
unfolding run
run-InOrder pcb [] h = h
run-InOrder pcb (e ∷ es) h = run-InOrder (step pcb e) es (step-InOrder pcb e h)

-- After every history of calls and datagrams, in any order, with losses, repetitions and foreign
-- packets, the receive queue of a block holds an unbroken ascending run of sequence numbers that ends
-- just before the next expected number: nothing in it is missing, doubled or out of order.
pub run-alloc_pcb-InOrder : (conv : ℕ) (es : List Event) → InOrder (run (alloc_pcb conv) es)
unfolding alloc_pcb
run-alloc_pcb-InOrder conv es = run-InOrder (alloc_pcb conv) es (0, refl)
