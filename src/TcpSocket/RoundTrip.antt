-- ===== src/TcpSocket/RoundTrip.antt =====
-- A message sent by one block and received by another over a network that keeps order.
use school_information_manag.Prelude.{
  ℕ, suc, ◌+◌, ◌≤◌, ◌<◌, ◌≡◌, refl, sym, ap, ◌∙◌, List, [], ◌∷◌, ◌++◌, map, append-nil,
  append_assoc, arith, ==_iff, le→ltb, length, subst, Bytes, pos,
}
use school_information_manag.TcpSocket.{
  OldMemory, TcpPacket, TcpPcb, packet, send, send_acks, in_order, take_in_order, peek_size, Recvd,
  recv, input, cmd_psh, head_size, flush, flush_one, move_queue, update,
}
use school_information_manag.TcpSocket.Sending.{Segments, finish, segment_of, send-Segments}
use school_information_manag.TcpSocket.Receiving.{recv-Segments}
use school_information_manag.TcpSocket.Order.{Event, inputs, step, run}

-- The datagrams of these packets.
abbrev pub arrivals : List TcpPacket → List Event
arrivals = map (λ p. inputs (packet (p.n_len + head_size) p))

-- The call returned the length of the message and copied its bytes.
abbrev pub Delivered : Bytes → Recvd → Type 0
Delivered msg r = (r.code ≡ pos (length msg)) × (r.copied ≡ msg)

-- The block after these packets came.
abbrev pub arrived : List TcpPacket → TcpPcb → TcpPcb
arrived ps pcb = record pcb {
  recv_buf = pcb.recv_buf ++ ps;
  ack_list = pcb.ack_list ++ map (λ p. p.n_seq) ps;
}

step_push :
    (p : TcpPacket) (pcb : TcpPcb)
    → p.n_cmd ≡ cmd_psh
    → step pcb (inputs (packet (p.n_len + head_size) p)) ≡ arrived (p ∷ []) pcb
unfolding step input
step_push p pcb e = rw e refl

run-arrivals :
    {conv seq : ℕ} {msg : Bytes} {ps : List TcpPacket} (pcb : TcpPcb)
    → Segments conv seq msg ps
    → run pcb (arrivals ps) ≡ arrived ps pcb
unfolding run
run-arrivals pcb finish = λ i. record pcb {
  recv_buf = sym (append-nil pcb.recv_buf) i;
  ack_list = sym (append-nil pcb.ack_list) i;
}
run-arrivals pcb (segment_of {ps = qs} p e1 e2 e3 len pos_n max seg cnt text more) =
    ap (λ c. run c (arrivals qs)) (step_push p pcb e2)
    ∙ run-arrivals (arrived (p ∷ []) pcb) more
    ∙ λ i. record pcb {
      recv_buf = append_assoc pcb.recv_buf (p ∷ []) qs i;
      ack_list = append_assoc pcb.ack_list (p.n_seq ∷ []) (map (λ q. q.n_seq) qs) i;
    }

in_order-cons :
    (next : ℕ) (p : TcpPacket) (ps moved : List TcpPacket) (next' : ℕ)
    → p.n_seq ≡ next
    → in_order (next + 1) ps ≡ ([], moved, next')
    → in_order next (p ∷ ps) ≡ ([], p ∷ moved, next')
unfolding in_order
in_order-cons next p ps moved next' e f = rw e (rw ((==_iff next next).1 refl) (rw f refl))

in_order-Segments :
    {conv : ℕ} (seq : ℕ) {msg : Bytes} {ps : List TcpPacket}
    → Segments conv seq msg ps
    → in_order seq ps ≡ ([], ps, seq + length ps)
unfolding in_order
in_order-Segments seq finish = λ i. ([], [], ap (λ n. n) {x = seq} {y = seq + 0} (omega arith) i)
in_order-Segments seq (segment_of {ps = qs} p e1 e2 e3 len pos_n max seg cnt text more) =
    in_order-cons seq p qs qs (seq + suc (length qs)) e3
      (in_order-Segments (seq + 1) more ∙ ap (λ (n : ℕ). ([], qs, n)) (omega arith))

-- A pass over a buffer that holds just the next packets in order moves them all.
take_in_order_all :
    (ps : List TcpPacket) (pcb : TcpPcb) (next : ℕ)
    → pcb.recv_queue ≡ []
    → pcb.recv_buf ≡ ps
    → in_order pcb.n_recv_seq ps ≡ ([], ps, next)
    → take_in_order pcb ≡ record pcb { recv_queue = ps; recv_buf = []; n_recv_seq = next }
unfolding take_in_order
take_in_order_all ps pcb next q b e = rw q (rw b (rw e refl))

recv_empty :
    (len : ℕ) (pcb : TcpPcb) → pcb.recv_queue ≡ [] → (recv (pos len) pcb).pcb ≡ take_in_order pcb
unfolding recv peek_size
recv_empty len pcb q = rw q refl

-- Two calls of `Recv` on an empty queue: the first only puts the buffer in order.
recv_twice :
    {conv : ℕ} {msg : Bytes} {ps : List TcpPacket} (len : ℕ) (pcb : TcpPcb)
    → Segments conv pcb.n_recv_seq msg ps
    → pcb.recv_queue ≡ []
    → pcb.recv_buf ≡ ps
    → 0 < length msg
    → length msg ≤ len
    → Delivered msg (recv (pos len) (recv (pos len) pcb).pcb)
recv_twice {conv} {msg} {ps} len pcb s q b h k =
    let moved : (recv (pos len) pcb).pcb
        ≡ record pcb { recv_queue = ps; recv_buf = []; n_recv_seq = pcb.n_recv_seq + length ps } =
      recv_empty len pcb q
      ∙ take_in_order_all ps pcb (pcb.n_recv_seq + length ps) q b
          (in_order-Segments pcb.n_recv_seq s) in
    let all : recv (pos len) (recv (pos len) pcb).pcb ≡ record {
      code = pos (length msg);
      copied = msg;
      pcb =
          take_in_order (record pcb {
            recv_queue = [];
            recv_buf = [];
            n_recv_seq = pcb.n_recv_seq + length ps;
          });
    } =
      ap (recv (pos len)) moved
      ∙ recv-Segments {conv = conv} [] pcb.n_recv_seq msg ps len
          (record pcb { recv_queue = ps; recv_buf = []; n_recv_seq = pcb.n_recv_seq + length ps }) s
          (sym (append-nil ps)) h k in
    (ap (λ (r : Recvd). r.code) all, ap (λ (r : Recvd). r.copied) all)

-- A packet that was never sent goes out at once.
pub flush-Segments :
    {conv seq : ℕ} {msg : Bytes} {ps : List TcpPacket} (now rto : ℕ)
    → Segments conv seq msg ps
    → (flush now rto ps).0 ≡ ps
unfolding flush flush_one
flush-Segments now rto finish = refl
flush-Segments now rto (segment_of {ps = qs} p e1 e2 e3 len pos_n max seg cnt text more) =
    ground (arith, cnt, flush-Segments now rto more)

update_fresh :
    (old : OldMemory) (now : ℕ) (pcb : TcpPcb) (ps : List TcpPacket)
    → 30 ≤ now
    → pcb.ack_list ≡ []
    → pcb.send_buf ≡ []
    → pcb.send_queue ≡ ps
    → (flush now pcb.n_rto ps).0 ≡ ps
    → (update old now pcb).0 ≡ ps
unfolding update move_queue send_acks
update_fresh old now pcb ps t a b q f = rw (le→ltb now 30 t) (rw a (rw b (rw q f)))

-- The round trip of a message. A sender with nothing queued, nothing to confirm and nothing
-- unconfirmed calls `Send` on a buffer of at least one byte and then, at tick 30 or later, `Update`;
-- a receiver that holds no packet and expects the sender's next number gets the datagrams of that
-- `Update`, in order and once each. Then its second call of `Recv` into a buffer that is large enough
-- returns the length of the message and copies exactly its bytes.
pub send-recv :
    (old old' : OldMemory) (msg : Bytes) (now len : ℕ) (a b : TcpPcb)
    → a.send_queue ≡ []
    → a.send_buf ≡ []
    → a.ack_list ≡ []
    → b.recv_queue ≡ []
    → b.recv_buf ≡ []
    → b.n_recv_seq ≡ a.n_seq
    → 0 < length msg
    → length msg ≤ len
    → 30 ≤ now
    → let out = (update old' now (send old msg (pos (length msg)) a).1).0 in
      let b' = run b (arrivals out) in Delivered msg (recv (pos len) (recv (pos len) b').pcb)
send-recv old old' msg now len a b q u k bq bu e h fits late =
    let (ps, sent, segments) = send-Segments old msg a in
    let out : (update old' now (send old msg (pos (length msg)) a).1).0 ≡ ps = rw sent (
      update_fresh old' now
        (record a { n_seq = a.n_seq + length ps; send_queue = a.send_queue ++ ps }) ps late k u
        (ap (λ (l : List TcpPacket). l ++ ps) q) (flush-Segments now a.n_rto segments)) in
    rw out (
      rw (run-arrivals b segments) (
        recv_twice {conv = a.conv} {ps = ps} len (arrived ps b)
          (subst (λ n. Segments a.conv n msg ps) (sym e) segments) bq
          (ap (λ (l : List TcpPacket). l ++ ps) bu) h fits))
