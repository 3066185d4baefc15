-- ===== src/TcpSocket/Bounds.antt =====
-- How long the datagrams are that `Update` hands to the system (StudentManagementServer/TcpSocket.cpp).
use school_information_manag.Prelude.{
  ℕ, zero, suc, ◌+◌, ◌≤◌, List, [], ◌∷◌, arith, All, All-append, Bytes, ℤ, pos, negsuc,
}
use school_information_manag.TcpSocket.{
  OldMemory, TcpPacket, TcpPcb, segment, segment_count, send_loop, send, update, alloc_pcb, tcp_mss,
  head_size,
}
use school_information_manag.TcpSocket.Acks.{acks_of}
use school_information_manag.TcpSocket.Order.{Event, inputs, recvs, sends, updates, step, run}
use school_information_manag.TcpSocket.Channel.Packets.{
  Sends, update-Sends, recv-Sends, input-Sends,
}

-- The packet fits into a datagram.
abbrev pub Fits : TcpPacket → Type 0
Fits p = p.n_len + head_size ≤ tcp_mss

acks_of-Fits :
    (old : OldMemory) (conv seq : ℕ) (seqs : List ℕ) → All Fits (acks_of old conv seq seqs)
acks_of-Fits old conv seq [] = tt
acks_of-Fits old conv seq (n ∷ seqs) = (omega arith, acks_of-Fits old conv (seq + 1) seqs)

segment-Fits :
    (old : OldMemory) (pcb : TcpPcb) (buf : Bytes) (len sent left : ℕ)
    → Fits (segment old pcb buf len sent left)
unfolding segment
segment-Fits old pcb buf len sent left = ground arith

send_loop-Sends :
    (old : OldMemory) (buf : Bytes) (len left sent : ℕ) (pcb : TcpPcb)
    → Sends Fits [] pcb
    → Sends Fits [] (send_loop old buf len left sent pcb).1
unfolding send_loop
send_loop-Sends old buf len zero sent pcb h = h
send_loop-Sends old buf len (suc left) sent pcb h = send_loop-Sends old buf len left _ _ (record {
  queue = All-append Fits pcb.send_queue _ h.queue (segment-Fits old pcb buf len sent left, tt);
  buf = h.buf;
  way = tt;
})

send-Sends :
    (old : OldMemory) (buf : Bytes) (len : ℤ) (pcb : TcpPcb)
    → Sends Fits [] pcb
    → Sends Fits [] (send old buf len pcb).1
unfolding send
send-Sends old buf (negsuc n) pcb h = h
send-Sends old buf (pos len) pcb h = send_loop-Sends old buf len (segment_count len) 0 pcb h

update-Fits :
    (old : OldMemory) (now : ℕ) (pcb : TcpPcb)
    → Sends Fits [] pcb
    → Sends Fits (update old now pcb).0 (update old now pcb).1
update-Fits old now pcb h =
    update-Sends Fits (λ p count time q. q) old now [] pcb h
      (acks_of-Fits old pcb.conv pcb.n_seq pcb.ack_list)

step-Sends : (pcb : TcpPcb) (e : Event) → Sends Fits [] pcb → Sends Fits [] (step pcb e)
unfolding step
step-Sends pcb (inputs d) h = input-Sends d pcb h
step-Sends pcb (recvs len) h = recv-Sends len pcb h
step-Sends pcb (sends old buf len) h = send-Sends old buf len pcb h
step-Sends pcb (updates old now) h =
    let s = update-Fits old now pcb h in record { queue = s.queue; buf = s.buf; way = tt }

run-Sends : (pcb : TcpPcb) (es : List Event) → Sends Fits [] pcb → Sends Fits [] (run pcb es)
unfolding run
run-Sends pcb [] h = h
run-Sends pcb (e ∷ es) h = run-Sends (step pcb e) es (step-Sends pcb e h)

-- After every history of calls and datagrams, each datagram that `Update` hands to the system, the
-- head of 32 bytes and the data, has at most 1400 bytes: it fits into the buffer and into the packet
-- that `Input` reads it into.
pub update-run-Fits :
    (conv : ℕ) (es : List Event) (old : OldMemory) (now : ℕ)
    → All Fits (update old now (run (alloc_pcb conv) es)).0
unfolding alloc_pcb
update-run-Fits conv es old now =
    (update-Fits old now _ (run-Sends _ es (record { queue = tt; buf = tt; way = tt }))).way
