-- ===== src/TcpSocket.antt =====
-- StudentManagementServer/TcpSocket.h and TcpSocket.cpp: segments, sequence numbers, acknowledgements
-- and retransmission over UDP (StudentManagementClient/TcpSocket.cpp is the same code with other log
-- macros). Sequence numbers, lengths and ticks are naturals, so a run is one in which no `int` of the
-- source overflows. What `sendto` is handed is collected; its result is ignored by the caller.
pub mod Sending
pub mod Receiving
pub mod Order
pub mod Gaps
pub mod RoundTrip
pub mod Resending
pub mod Acks
pub mod Parts
pub mod Reading
pub mod Channel
pub mod Bounds
pub mod Numbers
pub mod Setup
use school_information_manag.Prelude.{
  ℕ, zero, suc, ◌+◌, ◌-◌, ◌/◌, ◌%◌, Bool, true, false, Option, none, some, List, [], ◌∷◌, ◌++◌, ltb,
  ◌==◌, if◌then◌else◌, take, drop, Bytes, ℤ, pos, negsuc,
}

abbrev pub cmd_psh : ℕ
cmd_psh = 1

abbrev pub cmd_ack : ℕ
cmd_ack = 2

abbrev pub tcp_mss : ℕ
tcp_mss = 1400

-- `sizeof(TcpPacket) - 1`: eight four-byte fields.
abbrev pub head_size : ℕ
head_size = 32

-- `bytes` is the field `Data`.
pub record TcpPacket : Type 0 where
  pub conv : ℕ
  pub n_cmd : ℕ
  pub n_len : ℕ
  pub n_seq : ℕ
  pub n_ack_seq : ℕ
  pub n_segment : ℕ
  pub n_time : ℕ
  pub n_cnt : ℕ
  pub bytes : Bytes

-- A pointer to a packet stands in one list only, so the lists hold the packets. The socket and the
-- two addresses are handed to the system and not read here.
pub record TcpPcb : Type 0 where
  pub conv : ℕ
  pub n_seq : ℕ
  pub n_recv_seq : ℕ
  pub n_rto : ℕ
  pub send_queue : List TcpPacket
  pub send_buf : List TcpPacket
  pub recv_queue : List TcpPacket
  pub recv_buf : List TcpPacket
  pub ack_list : List ℕ

-- `AllocPcb`, given the identifier that `SetConv` makes of a random GUID.
unfoldable pub alloc_pcb : ℕ → TcpPcb
alloc_pcb conv = record {
  conv = conv;
  n_seq = 0;
  n_recv_seq = 0;
  n_rto = 1000;
  send_queue = [];
  send_buf = [];
  recv_queue = [];
  recv_buf = [];
  ack_list = [];
}

-- What the blocks from `new` hold before anything is assigned: each is for the packet with the next
-- sequence number, by which it is found here, so no two packets share one.
abbrev pub OldMemory : Type 0
OldMemory = ℕ → TcpPacket

-- `SendAck`. The block from `new` keeps its old contents where nothing is assigned.
unfoldable pub send_ack : OldMemory → TcpPcb → ℕ → TcpPcb
send_ack old pcb seq =
    let p = record (old pcb.n_seq) {
      conv = pcb.conv;
      n_cmd = cmd_ack;
      n_len = 0;
      n_seq = pcb.n_seq;
      n_ack_seq = seq;
      n_segment = 0;
    } in
    record pcb { n_seq = pcb.n_seq + 1; send_queue = pcb.send_queue ++ p ∷ [] }

unfoldable pub send_acks : OldMemory → TcpPcb → List ℕ → TcpPcb
send_acks old pcb [] = pcb
send_acks old pcb (seq ∷ seqs) = send_acks old (send_ack old pcb seq) seqs

abbrev pub max_part : ℕ
max_part = tcp_mss - head_size

-- The number of segments.
abbrev pub segment_count : ℕ → ℕ
segment_count len = if len % max_part == 0 then len / max_part else len / max_part + 1

abbrev pub part_len : ℕ → ℕ → ℕ
part_len len sent = if ltb max_part (len - sent) then max_part else len - sent

-- The packet of a segment: `left` segments come after it.
unfoldable pub segment : OldMemory → TcpPcb → Bytes → ℕ → ℕ → ℕ → TcpPacket
segment old pcb buf len sent left = record (old pcb.n_seq) {
  conv = pcb.conv;
  n_cmd = cmd_psh;
  n_seq = pcb.n_seq;
  n_len = part_len len sent;
  n_time = 0;
  n_cnt = 0;
  n_segment = left;
  bytes = take (part_len len sent) (drop sent buf);
}

-- The loop of `Send` with this many rounds left: the bytes sent, and the block.
unfoldable pub send_loop : OldMemory → Bytes → ℕ → ℕ → ℕ → TcpPcb → ℕ × TcpPcb
send_loop old buf len zero sent pcb = (sent, pcb)
send_loop old buf len (suc left) sent pcb =
    send_loop old buf len left (sent + part_len len sent) (record pcb {
      n_seq = pcb.n_seq + 1;
      send_queue = pcb.send_queue ++ segment old pcb buf len sent left ∷ [];
    })

-- `Send`
unfoldable pub send : OldMemory → Bytes → ℤ → TcpPcb → ℤ × TcpPcb
send old buf (negsuc n) pcb = (negsuc 0, pcb)
send old buf (pos len) pcb =
    let (sent, pcb') = send_loop old buf len (segment_count len) 0 pcb in (pos sent, pcb')

-- `PeekSize`: `none` is the result -1.
unfoldable pub peek_size : ℕ → List TcpPacket → Option ℕ
peek_size size [] = none
peek_size size (p ∷ ps) =
    let rest = peek_size (size + p.n_len) ps in
    if p.n_segment == 0 then some (size + p.n_len) else rest

-- The loop of `Recv` that copies a message: its bytes, their count, and the rest of the queue.
unfoldable pub copy_message : ℕ → ℕ → List TcpPacket → Bytes × ℕ × List TcpPacket
copy_message size copied [] = ([], copied, [])
copy_message size copied (p ∷ ps) =
    let (bs, copied', rest) = copy_message size (copied + p.n_len) ps in
    if ltb copied size then (take p.n_len p.bytes ++ bs, copied', rest) else ([], copied, p ∷ ps)

-- The second loop of `Recv`: one pass over the receive buffer, in which the packet that is next in
-- order goes to the queue. The results are what stays, what moves, and the next number.
unfoldable pub in_order : ℕ → List TcpPacket → List TcpPacket × List TcpPacket × ℕ
in_order next [] = ([], [], next)
in_order next (p ∷ ps) =
    let (kept, moved, next') = in_order (if p.n_seq == next then next + 1 else next) ps in
    if p.n_seq == next then (kept, p ∷ moved, next') else (p ∷ kept, moved, next')

unfoldable pub take_in_order : TcpPcb → TcpPcb
take_in_order pcb =
    let (kept, moved, next) = in_order pcb.n_recv_seq pcb.recv_buf in
    record pcb { recv_queue = pcb.recv_queue ++ moved; recv_buf = kept; n_recv_seq = next }

-- The result of `Recv`: the returned code, what was copied into the buffer, and the block.
pub record Recvd : Type 0 where
  pub code : ℤ
  pub copied : Bytes
  pub pcb : TcpPcb

abbrev pub recv_message : ℕ → Option ℕ → TcpPcb → Recvd
recv_message len none pcb = record { code = pos 0; copied = []; pcb = take_in_order pcb }
recv_message len (some zero) pcb = record { code = pos 0; copied = []; pcb = take_in_order pcb }
recv_message len (some (suc n)) pcb =
    let (bs, copied, rest) = copy_message (suc n) 0 pcb.recv_queue in
    if ltb len (suc n) then record { code = negsuc 1; copied = []; pcb = pcb } else record {
      code = pos copied;
      copied = bs;
      pcb = take_in_order (record pcb { recv_queue = rest });
    }

-- `Recv`
unfoldable pub recv : ℤ → TcpPcb → Recvd
recv (negsuc n) pcb = record { code = negsuc 0; copied = []; pcb = pcb }
recv (pos len) pcb = recv_message len (peek_size 0 pcb.recv_queue) pcb

-- What `recvfrom` finds: nothing yet, an error, or a datagram of this many bytes.
pub data Datagram : Type 0 where
  would_block broken : Datagram
  packet : ℕ → TcpPacket → Datagram

-- The packets that are not acknowledged by this number.
unfoldable pub unacked : ℕ → List TcpPacket → List TcpPacket
unacked seq [] = []
unacked seq (p ∷ ps) = let rest = unacked seq ps in if p.n_seq == seq then rest else p ∷ rest

-- `Input`
unfoldable pub input : Datagram → TcpPcb → ℤ × TcpPcb
input would_block pcb = (pos 0, pcb)
input broken pcb = (negsuc 0, pcb)
input (packet n p) pcb =
    if p.n_cmd == cmd_psh
    then (
      pos n,
      record pcb { recv_buf = pcb.recv_buf ++ p ∷ []; ack_list = pcb.ack_list ++ p.n_seq ∷ [] },
    )
    else if p.n_cmd == cmd_ack
    then (pos n, record pcb { send_buf = unacked p.n_ack_seq pcb.send_buf })
    else (pos n, pcb)

-- One packet of the send buffer in `Update`: whether it goes out, and how it is left. The tests on
-- the time are `now - n_time > n_rto` with no subtraction.
unfoldable pub flush_one : ℕ → ℕ → TcpPacket → Bool × TcpPacket
flush_one now rto p =
    if p.n_cnt == 0
    then (true, record p { n_cnt = p.n_cnt + 1; n_time = now })
    else if ltb 1000 p.n_cnt
    then (false, record p { n_time = now })
    else if ltb (p.n_time + rto) now
    then (true, record p { n_cnt = p.n_cnt + 1; n_time = now })
    else (false, record p { n_time = now })

-- The packets that go out, as `Output` sees them, and the send buffer.
unfoldable pub flush : ℕ → ℕ → List TcpPacket → List TcpPacket × List TcpPacket
flush now rto [] = ([], [])
flush now rto (p ∷ ps) =
    let (out, ps') = flush now rto ps in
    let (sent, p') = flush_one now rto p in (if sent then p ∷ out else out, p' ∷ ps')

-- `static int nTimes`, to which nothing is assigned.
abbrev pub n_times : ℕ
n_times = 0

unfoldable pub move_queue : TcpPcb → TcpPcb
move_queue pcb = record pcb { send_buf = pcb.send_buf ++ pcb.send_queue; send_queue = [] }

-- `Update`: what goes out, and the block.
unfoldable pub update : OldMemory → ℕ → TcpPcb → List TcpPacket × TcpPcb
update old now pcb =
    let acked = record (send_acks old pcb pcb.ack_list) { ack_list = [] } in
    let moved = move_queue acked in
    let (out, buf) = flush now moved.n_rto moved.send_buf in
    if ltb now (n_times + 30) then ([], pcb) else (out, record moved { send_buf = buf })
