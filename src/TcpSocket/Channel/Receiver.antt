-- ===== src/TcpSocket/Channel/Receiver.antt =====
-- The receiving side of a link (StudentManagementServer/TcpSocket.cpp), and the parts of the messages.
use school_information_manag.Prelude.{
  ◌+◌, ◌≡◌, sym, ap, ◌∙◌, subst, List, [], ◌∷◌, ◌++◌, append_assoc, arith, ==_iff, length,
  length-append, All, All-append, All-mono, Bytes,
}
use school_information_manag.TcpSocket.{
  TcpPacket, TcpPcb, Datagram, would_block, broken, packet, take_in_order, in_order, input, cmd_psh,
}
use school_information_manag.TcpSocket.Order.{SameReceiver}
use school_information_manag.TcpSocket.Parts.{
  Part, parts_of, length-parts_of, parts_of-append, Message, Stream, Counted,
}
use school_information_manag.TcpSocket.Reading.{in_order-Moved, in_order-All}
use school_information_manag.TcpSocket.Channel.{messages_of, ComesFrom}
use school_information_manag.TcpSocket.Channel.Packets.{Holds-All}
use school_information_manag.TcpSocket.Channel.Sender.{Carries, Carries-left, Stream-messages_of}

-- A receiver that has still to deliver these messages out of the parts that were asked for: it has
-- consumed `front`, it holds the next ones, and `rest` comes after them.
pub record IsReceiver (parts : List Part) (left : List Bytes) (pcb : TcpPcb) : Type 0 where
  pub front : List Part
  pub rest : List Part
  pub whole : parts ≡ front ++ (parts_of pcb.recv_queue ++ rest)
  pub expects : pcb.n_recv_seq ≡ length front + length pcb.recv_queue
  pub buf : All (Carries parts) pcb.recv_buf
  pub stream : Stream (length front) left (parts_of pcb.recv_queue ++ rest)

-- More parts are asked for.
pub IsReceiver_more :
    (parts new : List Part) (left : List Bytes) (msg : Bytes) (pcb : TcpPcb)
    → Message (length parts) msg new
    → IsReceiver parts left pcb
    → IsReceiver (parts ++ new) (left ++ messages_of msg) pcb
IsReceiver_more parts new left msg pcb m h =
    let held = parts_of pcb.recv_queue in
    record {
      front = h.front;
      rest = h.rest ++ new;
      whole =
          ap (λ l. l ++ new) h.whole
          ∙ append_assoc h.front (held ++ h.rest) new
          ∙ ap (◌++◌ h.front) (append_assoc held h.rest new);
      expects = h.expects;
      buf = Carries-left parts new pcb.recv_buf h.buf;
      stream =
          subst (Stream (length h.front) (left ++ messages_of msg)) (append_assoc held h.rest new) (
            Stream-messages_of msg new h.stream (
              subst (λ n. Message n msg new)
                (ap length h.whole ∙ length-append h.front (held ++ h.rest)) m));
    }

pub SameReceiver-IsReceiver :
    {a b : TcpPcb} (parts : List Part) (left : List Bytes)
    → SameReceiver a b
    → IsReceiver parts left a
    → IsReceiver parts left b
SameReceiver-IsReceiver parts left s h = record {
  front = h.front;
  rest = h.rest;
  whole = rw (s.queue) h.whole;
  expects = rw (s.next, s.queue) h.expects;
  buf = rw (s.buf) h.buf;
  stream = rw (s.queue) h.stream;
}

pub take_in_order-IsReceiver :
    (parts : List Part) (left : List Bytes) (pcb : TcpPcb)
    → Counted 0 parts
    → IsReceiver parts left pcb
    → IsReceiver parts left (take_in_order pcb)
unfolding take_in_order
take_in_order-IsReceiver parts left pcb c h =
    let held = parts_of pcb.recv_queue in
    let m =
      in_order-Moved pcb.n_recv_seq pcb.recv_buf parts (h.front ++ held) h.rest c
        (All-mono (λ p q. q.1) pcb.recv_buf h.buf)
        (h.whole ∙ sym (append_assoc h.front held h.rest))
        (omega (arith, h.expects, length-append h.front held, length-parts_of pcb.recv_queue)) in
    let moved = (in_order pcb.n_recv_seq pcb.recv_buf).1 in
    let e : held ++ h.rest ≡ parts_of (pcb.recv_queue ++ moved) ++ m.later =
      ap (◌++◌ held) m.continues
      ∙ sym (append_assoc held (parts_of moved) m.later)
      ∙ ap (λ l. l ++ m.later) (sym (parts_of-append pcb.recv_queue moved)) in
    record {
      front = h.front;
      rest = m.later;
      whole = h.whole ∙ ap (◌++◌ h.front) e;
      expects = omega (arith, h.expects, m.count, length-append pcb.recv_queue moved);
      buf = in_order-All (Carries parts) pcb.n_recv_seq pcb.recv_buf h.buf;
      stream = subst (Stream (length h.front) left) e h.stream;
    }

pub input-IsReceiver :
    (d : Datagram) (net : List TcpPacket) (parts : List Part) (left : List Bytes) (pcb : TcpPcb)
    → ComesFrom net d
    → All (Carries parts) net
    → IsReceiver parts left pcb
    → IsReceiver parts left (input d pcb).1
unfolding input
input-IsReceiver would_block net parts left pcb m a h = h
input-IsReceiver broken net parts left pcb m a h = h
input-IsReceiver (packet n p) net parts left pcb m a h =
    let carries = Holds-All (Carries parts) p net a m in
    rw ((==_iff p.n_cmd cmd_psh).1 (carries.0)) (record {
      front = h.front;
      rest = h.rest;
      whole = h.whole;
      expects = h.expects;
      buf = All-append (Carries parts) pcb.recv_buf (p ∷ []) h.buf (carries, tt);
      stream = h.stream;
    })
