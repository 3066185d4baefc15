-- ===== src/TcpSocket/Channel/Reliable.antt =====
-- The whole link (StudentManagementServer/TcpSocket.cpp on both sides), from its start on.
use school_information_manag.Prelude.{
  ℕ, ◌≡◌, refl, sym, ap, ◌∙◌, subst, List, [], ◌∷◌, ◌++◌, append_assoc, ◌≤◌, drop, drop-append,
  arith, length, Bytes, ℤ, pos,
}
use school_information_manag.TcpSocket.{OldMemory, TcpPacket, alloc_pcb, send, recv, cmd_ack}
use school_information_manag.TcpSocket.Parts.{Part, Message, Stream, silent, Stream-Counted}
use school_information_manag.TcpSocket.RoundTrip.{Delivered}
use school_information_manag.TcpSocket.Order.{update-SameReceiver}
use school_information_manag.TcpSocket.Channel.{
  Link, Step, sends, flushes, arrives, receives, answers, confirms, Reach, here, next, joined,
  messages_of, messages_from,
}
use school_information_manag.TcpSocket.Channel.Packets.{
  Sends, update-Sends, acks_of-n_cmd, recv-Sends, input-Sends,
}
use school_information_manag.TcpSocket.Channel.Sender.{
  IsSender, send-IsSender, update-IsSender, input-IsSender, Stream-messages_of,
}
use school_information_manag.TcpSocket.Channel.Receiver.{
  IsReceiver, IsReceiver_more, SameReceiver-IsReceiver, input-IsReceiver,
}
use school_information_manag.TcpSocket.Channel.Delivery.{recv-Received, recv-IsReceiver_all}

abbrev IsAck : TcpPacket → Type 0
IsAck p = p.n_cmd ≡ cmd_ack

-- What holds of a link between two steps: `left` are the messages asked for and not delivered.
pub record IsLink (l : Link) : Type 0 where
  pub parts : List Part
  pub left : List Bytes
  pub stream : Stream 0 l.asked parts
  pub conserved : l.asked ≡ l.delivered ++ left
  pub sender : IsSender parts l.data_net l.sender
  pub receiver : IsReceiver parts left l.receiver
  pub acks : Sends IsAck l.ack_net l.receiver

pub joined-IsLink : (conv conv' : ℕ) → IsLink (joined conv conv')
unfolding alloc_pcb
joined-IsLink conv conv' = record {
  parts = [];
  left = [];
  stream = silent;
  conserved = refl;
  sender = record {
    numbered = refl;
    no_acks = refl;
    packets = record { queue = tt; buf = tt; way = tt };
  };
  receiver = record {
    front = [];
    rest = [];
    whole = refl;
    expects = refl;
    buf = tt;
    stream = silent;
  };
  acks = record { queue = tt; buf = tt; way = tt };
}

sends-IsLink :
    (l : Link) (old : OldMemory) (buf : Bytes)
    → IsLink l
    → IsLink (record l {
      sender = (send old buf (pos (length buf)) l.sender).1;
      asked = l.asked ++ messages_of buf;
    })
sends-IsLink l old buf h =
    let a = send-IsSender old buf h.parts l.data_net l.sender h.sender in
    record {
      parts = h.parts ++ a.new;
      left = h.left ++ messages_of buf;
      stream =
          Stream-messages_of buf a.new h.stream
            (subst (λ n. Message n buf a.new) (omega arith) a.made);
      conserved =
          ap (λ m. m ++ messages_of buf) h.conserved
          ∙ append_assoc l.delivered h.left (messages_of buf);
      sender = a.sender;
      receiver = IsReceiver_more h.parts a.new h.left buf l.receiver a.made h.receiver;
      acks = h.acks;
    }

receives-IsLink :
    (l : Link) (len : ℤ)
    → IsLink l
    → IsLink (record l {
      receiver = (recv len l.receiver).pcb;
      delivered =
          l.delivered ++ messages_from (recv len l.receiver).code (recv len l.receiver).copied;
    })
receives-IsLink l len h =
    let r = recv-Received len h.parts h.left l.receiver (Stream-Counted h.stream) h.receiver in
    record {
      parts = h.parts;
      left = r.left';
      stream = h.stream;
      conserved =
          h.conserved ∙ ap (◌++◌ l.delivered) r.now ∙ sym (append_assoc l.delivered _ r.left');
      sender = h.sender;
      receiver = r.receiver;
      acks = recv-Sends len l.receiver h.acks;
    }

pub Step-IsLink : {l k : Link} → Step l k → IsLink l → IsLink k
Step-IsLink (sends l old buf) h = sends-IsLink l old buf h
Step-IsLink (flushes l old now) h = record {
  parts = h.parts;
  left = h.left;
  stream = h.stream;
  conserved = h.conserved;
  receiver = h.receiver;
  acks = h.acks;
  sender = update-IsSender old now h.parts l.data_net l.sender h.sender;
}
Step-IsLink (arrives l d m) h = record {
  parts = h.parts;
  left = h.left;
  stream = h.stream;
  conserved = h.conserved;
  sender = h.sender;
  receiver =
      input-IsReceiver d l.data_net h.parts h.left l.receiver m h.sender.packets.way h.receiver;
  acks = input-Sends d l.receiver h.acks;
}
Step-IsLink (receives l len) h = receives-IsLink l len h
Step-IsLink (answers l old now) h = record {
  parts = h.parts;
  left = h.left;
  stream = h.stream;
  conserved = h.conserved;
  sender = h.sender;
  receiver =
      SameReceiver-IsReceiver h.parts h.left (update-SameReceiver old now l.receiver) h.receiver;
  acks =
      update-Sends IsAck (λ p count time q. q) old now l.ack_net l.receiver h.acks
        (acks_of-n_cmd old l.receiver.conv l.receiver.n_seq l.receiver.ack_list);
}
Step-IsLink (confirms l d m) h = record {
  parts = h.parts;
  left = h.left;
  stream = h.stream;
  conserved = h.conserved;
  receiver = h.receiver;
  acks = h.acks;
  sender = input-IsSender d l.ack_net h.parts l.data_net l.sender m h.acks.way h.sender;
}

pub Reach-IsLink : {s l : Link} → IsLink s → Reach s l → IsLink l
Reach-IsLink h here = h
Reach-IsLink h (next r st) = Step-IsLink st (Reach-IsLink h r)

-- The channel is reliable. Two new blocks, one of which only sends messages and takes confirmations
-- while the other only receives and confirms: after any history of their calls, on a network that
-- loses, repeats, delays and reorders datagrams as it likes, what `Recv` delivered is a beginning of
-- what `Send` was asked for, message by message, with every byte, none lost, doubled or out of order.
pub reliable :
    (conv conv' : ℕ) (l : Link)
    → Reach (joined conv conv') l
    → (left : List Bytes) × (l.asked ≡ l.delivered ++ left)
reliable conv conv' l r = let h = Reach-IsLink (joined-IsLink conv conv') r in (h.left, h.conserved)

pub append-cancel : (xs ys zs : List Bytes) → xs ++ ys ≡ xs ++ zs → ys ≡ zs
append-cancel xs ys zs e = sym (drop-append xs ys) ∙ ap (drop (length xs)) e ∙ drop-append xs zs

-- Nothing stays behind. When the receiver expects the very number that the sender will give next, so
-- every number has come, and `msg` is the next message that was asked for and not delivered, then
-- `Recv` into a buffer that is large enough returns its length and copies exactly its bytes.
pub delivers_next :
    (conv conv' : ℕ) (l : Link) (len : ℕ) (msg : Bytes) (after : List Bytes)
    → Reach (joined conv conv') l
    → l.receiver.n_recv_seq ≡ l.sender.n_seq
    → l.asked ≡ l.delivered ++ msg ∷ after
    → length msg ≤ len
    → Delivered msg (recv (pos len) l.receiver)
delivers_next conv conv' l len msg after r n e k =
    let h = Reach-IsLink (joined-IsLink conv conv') r in
    let left : h.left ≡ msg ∷ after =
      append-cancel l.delivered h.left (msg ∷ after) (sym h.conserved ∙ e) in
    recv-IsReceiver_all len msg after h.parts l.receiver
      (subst (λ m. IsReceiver h.parts m l.receiver) left h.receiver) (n ∙ h.sender.numbered) k
