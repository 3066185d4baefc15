-- ===== src/TcpSocket/Channel.antt =====
-- A block that sends messages, a block that receives them (StudentManagementServer/TcpSocket.cpp), and the
-- network between the two, which loses, repeats, delays and reorders datagrams.
pub mod Packets
pub mod Sender
pub mod Receiver
pub mod Delivery
pub mod Reliable
pub mod Drained
use school_information_manag.Prelude.{
  ℕ, zero, suc, ◌+◌, ◌≡◌, refl, ◌⊎◌, inl, inr, List, [], ◌∷◌, ◌++◌, length, Bytes, ℤ, pos, negsuc,
}
use school_information_manag.TcpSocket.{
  OldMemory, TcpPacket, TcpPcb, Datagram, would_block, broken, packet, alloc_pcb, send, recv, input,
  update,
}

-- Every packet that a block ever handed to the system is in its network. `asked` are the messages
-- that `Send` was called with, `delivered` those that `Recv` copied out, each in order.
pub record Link : Type 0 where
  pub sender : TcpPcb
  pub receiver : TcpPcb
  pub data_net : List TcpPacket
  pub ack_net : List TcpPacket
  pub asked : List Bytes
  pub delivered : List Bytes

-- A message has a byte at least: `Send` of none queues nothing.
abbrev pub messages_of : Bytes → List Bytes
messages_of [] = []
messages_of (b ∷ bs) = (b ∷ bs) ∷ []

-- What a call of `Recv` delivers: nothing, when it does not return a count of bytes.
abbrev pub messages_from : ℤ → Bytes → List Bytes
messages_from (negsuc n) bs = []
messages_from (pos zero) bs = []
messages_from (pos (suc n)) bs = bs ∷ []

abbrev pub Holds : TcpPacket → List TcpPacket → Type 0
Holds p [] = ⊥
Holds p (q ∷ qs) = (p ≡ q) ⊎ Holds p qs

-- What `recvfrom` can find when this was put on the way, of any size that the system reports.
abbrev pub ComesFrom : List TcpPacket → Datagram → Type 0
ComesFrom net would_block = Unit
ComesFrom net broken = Unit
ComesFrom net (packet size p) = Holds p net

abbrev pub joined : ℕ → ℕ → Link
joined conv conv' = record {
  sender = alloc_pcb conv;
  receiver = alloc_pcb conv';
  data_net = [];
  ack_net = [];
  asked = [];
  delivered = [];
}

-- One call of either side. A datagram stays in the network: it can come again, later, or never.
pub data Step : Link → Link → Type 0 where
  sends :
      (l : Link) (old : OldMemory) (buf : Bytes)
      → Step l (record l {
        sender = (send old buf (pos (length buf)) l.sender).1;
        asked = l.asked ++ messages_of buf;
      })
  flushes :
      (l : Link) (old : OldMemory) (now : ℕ)
      → Step l (record l {
        sender = (update old now l.sender).1;
        data_net = l.data_net ++ (update old now l.sender).0;
      })
  arrives :
      (l : Link) (d : Datagram)
      → ComesFrom l.data_net d
      → Step l (record l { receiver = (input d l.receiver).1 })
  receives :
      (l : Link) (len : ℤ)
      → Step l (record l {
        receiver = (recv len l.receiver).pcb;
        delivered =
            l.delivered ++ messages_from (recv len l.receiver).code (recv len l.receiver).copied;
      })
  answers :
      (l : Link) (old : OldMemory) (now : ℕ)
      → Step l (record l {
        receiver = (update old now l.receiver).1;
        ack_net = l.ack_net ++ (update old now l.receiver).0;
      })
  confirms :
      (l : Link) (d : Datagram)
      → ComesFrom l.ack_net d
      → Step l (record l { sender = (input d l.sender).1 })

pub data Reach (s : Link) : Link → Type 0 where
  here : Reach s s
  next : {l k : Link} → Reach s l → Step l k → Reach s k
