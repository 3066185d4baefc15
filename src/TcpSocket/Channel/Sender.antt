-- ===== src/TcpSocket/Channel/Sender.antt =====
-- The sending side of a link (StudentManagementServer/TcpSocket.cpp), and the parts of its messages.
use school_information_manag.Prelude.{
  ℕ, ◌+◌, ◌≡◌, refl, sym, ap, ◌∙◌, subst, inl, inr, List, [], ◌∷◌, ◌++◌, append-nil, append_assoc,
  arith, ltb, Bool-cases, length, length-append, All, All-append, All-mono, Bytes, ℤ, pos,
}
use school_information_manag.TcpSocket.{
  OldMemory, TcpPacket, TcpPcb, Datagram, would_block, broken, packet, move_queue, send_acks,
  update, input, send, cmd_ack, cmd_psh,
}
use school_information_manag.TcpSocket.Sending.{Segments, finish, segment_of, send-Segments}
use school_information_manag.TcpSocket.Parts.{
  Part, part_of, parts_of, length-parts_of, Message, part, Segments-Message, Stream, Stream-append,
  Has, Has-left, Has-right,
}
use school_information_manag.TcpSocket.Channel.{messages_of, ComesFrom}
use school_information_manag.TcpSocket.Channel.Packets.{Holds-All, unacked-All, Sends, update-Sends}

-- A packet with one of these parts.
abbrev pub Carries : List Part → TcpPacket → Type 0
Carries parts p = (p.n_cmd ≡ cmd_psh) × Has (part_of p) parts

pub Carries-left :
    (xs ys : List Part) (ps : List TcpPacket) → All (Carries xs) ps → All (Carries (xs ++ ys)) ps
Carries-left xs ys = All-mono (λ p h. (h.0, Has-left (part_of p) xs ys h.1))

Segments-Carries :
    {conv seq : ℕ} {msg : Bytes} (xs : List Part) {ps : List TcpPacket}
    → Segments conv seq msg ps
    → All (Carries (xs ++ parts_of ps)) ps
Segments-Carries xs finish = tt
Segments-Carries xs (segment_of {ps} p e1 e2 e3 len pos_n max seg cnt text more) = (
  (e2, Has-right (part_of p) xs (parts_of (p ∷ ps)) (inl refl)),
  subst (λ l. All (Carries l) ps) (append_assoc xs (part_of p ∷ []) (parts_of ps))
      (Segments-Carries (xs ++ part_of p ∷ []) more),
)

-- `Stream-append` with a message of any length.
pub Stream-messages_of :
    {seq : ℕ} {msgs : List Bytes} {ps : List Part} (msg : Bytes) (qs : List Part)
    → Stream seq msgs ps
    → Message (seq + length ps) msg qs
    → Stream seq (msgs ++ messages_of msg) (ps ++ qs)
Stream-messages_of {msgs} {ps} [] [] s m = rw (append-nil msgs) (rw (append-nil ps) s)
Stream-messages_of [] (x ∷ qs) s (part y e len pos_n seg text more) =
    absurd (omega (arith, len, ap length text, length-append y.bytes _))
Stream-messages_of (b ∷ bs) qs s m = Stream-append (b ∷ bs) qs s (omega arith) m

-- The sender after it was asked for these parts.
pub record IsSender (parts : List Part) (net : List TcpPacket) (pcb : TcpPcb) : Type 0 where
  pub numbered : pcb.n_seq ≡ length parts
  pub no_acks : pcb.ack_list ≡ []
  pub packets : Sends (Carries parts) net pcb

-- What `Send` adds to the parts.
pub record Asked (parts : List Part) (buf : Bytes) (net : List TcpPacket) (pcb : TcpPcb)
    : Type 0 where
  pub new : List Part
  pub made : Message (length parts) buf new
  pub sender : IsSender (parts ++ new) net pcb

pub send-IsSender :
    (old : OldMemory) (buf : Bytes) (parts : List Part) (net : List TcpPacket) (pcb : TcpPcb)
    → IsSender parts net pcb
    → Asked parts buf net (send old buf (pos (length buf)) pcb).1
send-IsSender old buf parts net pcb h =
    let (ps, sent, segments) = send-Segments old buf pcb in
    subst (λ (r : ℤ × TcpPcb). Asked parts buf net r.1) (sym sent)
      (record {
        new = parts_of ps;
        made = subst (λ n. Message n buf (parts_of ps)) h.numbered (Segments-Message segments);
        sender = record {
          numbered =
              omega (arith, h.numbered, length-append parts (parts_of ps), length-parts_of ps);
          no_acks = h.no_acks;
          packets = record {
            queue =
                All-append _ pcb.send_queue ps
                  (Carries-left parts (parts_of ps) pcb.send_queue h.packets.queue)
                  (Segments-Carries parts segments);
            buf = Carries-left parts (parts_of ps) pcb.send_buf h.packets.buf;
            way = Carries-left parts (parts_of ps) net h.packets.way;
          };
        };
      })

n_seq-update :
    (old : OldMemory) (now : ℕ) (pcb : TcpPcb)
    → pcb.ack_list ≡ []
    → ((update old now pcb).1.n_seq ≡ pcb.n_seq) × ((update old now pcb).1.ack_list ≡ [])
unfolding update move_queue send_acks
n_seq-update old now pcb h = elim (Bool-cases (ltb now 30)) [
  | inl e ↦ rw e (refl, h)
  | inr e ↦ rw e (rw h (refl, refl))
]

pub update-IsSender :
    (old : OldMemory) (now : ℕ) (parts : List Part) (net : List TcpPacket) (pcb : TcpPcb)
    → IsSender parts net pcb
    → IsSender parts (net ++ (update old now pcb).0) (update old now pcb).1
update-IsSender old now parts net pcb h = record {
  numbered = (n_seq-update old now pcb h.no_acks).0 ∙ h.numbered;
  no_acks = (n_seq-update old now pcb h.no_acks).1;
  packets =
      update-Sends (Carries parts) (λ p count time q. q) old now net pcb h.packets
        (rw h.no_acks tt);
}

pub input-IsSender :
    (d : Datagram) (acks : List TcpPacket) (parts : List Part) (net : List TcpPacket) (pcb : TcpPcb)
    → ComesFrom acks d
    → All (λ p. p.n_cmd ≡ cmd_ack) acks
    → IsSender parts net pcb
    → IsSender parts net (input d pcb).1
unfolding input
input-IsSender would_block acks parts net pcb m a h = h
input-IsSender broken acks parts net pcb m a h = h
input-IsSender (packet n p) acks parts net pcb m a h =
    rw (Holds-All (λ q. q.n_cmd ≡ cmd_ack) p acks a m) (record {
      numbered = h.numbered;
      no_acks = h.no_acks;
      packets = record {
        queue = h.packets.queue;
        buf = unacked-All (Carries parts) p.n_ack_seq pcb.send_buf h.packets.buf;
        way = h.packets.way;
      };
    })
