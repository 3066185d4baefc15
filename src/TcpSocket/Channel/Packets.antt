-- ===== src/TcpSocket/Channel/Packets.antt =====
-- What holds of every packet that `Update` (StudentManagementServer/TcpSocket.cpp) puts on the way.
use school_information_manag.Prelude.{
  ℕ, ◌+◌, ◌≡◌, refl, sym, subst, List, [], ◌∷◌, ◌++◌, append-nil, ltb, Bool-cases, inl, inr, ◌==◌,
  All, All-append, Option, some, none, zero, suc, ℤ, pos, negsuc,
}
use school_information_manag.TcpSocket.{
  OldMemory, TcpPacket, TcpPcb, Datagram, would_block, broken, packet, unacked, flush_one, flush,
  move_queue, update, input, cmd_ack, cmd_psh, recv, recv_message, peek_size, take_in_order,
}
use school_information_manag.TcpSocket.Acks.{acks_of, send_acks_lem}
use school_information_manag.TcpSocket.Channel.{Holds}

pub Holds-All {κ} :
    (Q : TcpPacket → Type κ) (p : TcpPacket) (ps : List TcpPacket) → All Q ps → Holds p ps → Q p
Holds-All Q p [] h m = absurd m
Holds-All Q p (q ∷ qs) h (inl e) = subst Q (sym e) (h.0)
Holds-All Q p (q ∷ qs) h (inr m) = Holds-All Q p qs h.1 m

pub unacked-All {κ} :
    (Q : TcpPacket → Type κ) (n : ℕ) (ps : List TcpPacket) → All Q ps → All Q (unacked n ps)
unfolding unacked
unacked-All Q n [] h = tt
unacked-All Q n (p ∷ ps) h = elim (Bool-cases (p.n_seq == n)) [
  | inl e ↦ rw e (unacked-All Q n ps h.1)
  | inr e ↦ rw e (h.0, unacked-All Q n ps h.1)
]

pub acks_of-n_cmd :
    (old : OldMemory) (conv seq : ℕ) (seqs : List ℕ)
    → All (λ p. p.n_cmd ≡ cmd_ack) (acks_of old conv seq seqs)
acks_of-n_cmd old conv seq [] = tt
acks_of-n_cmd old conv seq (n ∷ seqs) = (refl, acks_of-n_cmd old conv (seq + 1) seqs)

-- The packets that a block sends, or still has to.
pub record Sends {κ} (Q : TcpPacket → Type κ) (out : List TcpPacket) (pcb : TcpPcb) : Type κ where
  pub queue : All Q pcb.send_queue
  pub buf : All Q pcb.send_buf
  pub way : All Q out

-- A property of packets that does not read when and how often a packet was sent.
module _ {κ} (Q : TcpPacket → Type κ)
    (keeps : (p : TcpPacket) (count time : ℕ)
      → Q p
      → Q (record p { n_cnt = count; n_time = time })) where
  flush_one-All : (now rto : ℕ) (p : TcpPacket) → Q p → Q (flush_one now rto p).1
  unfolding flush_one
  flush_one-All now rto p h =
      let sent = keeps p (p.n_cnt + 1) now h in
      let kept = keeps p p.n_cnt now h in
      elim (Bool-cases (p.n_cnt == 0)) [
        | inl e ↦ rw e sent
        | inr e ↦ rw e (elim (Bool-cases (ltb 1000 p.n_cnt)) [
          | inl f ↦ rw f kept
          | inr f ↦ rw f (elim (Bool-cases (ltb (p.n_time + rto) now)) [
            | inl g ↦ rw g sent
            | inr g ↦ rw g kept
          ])
        ])
      ]

  flush-All :
      (now rto : ℕ) (ps : List TcpPacket)
      → All Q ps
      → All Q (flush now rto ps).0 × All Q (flush now rto ps).1
  unfolding flush
  flush-All now rto [] h = (tt, tt)
  flush-All now rto (p ∷ ps) h = elim (Bool-cases (flush_one now rto p).0) [
    | inl e ↦ rw e (
      (h.0, (flush-All now rto ps h.1).0),
      (flush_one-All now rto p h.0, (flush-All now rto ps h.1).1),
    )
    | inr e ↦
        rw e (
          (flush-All now rto ps h.1).0,
          (flush_one-All now rto p h.0, (flush-All now rto ps h.1).1),
        )
  ]

  pub update-Sends :
      (old : OldMemory) (now : ℕ) (net : List TcpPacket) (pcb : TcpPcb)
      → Sends Q net pcb
      → All Q (acks_of old pcb.conv pcb.n_seq pcb.ack_list)
      → Sends Q (net ++ (update old now pcb).0) (update old now pcb).1
  unfolding update move_queue
  update-Sends old now net pcb s a =
      let moved : All Q
          (pcb.send_buf ++ (pcb.send_queue ++ acks_of old pcb.conv pcb.n_seq pcb.ack_list)) =
        All-append Q pcb.send_buf _ s.buf (All-append Q pcb.send_queue _ s.queue a) in
      let go = flush-All now pcb.n_rto _ moved in
      elim (Bool-cases (ltb now 30)) [
        | inl e ↦ rw e (record { queue = s.queue; buf = s.buf; way = rw (append-nil net) s.way })
        | inr e ↦ rw e (
            rw (send_acks_lem old pcb pcb.ack_list)
              (record { queue = tt; buf = go.1; way = All-append Q net _ s.way (go.0) }))
      ]

send_queue-recv_message :
    (len : ℕ) (size : Option ℕ) (pcb : TcpPcb)
    → ((recv_message len size pcb).pcb.send_queue ≡ pcb.send_queue)
      × ((recv_message len size pcb).pcb.send_buf ≡ pcb.send_buf)
unfolding take_in_order
send_queue-recv_message len none pcb = (refl, refl)
send_queue-recv_message len (some zero) pcb = (refl, refl)
send_queue-recv_message len (some (suc n)) pcb = elim (Bool-cases (ltb len (suc n))) [
  | inl e ↦ rw e (refl, refl)
  | inr e ↦ rw e (refl, refl)
]

send_queue-recv :
    (len : ℤ) (pcb : TcpPcb)
    → ((recv len pcb).pcb.send_queue ≡ pcb.send_queue)
      × ((recv len pcb).pcb.send_buf ≡ pcb.send_buf)
unfolding recv
send_queue-recv (negsuc n) pcb = (refl, refl)
send_queue-recv (pos len) pcb = send_queue-recv_message len (peek_size 0 pcb.recv_queue) pcb

pub recv-Sends {κ} :
    {Q : TcpPacket → Type κ} {net : List TcpPacket} (len : ℤ) (pcb : TcpPcb)
    → Sends Q net pcb
    → Sends Q net (recv len pcb).pcb
recv-Sends len pcb s =
    let same = send_queue-recv len pcb in
    record { queue = rw (same.0) s.queue; buf = rw (same.1) s.buf; way = s.way }

pub input-Sends {κ} :
    {Q : TcpPacket → Type κ} {net : List TcpPacket} (d : Datagram) (pcb : TcpPcb)
    → Sends Q net pcb
    → Sends Q net (input d pcb).1
unfolding input
input-Sends would_block pcb s = s
input-Sends broken pcb s = s
input-Sends {Q} (packet n p) pcb s = elim (Bool-cases (p.n_cmd == cmd_psh)) [
  | inl e ↦ rw e (record { queue = s.queue; buf = s.buf; way = s.way })
  | inr e ↦ rw e (elim (Bool-cases (p.n_cmd == cmd_ack)) [
    | inl f ↦ rw f (record {
      queue = s.queue;
      buf = unacked-All Q p.n_ack_seq pcb.send_buf s.buf;
      way = s.way;
    })
    | inr f ↦ rw f s
  ])
]
