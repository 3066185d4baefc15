-- ===== src/TcpSocket/Acks.antt =====
-- Acknowledgements: what a block answers to the data that came, and what an answer removes.
use school_information_manag.Prelude.{
  ℕ, ◌+◌, ◌≤◌, ◌<◌, ◌≡◌, refl, sym, ap, ◌∙◌, ◌⊎◌, inl, inr, ◌≢◌, false, suc, subst, List, [], ◌∷◌,
  ◌++◌, map, append_assoc, append-nil, arith, ◌==◌, Bool-cases, le→ltb, All, pos, length,
}
use school_information_manag.TcpSocket.{
  OldMemory, TcpPacket, TcpPcb, packet, send_ack, send_acks, flush_one, flush, move_queue, update,
  unacked, input, cmd_ack,
}
use school_information_manag.TcpSocket.Order.{Event, inputs, step, run}

-- The acknowledgements of these numbers, the first with the block's number `seq`.
abbrev pub ack_of : OldMemory → ℕ → ℕ → ℕ → TcpPacket
ack_of old conv seq ack = record (old seq) {
  conv = conv;
  n_cmd = cmd_ack;
  n_len = 0;
  n_seq = seq;
  n_ack_seq = ack;
  n_segment = 0;
}

abbrev pub acks_of : OldMemory → ℕ → ℕ → List ℕ → List TcpPacket
acks_of old conv seq [] = []
acks_of old conv seq (ack ∷ acks) = ack_of old conv seq ack ∷ acks_of old conv (seq + 1) acks

pub send_acks_lem :
    (old : OldMemory) (pcb : TcpPcb) (seqs : List ℕ)
    → send_acks old pcb seqs ≡ record pcb {
      n_seq = pcb.n_seq + length seqs;
      send_queue = pcb.send_queue ++ acks_of old pcb.conv pcb.n_seq seqs;
    }
unfolding send_acks send_ack
send_acks_lem old pcb [] = λ i. record pcb {
  n_seq = ap (λ n. n) {x = pcb.n_seq} {y = pcb.n_seq + 0} (omega arith) i;
  send_queue = sym (append-nil pcb.send_queue) i;
}
send_acks_lem old pcb (seq ∷ seqs) = send_acks_lem old (send_ack old pcb seq) seqs ∙ λ i.
    record pcb {
      n_seq =
          ap (λ n. n) {x = pcb.n_seq + 1 + length seqs} {y = pcb.n_seq + suc (length seqs)}
            (omega arith) i;
      send_queue =
          append_assoc pcb.send_queue (ack_of old pcb.conv pcb.n_seq seq ∷ [])
            (acks_of old pcb.conv (pcb.n_seq + 1) seqs) i;
    }

flush-acks_of :
    (old : OldMemory) (now rto conv seq : ℕ) (seqs : List ℕ)
    → (((k : ℕ) → (old k).n_cnt ≡ 0)
        → (flush now rto (acks_of old conv seq seqs)).0 ≡ acks_of old conv seq seqs)
      × (((k : ℕ) → 1000 < (old k).n_cnt) → (flush now rto (acks_of old conv seq seqs)).0 ≡ [])
unfolding flush flush_one
flush-acks_of old now rto conv seq [] = ((λ h. refl), (λ h. refl))
flush-acks_of old now rto conv seq (ack ∷ acks) =
    let rest = flush-acks_of old now rto conv (seq + 1) acks in
    ((λ h. ground (arith, rest.0 h, h seq)), (λ h. ground (arith, rest.1 h, h seq)))

update-acks :
    (old : OldMemory) (now : ℕ) (pcb : TcpPcb)
    → 30 ≤ now
    → pcb.send_queue ≡ []
    → pcb.send_buf ≡ []
    → (update old now pcb).0 ≡ (flush now pcb.n_rto (acks_of old pcb.conv pcb.n_seq pcb.ack_list)).0
unfolding update move_queue
update-acks old now pcb h q u =
    rw (le→ltb now 30 h) (rw (send_acks_lem old pcb pcb.ack_list) (rw q (rw u refl)))

-- A block with nothing queued and nothing unconfirmed answers, at tick 30 or later: where the memory
-- of the acknowledgements, whose count of sendings `SendAck` leaves unset, holds 0 there, `Update`
-- sends exactly one acknowledgement for each number to be confirmed, in order, under consecutive
-- numbers of its own.
pub update_answers :
    (old : OldMemory) (now : ℕ) (pcb : TcpPcb)
    → 30 ≤ now
    → pcb.send_queue ≡ []
    → pcb.send_buf ≡ []
    → ((k : ℕ) → (old k).n_cnt ≡ 0)
    → (update old now pcb).0 ≡ acks_of old pcb.conv pcb.n_seq pcb.ack_list
update_answers old now pcb h q u z =
    let out = flush-acks_of old now pcb.n_rto pcb.conv pcb.n_seq pcb.ack_list in
    update-acks old now pcb h q u ∙ out.0 z

-- A block with nothing queued and nothing unconfirmed sends no acknowledgement at all, at tick 30 or
-- later, where the memory of the acknowledgements, whose count of sendings `SendAck` leaves unset,
-- holds more than 1000 there.
pub update_silent :
    (old : OldMemory) (now : ℕ) (pcb : TcpPcb)
    → 30 ≤ now
    → pcb.send_queue ≡ []
    → pcb.send_buf ≡ []
    → ((k : ℕ) → 1000 < (old k).n_cnt)
    → (update old now pcb).0 ≡ []
update_silent old now pcb h q u z =
    let out = flush-acks_of old now pcb.n_rto pcb.conv pcb.n_seq pcb.ack_list in
    update-acks old now pcb h q u ∙ out.1 z

-- One of the packets has this number.
abbrev pub HasSeq : ℕ → List TcpPacket → Type 0
HasSeq n [] = ⊥
HasSeq n (p ∷ ps) = (n ≡ p.n_seq) ⊎ HasSeq n ps

HasSeq-tail :
    (n : ℕ) (p : TcpPacket) (ps : List TcpPacket)
    → (n == p.n_seq) ≡ false
    → HasSeq n (p ∷ ps)
    → HasSeq n ps
HasSeq-tail n p ps e (inl f) = absurd (ground arith)
HasSeq-tail n p ps e (inr f) = f

unacked-HasSeq :
    (p : TcpPacket) (ps qs : List TcpPacket)
    → All (λ q. HasSeq q.n_seq (p ∷ ps)) qs
    → All (λ q. HasSeq q.n_seq ps) (unacked p.n_seq qs)
unfolding unacked
unacked-HasSeq p ps [] h = tt
unacked-HasSeq p ps (q ∷ qs) h = elim (Bool-cases (q.n_seq == p.n_seq)) [
  | inl e ↦ rw e (unacked-HasSeq p ps qs h.1)
  | inr e ↦ rw e (HasSeq-tail q.n_seq p ps e h.0, unacked-HasSeq p ps qs h.1)
]

All-HasSeq-nil : (qs : List TcpPacket) → All (λ q. HasSeq q.n_seq []) qs → qs ≡ []
All-HasSeq-nil [] h = refl
All-HasSeq-nil (q ∷ qs) h = absurd h.0

-- An acknowledgement of each of these packets, in a datagram of `size` bytes.
abbrev pub confirmations : OldMemory → ℕ → ℕ → List TcpPacket → List Event
confirmations old size conv = map (λ p. inputs (packet size (ack_of old conv 0 p.n_seq)))

run-confirmations :
    (old : OldMemory) (size conv : ℕ) (ps : List TcpPacket) (pcb : TcpPcb)
    → All (λ q. HasSeq q.n_seq ps) pcb.send_buf
    → run pcb (confirmations old size conv ps) ≡ record pcb { send_buf = [] }
unfolding run step input
run-confirmations old size conv [] pcb h =
    λ i. record pcb { send_buf = All-HasSeq-nil pcb.send_buf h i }
run-confirmations old size conv (p ∷ ps) pcb h =
    run-confirmations old size conv ps (record pcb { send_buf = unacked p.n_seq pcb.send_buf })
      (unacked-HasSeq p ps pcb.send_buf h)

HasSeq-append : (n : ℕ) (ps qs : List TcpPacket) → HasSeq n qs → HasSeq n (ps ++ qs)
HasSeq-append n [] qs h = h
HasSeq-append n (p ∷ ps) qs h = inr (HasSeq-append n ps qs h)

All-HasSeq : (ps qs : List TcpPacket) → All (λ q. HasSeq q.n_seq (ps ++ qs)) qs
All-HasSeq ps [] = tt
All-HasSeq ps (q ∷ qs) = (
  HasSeq-append q.n_seq ps (q ∷ qs) (inl refl),
  subst (λ l. All (λ r. HasSeq r.n_seq l) qs) (append_assoc ps (q ∷ []) qs)
      (All-HasSeq (ps ++ q ∷ []) qs),
)

-- Once an acknowledgement of every unconfirmed packet has come, nothing is unconfirmed; nothing else
-- in the block changes.
pub all_confirmed :
    (old : OldMemory) (size conv : ℕ) (pcb : TcpPcb)
    → run pcb (confirmations old size conv pcb.send_buf) ≡ record pcb { send_buf = [] }
all_confirmed old size conv pcb =
    run-confirmations old size conv pcb.send_buf pcb (All-HasSeq [] pcb.send_buf)

unacked_others : (n : ℕ) (ps : List TcpPacket) → All (λ p. p.n_seq ≢ n) ps → unacked n ps ≡ ps
unfolding unacked
unacked_others n [] h = refl
unacked_others n (p ∷ ps) h = ground (arith, unacked_others n ps h.1, h.0)

unacked_middle :
    (p : TcpPacket) (before after : List TcpPacket)
    → All (λ q. q.n_seq ≢ p.n_seq) before
    → All (λ q. q.n_seq ≢ p.n_seq) after
    → unacked p.n_seq (before ++ p ∷ after) ≡ before ++ after
unfolding unacked
unacked_middle p [] after h k = ground (arith, unacked_others p.n_seq after k)
unacked_middle p (q ∷ before) after h k = ground (arith, unacked_middle p before after h.1 k, h.0)

-- An acknowledgement removes exactly the packet that it names from what is unconfirmed, where no
-- other there has its number; the others stay in order, and nothing else in the block changes.
pub input_confirms :
    (size : ℕ) (a p : TcpPacket) (before after : List TcpPacket) (pcb : TcpPcb)
    → a.n_cmd ≡ cmd_ack
    → a.n_ack_seq ≡ p.n_seq
    → pcb.send_buf ≡ before ++ p ∷ after
    → All (λ q. q.n_seq ≢ p.n_seq) before
    → All (λ q. q.n_seq ≢ p.n_seq) after
    → input (packet size a) pcb ≡ (pos size, record pcb { send_buf = before ++ after })
unfolding input
input_confirms size a p before after pcb c e b h k =
    rw c (rw e (rw b (rw (unacked_middle p before after h k) refl)))
