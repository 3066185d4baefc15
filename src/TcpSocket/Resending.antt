-- ===== src/TcpSocket/Resending.antt =====
-- What `Update` of StudentManagementServer/TcpSocket.cpp sends again.
use school_information_manag.Prelude.{
  ℕ, ◌+◌, ◌≤◌, ◌<◌, ◌≡◌, refl, ap, List, [], ◌∷◌, ◌++◌, map, append-nil, arith, le→ltb, length, All,
  Bytes, pos,
}
use school_information_manag.TcpSocket.{
  OldMemory, TcpPacket, TcpPcb, send, send_acks, flush_one, flush, move_queue, update,
}
use school_information_manag.TcpSocket.Sending.{Segments, finish, segment_of, send-Segments}

-- The calls of `Update` at these ticks: all that goes out, and the block.
unfoldable pub updates : OldMemory → List ℕ → TcpPcb → List TcpPacket × TcpPcb
updates old [] pcb = ([], pcb)
updates old (now ∷ times) pcb =
    let (out, pcb') = update old now pcb in
    let (more, pcb'') = updates old times pcb' in (out ++ more, pcb'')

-- Sent before, and last looked at by `Update` at this tick.
abbrev pub SentAt : ℕ → TcpPacket → Type 0
SentAt last p = (0 < p.n_cnt) × (p.n_time ≡ last)

-- Nothing is queued or to be confirmed, and all that is unconfirmed was last looked at together.
pub record Quiet (last rto : ℕ) (pcb : TcpPcb) : Type 0 where
  pub queue : pcb.send_queue ≡ []
  pub acks : pcb.ack_list ≡ []
  pub timeout : pcb.n_rto ≡ rto
  pub buf : All (SentAt last) pcb.send_buf

-- Each tick comes at most the timeout after the one before it.
abbrev pub Spaced : ℕ → ℕ → List ℕ → Type 0
Spaced rto last [] = Unit
Spaced rto last (now ∷ times) = (30 ≤ now) × (now ≤ last + rto) × Spaced rto now times

flush_silent :
    (now rto last : ℕ) (ps : List TcpPacket)
    → now ≤ last + rto
    → All (SentAt last) ps
    → ((flush now rto ps).0 ≡ []) × All (SentAt now) (flush now rto ps).1
unfolding flush flush_one
flush_silent now rto last [] h s = (refl, tt)
flush_silent now rto last (p ∷ ps) h s =
    let rest = flush_silent now rto last ps h s.1 in
    (ground (arith, rest.0, s.0), (ground (arith, s.0), rest.1))

-- `Update` with nothing queued and nothing to confirm only looks through the send buffer.
update-flush :
    (old : OldMemory) (now : ℕ) (pcb : TcpPcb)
    → 30 ≤ now
    → pcb.send_queue ≡ []
    → pcb.ack_list ≡ []
    → update old now pcb ≡ (
      (flush now pcb.n_rto pcb.send_buf).0,
      record pcb {
        send_queue = [];
        ack_list = [];
        send_buf = (flush now pcb.n_rto pcb.send_buf).1;
      },
    )
unfolding update move_queue send_acks
update-flush old now pcb h q a =
    rw (le→ltb now 30 h) (rw a (rw q (rw (append-nil pcb.send_buf) refl)))

update_silent :
    (old : OldMemory) (now last rto : ℕ) (pcb : TcpPcb)
    → 30 ≤ now
    → now ≤ last + rto
    → Quiet last rto pcb
    → ((update old now pcb).0 ≡ []) × Quiet now rto (update old now pcb).1
update_silent old now last rto pcb t h s =
    rw (update-flush old now pcb t s.queue s.acks, s.timeout)
      (
        (flush_silent now rto last pcb.send_buf h s.buf).0,
        record {
          queue = refl;
          acks = refl;
          timeout = refl;
          buf = (flush_silent now rto last pcb.send_buf h s.buf).1;
        },
      )

updates_silent :
    (old : OldMemory) (times : List ℕ) (last rto : ℕ) (pcb : TcpPcb)
    → Spaced rto last times
    → Quiet last rto pcb
    → (updates old times pcb).0 ≡ []
unfolding updates
updates_silent old [] last rto pcb h s = refl
updates_silent old (now ∷ times) last rto pcb h s =
    let one = update_silent old now last rto pcb h.0 h.1 s in
    rw one.0 (updates_silent old times now rto (update old now pcb).1 h.2 one.1)

flush_first :
    (now rto : ℕ) (ps : List TcpPacket)
    → All (λ p. p.n_cnt ≡ 0) ps
    → ((flush now rto ps).0 ≡ ps) × All (SentAt now) (flush now rto ps).1
unfolding flush flush_one
flush_first now rto [] h = (refl, tt)
flush_first now rto (p ∷ ps) h =
    let rest = flush_first now rto ps h.1 in
    (ground (arith, rest.0, h.0), (ground (arith, h.0), rest.1))

Segments-unsent :
    {conv seq : ℕ} {msg : Bytes} {ps : List TcpPacket}
    → Segments conv seq msg ps
    → All (λ p. p.n_cnt ≡ 0) ps
Segments-unsent finish = tt
Segments-unsent (segment_of p e1 e2 e3 len pos_n max seg cnt text more) =
    (cnt, Segments-unsent more)

-- The first `Update` after packets were queued sends them all, once.
update_first :
    (old : OldMemory) (now : ℕ) (pcb : TcpPcb)
    → 30 ≤ now
    → pcb.send_buf ≡ []
    → pcb.ack_list ≡ []
    → All (λ p. p.n_cnt ≡ 0) pcb.send_queue
    → ((update old now pcb).0 ≡ pcb.send_queue) × Quiet now pcb.n_rto (update old now pcb).1
unfolding update move_queue send_acks
update_first old now pcb h u a s = rw (le→ltb now 30 h) (
    rw a (
      rw u (
        (flush_first now pcb.n_rto pcb.send_queue s).0,
        record {
          queue = refl;
          acks = refl;
          timeout = refl;
          buf = (flush_first now pcb.n_rto pcb.send_queue s).1;
        },
      )))

-- A block with nothing queued, unconfirmed or to be confirmed sends a message and then calls
-- `Update` at any ticks, the first at 30 or later and each of the others at most the timeout after
-- the one before it, and gets no acknowledgement: then every segment of the message goes out just
-- once, in order, and is never sent again, since each call also renews the time that the timeout is
-- measured from.
pub sent_only_once :
    (old old' : OldMemory) (msg : Bytes) (now : ℕ) (times : List ℕ) (pcb : TcpPcb)
    → pcb.send_queue ≡ []
    → pcb.send_buf ≡ []
    → pcb.ack_list ≡ []
    → 30 ≤ now
    → Spaced pcb.n_rto now times
    → (ps : List TcpPacket) × ((updates old'
          (now ∷ times)
          (send old msg (pos (length msg)) pcb).1).0
        ≡ ps)
      × Segments pcb.conv pcb.n_seq msg ps
unfolding updates
sent_only_once old old' msg now times pcb q u a h spaced =
    let (ps, sent, segments) = send-Segments old msg pcb in
    let queued : TcpPcb = record pcb { n_seq = pcb.n_seq + length ps; send_queue = ps } in
    let state : (send old msg (pos (length msg)) pcb).1 ≡ queued = rw sent (
      ap (λ l. record pcb { n_seq = pcb.n_seq + length ps; send_queue = l })
        (ap (λ (l : List TcpPacket). l ++ ps) q)) in
    let one = update_first old' now queued h u a (Segments-unsent segments) in
    (
      ps,
      rw state (
          rw one.0 (
            rw (updates_silent old' times now pcb.n_rto (update old' now queued).1 spaced one.1)
              (append-nil ps))),
      segments,
    )

-- Given up after more than 1000 sendings.
abbrev pub GivenUp : TcpPacket → Type 0
GivenUp p = 1000 < p.n_cnt

flush-GivenUp :
    (now rto : ℕ) (ps : List TcpPacket)
    → All GivenUp ps
    → ((flush now rto ps).0 ≡ []) × All GivenUp (flush now rto ps).1
unfolding flush flush_one
flush-GivenUp now rto [] h = (refl, tt)
flush-GivenUp now rto (p ∷ ps) h =
    let rest = flush-GivenUp now rto ps h.1 in
    (ground (arith, rest.0, h.0), (ground (arith, h.0), rest.1))

-- Sent before, not too often, and longer ago than the timeout.
abbrev pub Overdue : ℕ → ℕ → TcpPacket → Type 0
Overdue now rto p = (0 < p.n_cnt) × (p.n_cnt ≤ 1000) × (p.n_time + rto < now)

abbrev pub resent : ℕ → TcpPacket → TcpPacket
resent now p = record p { n_cnt = p.n_cnt + 1; n_time = now }

flush-Overdue :
    (now rto : ℕ) (ps : List TcpPacket)
    → All (Overdue now rto) ps
    → flush now rto ps ≡ (ps, map (resent now) ps)
unfolding flush flush_one
flush-Overdue now rto [] h = refl
flush-Overdue now rto (p ∷ ps) h = ground (arith, flush-Overdue now rto ps h.1, h.0)

-- At tick 30 or later, with nothing queued or to be confirmed, when every unconfirmed packet has
-- been sent 1 to 1000 times and was last looked at longer ago than the timeout, `Update` sends them
-- all again, in order, counts each sending and notes the tick.
pub update_resends :
    (old : OldMemory) (now : ℕ) (pcb : TcpPcb)
    → 30 ≤ now
    → pcb.send_queue ≡ []
    → pcb.ack_list ≡ []
    → All (Overdue now pcb.n_rto) pcb.send_buf
    → ((update old now pcb).0 ≡ pcb.send_buf)
      × ((update old now pcb).1.send_buf ≡ map (resent now) pcb.send_buf)
update_resends old now pcb h q a d =
    rw (update-flush old now pcb h q a)
      (rw (flush-Overdue now pcb.n_rto pcb.send_buf d) (refl, refl))

-- At tick 30 or later, with nothing queued or to be confirmed, when every unconfirmed packet has
-- been sent more than 1000 times, `Update` sends nothing, and that stays so.
pub update_gives_up :
    (old : OldMemory) (now : ℕ) (pcb : TcpPcb)
    → 30 ≤ now
    → pcb.send_queue ≡ []
    → pcb.ack_list ≡ []
    → All GivenUp pcb.send_buf
    → ((update old now pcb).0 ≡ []) × All GivenUp (update old now pcb).1.send_buf
update_gives_up old now pcb h q a d =
    rw (update-flush old now pcb h q a) (flush-GivenUp now pcb.n_rto pcb.send_buf d)
