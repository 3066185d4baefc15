-- ===== src/TcpSocket/Sending.antt =====
-- What `Send` puts into the send queue.
use school_information_manag.Prelude.{
  ℕ, zero, suc, ◌+◌, ◌-◌, ◌*◌, ◌≤◌, ◌<◌, ◌≡◌, refl, sym, ap, ◌∙◌, List, [], ◌∷◌, ◌++◌, append-nil,
  append_assoc, arith, length, take, drop, take-append-drop, length-take, length-drop, drop-nil,
  drop-all, Bytes, pos,
}
use school_information_manag.TcpSocket.{
  OldMemory, TcpPacket, TcpPcb, max_part, cmd_psh, segment_count, part_len, segment, send_loop,
  send,
}

-- The segments of a message: each full but perhaps the last, numbered down to 0, with sequence
-- numbers that go up by one, and with the message's bytes.
pub data Segments (conv : ℕ) : ℕ → Bytes → List TcpPacket → Type 0 where
  finish : {seq : ℕ} → Segments conv seq [] []
  segment_of :
      {seq : ℕ} {msg rest : Bytes} {ps : List TcpPacket} (p : TcpPacket)
      → p.conv ≡ conv
      → p.n_cmd ≡ cmd_psh
      → p.n_seq ≡ seq
      → p.n_len ≡ length p.bytes
      → 0 < p.n_len
      → p.n_len ≤ max_part
      → p.n_segment ≡ length ps
      → p.n_cnt ≡ 0
      → msg ≡ p.bytes ++ rest
      → Segments conv (seq + 1) rest ps
      → Segments conv seq msg (p ∷ ps)

drop-add : (n k : ℕ) (xs : Bytes) → drop (n + k) xs ≡ drop k (drop n xs)
drop-add zero k xs = ap (λ j. drop j xs) (omega arith)
drop-add (suc n) k [] = rw (drop-nil k) (drop-nil (suc n + k))
drop-add (suc n) k (x ∷ xs) =
    let e : suc n + k ≡ suc (n + k) = omega arith in rw e (drop-add n k xs)

-- What a number of rounds of the loop leave: everything sent, and the segments queued in order.
pub record Queues (left : ℕ) (msg : Bytes) (pcb : TcpPcb) (len : ℕ) (r : ℕ × TcpPcb) : Type 0 where
  pub packets : List TcpPacket
  pub result :
      r ≡ (len, record pcb { n_seq = pcb.n_seq + left; send_queue = pcb.send_queue ++ packets })
  pub count : length packets ≡ left
  pub segments : Segments pcb.conv pcb.n_seq msg packets

module _ (old : OldMemory) (buf : Bytes) where
  -- The rounds left are those that the rest of the message needs.
  abbrev Fits : ℕ → ℕ → Type 0
  Fits left sent =
      (sent ≤ length buf)
      × (length buf - sent ≤ max_part * left)
      × (max_part * left < (length buf - sent) + max_part)

  queued_path :
      {a a' : ℕ} {q q' : List TcpPacket} {n n' : ℕ} (pcb : TcpPcb)
      → n ≡ n'
      → a ≡ a'
      → q ≡ q'
      → ◌≡◌ {A = ℕ × TcpPcb}
          (n, record pcb { n_seq = a; send_queue = q })
          (n', record pcb { n_seq = a'; send_queue = q' })
  queued_path pcb l e f = λ i. (l i, record pcb { n_seq = e i; send_queue = f i })

  send_loop-zero :
      (sent : ℕ) (pcb : TcpPcb)
      → Fits zero sent
      → Queues zero (drop sent buf) pcb (length buf) (send_loop old buf (length buf) zero sent pcb)
  unfolding send_loop
  send_loop-zero sent pcb h = record {
    packets = [];
    result = queued_path pcb (omega arith) (omega arith) (sym (append-nil pcb.send_queue));
    count = refl;
    segments = rw (drop-all sent buf (omega arith)) finish;
  }

  next_block : ℕ → ℕ → TcpPcb → TcpPcb
  next_block left sent pcb = record pcb {
    n_seq = pcb.n_seq + 1;
    send_queue = pcb.send_queue ++ segment old pcb buf (length buf) sent left ∷ [];
  }

  part_of_take :
      (sent : ℕ)
      → sent ≤ length buf
      → length (take (part_len (length buf) sent) (drop sent buf)) ≡ part_len (length buf) sent
  part_of_take sent h =
      ground (arith, length-take (part_len (length buf) sent) (drop sent buf), length-drop sent buf)

  send_loop-suc :
      (left sent : ℕ) (pcb : TcpPcb)
      → Fits (suc left) sent
      → Queues left
          (drop (sent + part_len (length buf) sent) buf)
          (next_block left sent pcb)
          (length buf)
          (send_loop old buf
            (length buf)
            left
            (sent + part_len (length buf) sent)
            (next_block left sent pcb))
      → Queues
          (suc left)
          (drop sent buf)
          pcb
          (length buf)
          (send_loop old buf (length buf) (suc left) sent pcb)
  unfolding send_loop next_block segment
  send_loop-suc left sent pcb h q = record {
    packets = segment old pcb buf (length buf) sent left ∷ q.packets;
    result =
        q.result
        ∙ queued_path pcb refl (omega arith) (
            append_assoc pcb.send_queue (segment old pcb buf (length buf) sent left ∷ [])
              q.packets);
    count = omega (arith, q.count);
    segments =
        segment_of _ refl refl refl (sym (part_of_take sent (omega arith))) (ground arith)
          (ground arith) (sym q.count) refl
          (sym (
            rw (drop-add sent (part_len (length buf) sent) buf)
              (take-append-drop (part_len (length buf) sent) (drop sent buf))))
          q.segments;
  }

  send_loop-Queues :
      (left sent : ℕ) (pcb : TcpPcb)
      → Fits left sent
      → Queues left (drop sent buf) pcb (length buf) (send_loop old buf (length buf) left sent pcb)
  send_loop-Queues zero sent pcb h = send_loop-zero sent pcb h
  send_loop-Queues (suc left) sent pcb h = send_loop-suc left sent pcb h (
      send_loop-Queues left (sent + part_len (length buf) sent) (next_block left sent pcb)
        (ground arith, ground arith, ground arith))

  -- The count of segments is what the loop needs.
  segment_count-Fits : Fits (segment_count (length buf)) 0
  segment_count-Fits = (omega arith, ground arith, ground arith)

  -- `Send` of a whole buffer returns its length and queues the segments of exactly that message:
  -- 1 to 1368 bytes each, in order, numbered down to 0, with consecutive sequence numbers from the
  -- block's next one on. The block's number moves past them, and nothing else in it changes.
  pub send-Segments :
      (pcb : TcpPcb)
      → (packets : List TcpPacket) × (send old buf (pos (length buf)) pcb ≡ (
        pos (length buf),
        record pcb { n_seq = pcb.n_seq + length packets; send_queue = pcb.send_queue ++ packets },
      ))
        × Segments pcb.conv pcb.n_seq buf packets
  unfolding send
  send-Segments pcb =
      let q : Queues (segment_count (length buf)) buf pcb (length buf)
          (send_loop old buf (length buf) (segment_count (length buf)) 0 pcb) =
        send_loop-Queues (segment_count (length buf)) 0 pcb segment_count-Fits in
      (
        q.packets,
        ap (λ (r : ℕ × TcpPcb). (pos r.0, r.1))
            (q.result ∙ queued_path pcb refl (ap (λ k. pcb.n_seq + k) (sym q.count)) refl),
        q.segments,
      )
