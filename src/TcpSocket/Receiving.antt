-- ===== src/TcpSocket/Receiving.antt =====
-- `PeekSize` and `Recv` on a queue that begins with the segments of a message.
use school_information_manag.Prelude.{
  ℕ, suc, ◌+◌, ◌≤◌, ◌<◌, ◌≡◌, refl, sym, ap, ◌∙◌, some, List, [], ◌∷◌, ◌++◌, arith, lt→ltb, length,
  take, length-append, take-all, Bytes, pos, negsuc, le→ltb,
}
use school_information_manag.TcpSocket.{
  TcpPacket, TcpPcb, peek_size, copy_message, take_in_order, recv,
}
use school_information_manag.TcpSocket.Sending.{Segments, finish, segment_of}

pub peek_size-cons-zero :
    (k : ℕ) (p : TcpPacket) (ps : List TcpPacket)
    → p.n_segment ≡ 0
    → peek_size k (p ∷ ps) ≡ some (k + p.n_len)
unfolding peek_size
peek_size-cons-zero k p ps h = ground arith

pub peek_size-cons-suc :
    (k : ℕ) (p : TcpPacket) (ps : List TcpPacket)
    → 0 < p.n_segment
    → peek_size k (p ∷ ps) ≡ peek_size (k + p.n_len) ps
unfolding peek_size
peek_size-cons-suc k p ps h = ground arith

pub copy_message_done :
    (size : ℕ) (ps : List TcpPacket) → copy_message size size ps ≡ ([], size, ps)
unfolding copy_message
copy_message_done size [] = refl
copy_message_done size (p ∷ ps) = ground arith

pub copy_message_more :
    (size copied : ℕ) (p : TcpPacket) (ps : List TcpPacket) (bs : Bytes) (n : ℕ)
    (rest : List TcpPacket)
    → copied < size
    → copy_message size (copied + p.n_len) ps ≡ (bs, n, rest)
    → copy_message size copied (p ∷ ps) ≡ (take p.n_len p.bytes ++ bs, n, rest)
unfolding copy_message
copy_message_more size copied p ps bs n rest h e = rw (lt→ltb copied size h, e)

pub recv_message_lem :
    (rest : List TcpPacket) (msg : Bytes) (len : ℕ) (pcb : TcpPcb)
    → peek_size 0 pcb.recv_queue ≡ some (length msg)
    → copy_message (length msg) 0 pcb.recv_queue ≡ (msg, length msg, rest)
    → 0 < length msg
    → length msg ≤ len
    → recv (pos len) pcb ≡ record {
      code = pos (length msg);
      copied = msg;
      pcb = take_in_order (record pcb { recv_queue = rest });
    }
unfolding recv
recv_message_lem rest [] len pcb p c h k = absurd (omega arith)
recv_message_lem rest (b ∷ bs) len pcb p c h k = rw p (rw c (rw (le→ltb len (suc (length bs)) k)))

module _ {conv : ℕ} (rest : List TcpPacket) where
  pub peek_size-Segments :
      (k seq : ℕ) (msg : Bytes) (ps : List TcpPacket)
      → 0 < length msg
      → Segments conv seq msg ps
      → peek_size k (ps ++ rest) ≡ some (k + length msg)
  peek_size-Segments k seq msg ps h finish = absurd (omega arith)
  peek_size-Segments k seq msg ps h
        (segment_of {rest = msg'} p e1 e2 e3 len pos_n max seg cnt text finish) =
      peek_size-cons-zero k p rest seg
      ∙ ap some (omega (arith, len, ap length text, length-append p.bytes []))
  peek_size-Segments k seq msg ps h
        (segment_of {rest = msg'} p e1 e2 e3 len pos_n max seg cnt text
          (segment_of {rest = msg2} {ps = qs} q f1 f2 f3 len2 pos2 max2 seg2 cnt2 text2 more)) =
      peek_size-cons-suc k p (q ∷ qs ++ rest) (omega (arith, seg))
      ∙ peek_size-Segments (k + p.n_len) (seq + 1) msg' (q ∷ qs)
          (omega (arith, ap length text2, length-append q.bytes msg2))
          (segment_of q f1 f2 f3 len2 pos2 max2 seg2 cnt2 text2 more)
      ∙ ap some (omega (arith, len, ap length text, length-append p.bytes msg'))

  pub copy_message-Segments :
      (size copied seq : ℕ) (msg : Bytes) (ps : List TcpPacket)
      → size ≡ copied + length msg
      → Segments conv seq msg ps
      → copy_message size copied (ps ++ rest) ≡ (msg, size, rest)
  copy_message-Segments size copied seq msg ps h finish =
      ap (λ c. copy_message size c rest) (omega (arith, h)) ∙ copy_message_done size rest
  copy_message-Segments size copied seq msg ps h
        (segment_of {rest = msg'} {ps = qs} p e1 e2 e3 len pos_n max seg cnt text more) =
      let sizes : length msg ≡ length p.bytes + length msg' =
        ap length text ∙ length-append p.bytes msg' in
      copy_message_more size copied p (qs ++ rest) msg' size rest (omega (arith, sizes)) (
        copy_message-Segments size (copied + p.n_len) (seq + 1) msg' qs (omega (arith, sizes)) more)
      ∙ ap (λ (bs : Bytes). (bs, size, rest))
          (rw len (rw (take-all (length p.bytes) p.bytes (omega arith)) (sym text)))

  pub peek_message :
      (seq : ℕ) (msg : Bytes) (ps : List TcpPacket) (queue : List TcpPacket)
      → Segments conv seq msg ps
      → queue ≡ ps ++ rest
      → 0 < length msg
      → peek_size 0 queue ≡ some (length msg)
  peek_message seq msg ps queue s e h =
      ap (peek_size 0) e ∙ peek_size-Segments 0 seq msg ps h s ∙ ap some (omega arith)

  -- `Recv` on a queue that begins with all the segments of a message, into a buffer that is large
  -- enough, copies exactly that message and returns its length; the segments leave the queue, behind
  -- whose rest the packets that are next in order are then put.
  pub recv-Segments :
      (seq : ℕ) (msg : Bytes) (ps : List TcpPacket) (len : ℕ) (pcb : TcpPcb)
      → Segments conv seq msg ps
      → pcb.recv_queue ≡ ps ++ rest
      → 0 < length msg
      → length msg ≤ len
      → recv (pos len) pcb ≡ record {
        code = pos (length msg);
        copied = msg;
        pcb = take_in_order (record pcb { recv_queue = rest });
      }
  recv-Segments seq msg ps len pcb s e h k =
      recv_message_lem rest msg len pcb
        (ap (peek_size 0) e ∙ peek_size-Segments 0 seq msg ps h s ∙ ap some (omega arith))
        (ap (copy_message (length msg) 0) e
          ∙ copy_message-Segments (length msg) 0 seq msg ps (omega arith) s)
        h k

-- Into a buffer that is too small nothing is copied and nothing is lost: the result is -2 and the
-- block is as it was.
pub recv_too_small :
    {conv : ℕ} (rest : List TcpPacket) (seq : ℕ) (msg : Bytes) (ps : List TcpPacket) (len : ℕ)
    (pcb : TcpPcb)
    → Segments conv seq msg ps
    → pcb.recv_queue ≡ ps ++ rest
    → len < length msg
    → recv (pos len) pcb ≡ record { code = negsuc 1; copied = []; pcb = pcb }
unfolding recv
recv_too_small rest seq [] ps len pcb s e h = absurd (omega arith)
recv_too_small rest seq (b ∷ bs) ps len pcb s e h =
    rw (peek_message rest seq (b ∷ bs) ps pcb.recv_queue s e (omega arith))
      (rw (lt→ltb len (suc (length bs)) h))
