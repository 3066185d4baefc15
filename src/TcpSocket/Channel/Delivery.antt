-- ===== src/TcpSocket/Channel/Delivery.antt =====
-- `Recv` (StudentManagementServer/TcpSocket.cpp) on the receiving side of a link.
use school_information_manag.Prelude.{
  ℕ, zero, suc, ◌+◌, ◌≤◌, ◌<◌, ◌≡◌, refl, sym, ap, ◌∙◌, subst, inl, inr, some, none, List, [], ◌∷◌,
  ◌++◌, append_assoc, arith, ltb, Bool-cases, length, length-append, All, Bytes, ℤ, pos, negsuc,
  lt→ltb,
}
use school_information_manag.TcpSocket.{TcpPacket, TcpPcb, take_in_order, peek_size, Recvd, recv}
use school_information_manag.TcpSocket.Receiving.{recv_message_lem}
use school_information_manag.TcpSocket.Parts.{
  Part, parts_of, length-parts_of, Message, Stream, silent, message, Counted,
}
use school_information_manag.TcpSocket.Reading.{early, ready, peek_part, copy_part}
use school_information_manag.TcpSocket.Channel.{messages_from}
use school_information_manag.TcpSocket.Channel.Sender.{Carries}
use school_information_manag.TcpSocket.Channel.Receiver.{IsReceiver, take_in_order-IsReceiver}

recv_nothing :
    (len : ℕ) (pcb : TcpPcb)
    → peek_size 0 pcb.recv_queue ≡ none
    → recv (pos len) pcb ≡ record { code = pos 0; copied = []; pcb = take_in_order pcb }
unfolding recv
recv_nothing len pcb e = rw e refl

recv_small :
    (len size : ℕ) (pcb : TcpPcb)
    → peek_size 0 pcb.recv_queue ≡ some size
    → len < size
    → recv (pos len) pcb ≡ record { code = negsuc 1; copied = []; pcb = pcb }
unfolding recv
recv_small len zero pcb e h = absurd (omega arith)
recv_small len (suc n) pcb e h = rw e (rw (lt→ltb len (suc n) h))

peek_size-none :
    (q : List TcpPacket) (rest : List Part) → [] ≡ parts_of q ++ rest → peek_size 0 q ≡ none
unfolding peek_size
peek_size-none [] rest e = refl
peek_size-none (p ∷ q) rest e = absurd (omega (arith, ap length e))

messages_from_some : (n : ℕ) (bs : Bytes) → 0 < n → messages_from (pos n) bs ≡ bs ∷ []
messages_from_some zero bs h = absurd (omega arith)
messages_from_some (suc n) bs h = refl

-- What a call of `Recv` leaves to be delivered.
pub record Received (parts : List Part) (left : List Bytes) (r : Recvd) : Type 0 where
  pub left' : List Bytes
  pub now : left ≡ messages_from r.code r.copied ++ left'
  pub receiver : IsReceiver parts left' r.pcb

-- The message leaves the queue.
consumed :
    (parts : List Part) (msgs : List Bytes) (front rest ps qs tail : List Part) (q : List TcpPacket)
    (pcb : TcpPcb)
    → parts ≡ front ++ (parts_of pcb.recv_queue ++ rest)
    → pcb.n_recv_seq ≡ length front + length pcb.recv_queue
    → All (Carries parts) pcb.recv_buf
    → ps ++ qs ≡ parts_of pcb.recv_queue ++ rest
    → Stream (length front + length ps) msgs qs
    → parts_of pcb.recv_queue ≡ ps ++ tail
    → qs ≡ tail ++ rest
    → parts_of q ≡ tail
    → IsReceiver parts msgs (record pcb { recv_queue = q })
consumed parts msgs front rest ps qs tail q pcb w n b e s f g k =
    let after : qs ≡ parts_of q ++ rest = g ∙ ap (λ l. l ++ rest) (sym k) in
    record {
      front = front ++ ps;
      rest = rest;
      whole =
          w
          ∙ ap (◌++◌ front) (sym e ∙ ap (◌++◌ ps) after)
          ∙ sym (append_assoc front ps (parts_of q ++ rest));
      expects = omega (
        arith,
        n,
        length-append front ps,
        ap length f,
        length-append ps tail,
        ap length k,
        length-parts_of q,
        length-parts_of pcb.recv_queue,
      );
      buf = b;
      stream =
          subst (Stream (length (front ++ ps)) msgs) after
            (subst (λ i. Stream i msgs qs) (sym (length-append front ps)) s);
    }

recv_next :
    (len : ℕ) (parts : List Part) (left : List Bytes) (all : List Part) (pcb : TcpPcb)
    (h : IsReceiver parts left pcb)
    → Counted 0 parts
    → Stream (length h.front) left all
    → all ≡ parts_of pcb.recv_queue ++ h.rest
    → Received parts left (recv (pos len) pcb)
recv_next len parts [] all pcb h c silent e =
    rw (recv_nothing len pcb (peek_size-none pcb.recv_queue h.rest e))
      (record { left' = []; now = refl; receiver = take_in_order-IsReceiver parts [] pcb c h })
recv_next len parts (msg ∷ msgs) all pcb h c (message {ps} {qs} some_byte m f s) e =
    elim (peek_part 0 pcb.recv_queue h.rest qs some_byte m (sym f ∙ e)) [
      | early n k ↦ rw (recv_nothing len pcb n) (record {
        left' = msg ∷ msgs;
        now = refl;
        receiver = take_in_order-IsReceiver parts (msg ∷ msgs) pcb c h;
      })
      | ready n tail g k ↦
          let size : peek_size 0 pcb.recv_queue ≡ some (length msg) = n ∙ ap some (omega arith) in
          let (q, copy, t) = copy_part (length msg) 0 pcb.recv_queue tail (omega arith) m g in
          elim (Bool-cases (ltb len (length msg))) [
            | inl small ↦
                rw (recv_small len (length msg) pcb size (ground arith))
                  (record { left' = msg ∷ msgs; now = refl; receiver = h })
            | inr fits ↦
                rw (recv_message_lem q msg len pcb size copy some_byte (ground arith)) (record {
                  left' = msgs;
                  now = rw (messages_from_some (length msg) msg some_byte) refl;
                  receiver =
                      take_in_order-IsReceiver parts msgs (record pcb { recv_queue = q }) c
                        (consumed parts msgs h.front h.rest ps qs tail q pcb h.whole h.expects h.buf
                          (sym f ∙ e) s g k t);
                })
          ]
    ]

pub recv-Received :
    (len : ℤ) (parts : List Part) (left : List Bytes) (pcb : TcpPcb)
    → Counted 0 parts
    → IsReceiver parts left pcb
    → Received parts left (recv len pcb)
recv-Received (negsuc n) parts left pcb c h =
    unfold recv in record { left' = left; now = refl; receiver = h }
recv-Received (pos len) parts left pcb c h = recv_next len parts left _ pcb h c h.stream refl

first_message : Bytes → List Bytes → Bytes
first_message default [] = default
first_message default (m ∷ ms) = m

length-zero : (xs : List Part) → length xs ≡ 0 → xs ≡ []
length-zero [] e = refl
length-zero (x ∷ xs) e = absurd (omega (arith, e))

-- With every part of a message in the queue, `Recv` into a buffer that is large enough delivers it.
recv_all :
    (len : ℕ) (msg : Bytes) (pcb : TcpPcb) {ps : List Part} {seq : ℕ} (qs : List Part)
    → 0 < length msg
    → length msg ≤ len
    → Message seq msg ps
    → ps ++ qs ≡ parts_of pcb.recv_queue ++ []
    → ((recv (pos len) pcb).code ≡ pos (length msg)) × ((recv (pos len) pcb).copied ≡ msg)
recv_all len msg pcb {ps} qs h k m e = elim (peek_part 0 pcb.recv_queue [] qs h m e) [
  | early n short ↦ absurd (
      omega (
        arith,
        short,
        ap length e,
        length-append ps qs,
        length-append (parts_of pcb.recv_queue) [],
        length-parts_of pcb.recv_queue,
      ))
  | ready n tail g t ↦
      let (q, copy, t) = copy_part (length msg) 0 pcb.recv_queue tail (omega arith) m g in
      rw (recv_message_lem q msg len pcb (n ∙ ap some (omega arith)) copy h k) (refl, refl)
]

recv_first :
    (len : ℕ) (msg : Bytes) (msgs left : List Bytes) (pcb : TcpPcb) {all : List Part} {seq : ℕ}
    → left ≡ msg ∷ msgs
    → length msg ≤ len
    → Stream seq left all
    → all ≡ parts_of pcb.recv_queue ++ []
    → ((recv (pos len) pcb).code ≡ pos (length msg)) × ((recv (pos len) pcb).copied ≡ msg)
unfolding first_message
recv_first len msg msgs left pcb l k silent e = absurd (omega (arith, ap length l))
recv_first len msg msgs left pcb l k (message {msg = first} {qs} h m f s) e =
    let same : first ≡ msg = ap (first_message []) l in
    rw⁻¹ same (recv_all len first pcb qs h (rw same k) m (sym f ∙ e))

-- `Recv` when the receiver expects a number that no part has yet.
pub recv-IsReceiver_all :
    (len : ℕ) (msg : Bytes) (msgs : List Bytes) (parts : List Part) (pcb : TcpPcb)
    → IsReceiver parts (msg ∷ msgs) pcb
    → pcb.n_recv_seq ≡ length parts
    → length msg ≤ len
    → ((recv (pos len) pcb).code ≡ pos (length msg)) × ((recv (pos len) pcb).copied ≡ msg)
recv-IsReceiver_all len msg msgs parts pcb h n k =
    let held = parts_of pcb.recv_queue in
    let nothing : h.rest ≡ [] = length-zero h.rest (
      omega (
        arith,
        n,
        h.expects,
        ap length h.whole,
        length-append h.front (held ++ h.rest),
        length-append held h.rest,
        length-parts_of pcb.recv_queue,
      )) in
    recv_first len msg msgs (msg ∷ msgs) pcb refl k h.stream (ap (◌++◌ held) nothing)
