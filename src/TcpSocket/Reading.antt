-- ===== src/TcpSocket/Reading.antt =====
-- `PeekSize`, `Recv` and its pass over the receive buffer (StudentManagementServer/TcpSocket.cpp) on the
-- parts of a stream of messages, of which any number has arrived.
use school_information_manag.Prelude.{
  ℕ, ◌+◌, ◌<◌, ◌≡◌, refl, sym, ap, subst, ◌∙◌, inl, inr, none, some, List, [], ◌∷◌, ◌++◌,
  append_assoc, arith, ==_iff, ◌==◌, Bool-cases, length, length-append, take, take-all, All, Bytes,
}
use school_information_manag.TcpSocket.{TcpPacket, peek_size, copy_message, in_order}
use school_information_manag.TcpSocket.Receiving.{
  peek_size-cons-zero, peek_size-cons-suc, copy_message_done, copy_message_more,
}
use school_information_manag.TcpSocket.Parts.{
  Part, part_of, parts_of, Message, whole, part, Counted, Has, Has-next,
}

head_part : Part → List Part → Part
head_part x [] = x
head_part x (y ∷ ys) = y

tail_parts : List Part → List Part
tail_parts [] = []
tail_parts (y ∷ ys) = ys

same_head : {x y : Part} {xs ys : List Part} → x ∷ xs ≡ y ∷ ys → x ≡ y
unfolding head_part
same_head {x} e = ap (head_part x) e

same_tail : {x y : Part} {xs ys : List Part} → x ∷ xs ≡ y ∷ ys → xs ≡ ys
unfolding tail_parts
same_tail e = ap tail_parts e

-- The queue begins with the whole message, or it holds a proper part of it.
pub data Peeked (k : ℕ) (msg : Bytes) (q : List TcpPacket) (rest ps qs : List Part) : Type 0 where
  early : peek_size k q ≡ none → length q < length ps → Peeked k msg q rest ps qs
  ready :
      peek_size k q ≡ some (k + length msg)
      → (tail : List Part) → parts_of q ≡ ps ++ tail
      → qs ≡ tail ++ rest
      → Peeked k msg q rest ps qs

Peeked-cons :
    (k : ℕ) {msg msg' : Bytes} (p : TcpPacket) {q : List TcpPacket} {rest ps qs : List Part}
    → 0 < p.n_segment
    → length msg ≡ p.n_len + length msg'
    → Peeked (k + p.n_len) msg' q rest ps qs
    → Peeked k msg (p ∷ q) rest (part_of p ∷ ps) qs
Peeked-cons k p {q} h e (early n c) = early (peek_size-cons-suc k p q h ∙ n) (omega (arith, c))
Peeked-cons k p {q} h e (ready s tail f g) =
    ready (peek_size-cons-suc k p q h ∙ s ∙ ap some (omega (arith, e))) tail
      (ap (◌∷◌ (part_of p)) f) g

length-part :
    (p : TcpPacket) (x : Part) (msg rest : Bytes)
    → part_of p ≡ x
    → x.len ≡ length x.bytes
    → msg ≡ x.bytes ++ rest
    → length msg ≡ p.n_len + length rest
length-part p x msg rest e l text =
    omega (arith, ap (λ (y : Part). y.len) e, l, ap length text, length-append x.bytes rest)

-- How a queue and the parts that come after it compare with a message and the parts after that.
pub peek_part :
    (k : ℕ) {seq : ℕ} {msg : Bytes} {ps : List Part} (q : List TcpPacket) (rest qs : List Part)
    → 0 < length msg
    → Message seq msg ps
    → ps ++ qs ≡ parts_of q ++ rest
    → Peeked k msg q rest ps qs
unfolding peek_size
peek_part k q rest qs h whole e = absurd (omega arith)
peek_part k [] rest qs h (part x i len pos_n seg text more) e = early refl (omega arith)
peek_part k (p ∷ q) rest qs h (part {msg} {rest = msg'} x i len pos_n seg text whole) e =
    let same : part_of p ≡ x = sym (same_head e) in
    ready
      (peek_size-cons-zero k p q (ap (λ (y : Part). y.countdown) same ∙ seg)
        ∙ ap some (omega (arith, length-part p x msg msg' same len text)))
      (parts_of q) (ap (λ y. y ∷ parts_of q) same) (same_tail e)
peek_part k (p ∷ q) rest qs h
      (part {msg} {rest = msg'} x i len pos_n seg text
        (part {msg = msg1} {rest = msg2} {ps} y i2 len2 pos_n2 seg2 text2 more))
      e =
    let same : part_of p ≡ x = sym (same_head e) in
    subst (λ z. Peeked k msg (p ∷ q) rest (z ∷ y ∷ ps) qs) same
      (Peeked-cons k p (omega (arith, ap (λ (z : Part). z.countdown) same, seg))
        (length-part p x msg msg' same len text)
        (peek_part (k + p.n_len) q rest qs
          (omega (arith, ap length text2, length-append y.bytes msg2))
          (part y i2 len2 pos_n2 seg2 text2 more) (same_tail e)))

-- What `Recv` copies when the queue begins with a whole message.
pub copy_part :
    (size copied : ℕ) {seq : ℕ} {msg : Bytes} {ps : List Part} (q : List TcpPacket)
    (tail : List Part)
    → size ≡ copied + length msg
    → Message seq msg ps
    → parts_of q ≡ ps ++ tail
    → (q' : List TcpPacket) × (copy_message size copied q ≡ (msg, size, q')) × (parts_of q' ≡ tail)
copy_part size copied q tail h whole e =
    (q, ap (λ c. copy_message size c q) (omega (arith, h)) ∙ copy_message_done size q, e)
copy_part size copied [] tail h (part x i len pos_n seg text more) e =
    absurd (omega (arith, ap length e))
copy_part size copied (p ∷ q) tail h (part {msg} {rest = msg'} x i len pos_n seg text more) e =
    let same : part_of p ≡ x = same_head e in
    let sizes = length-part p x msg msg' same len text in
    let (q', copy, left) =
      copy_part size (copied + p.n_len) q tail (omega (arith, h, sizes)) more (same_tail e) in
    let bytes : take p.n_len p.bytes ≡ x.bytes =
      ap (λ (y : Part). take y.len y.bytes) same ∙ take-all x.len x.bytes (omega (arith, len)) in
    (
      q',
      copy_message_more size copied p q msg' size q'
            (omega (arith, h, sizes, ap (λ (y : Part). y.len) same)) copy
          ∙ ap (λ (bs : Bytes). (bs, size, q')) (rw bytes (sym text)),
      left,
    )

-- What a pass over the buffer makes of packets that are all parts of the stream `all`, of which
-- `rest` has not reached the queue.
pub record Moved (next : ℕ) (rest : List Part) (r : List TcpPacket × List TcpPacket × ℕ)
    : Type 0 where
  pub later : List Part
  pub continues : rest ≡ parts_of r.1 ++ later
  pub count : r.2 ≡ next + length r.1

pub in_order-Moved :
    (next : ℕ) (buf : List TcpPacket) (all front rest : List Part)
    → Counted 0 all
    → All (λ p. Has (part_of p) all) buf
    → all ≡ front ++ rest
    → next ≡ length front
    → Moved next rest (in_order next buf)
unfolding in_order
in_order-Moved next [] all front rest c h e n = record {
  later = rest;
  continues = refl;
  count = omega arith;
}
in_order-Moved next (p ∷ ps) all front rest c h e n = elim (Bool-cases (p.n_seq == next)) [
  | inl t ↦
      let (rest', f) =
        Has-next (part_of p) 0 front rest (subst (Counted 0) e c) (subst (Has (part_of p)) e (h.0))
          (omega (arith, (==_iff p.n_seq next).0 t, n)) in
      let m =
        in_order-Moved (next + 1) ps all (front ++ part_of p ∷ []) rest' c h.1
          (e ∙ ap (◌++◌ front) f ∙ sym (append_assoc front (part_of p ∷ []) rest'))
          (omega (arith, n, length-append front (part_of p ∷ []))) in
      rw t (record {
        later = m.later;
        continues = f ∙ ap (◌∷◌ (part_of p)) m.continues;
        count = omega (arith, m.count);
      })
  | inr t ↦
      let m = in_order-Moved next ps all front rest c h.1 e n in
      rw t (record { later = m.later; continues = m.continues; count = m.count })
]

pub in_order-All {κ} :
    (Q : TcpPacket → Type κ) (next : ℕ) (ps : List TcpPacket)
    → All Q ps
    → All Q (in_order next ps).0
unfolding in_order
in_order-All Q next [] h = tt
in_order-All Q next (p ∷ ps) h = elim (Bool-cases (p.n_seq == next)) [
  | inl e ↦ rw e (in_order-All Q (next + 1) ps h.1)
  | inr e ↦ rw e (h.0, in_order-All Q next ps h.1)
]
