-- ===== src/TcpSocket/Parts.antt =====
-- What `Recv` reads of a packet (StudentManagementServer/TcpSocket.cpp), the parts of a message, and the
-- parts of a sequence of messages.
use school_information_manag.Prelude.{
  ℕ, suc, ◌+◌, ◌≤◌, ◌<◌, ◌≡◌, refl, sym, ap, ◌∙◌, subst, ◌⊎◌, inl, inr, List, [], ◌∷◌, ◌++◌, map,
  append-nil, append_assoc, arith, length, length-append, Bytes,
}
use school_information_manag.TcpSocket.{TcpPacket}
use school_information_manag.TcpSocket.Sending.{Segments, finish, segment_of}

-- A packet less its time, its count of sendings and what only the network reads.
pub record Part : Type 0 where
  pub seq : ℕ
  pub len : ℕ
  pub countdown : ℕ
  pub bytes : Bytes

abbrev pub part_of : TcpPacket → Part
part_of p = record { seq = p.n_seq; len = p.n_len; countdown = p.n_segment; bytes = p.bytes }

abbrev pub parts_of : List TcpPacket → List Part
parts_of ps = map part_of ps

pub length-parts_of : (ps : List TcpPacket) → length (parts_of ps) ≡ length ps
length-parts_of [] = refl
length-parts_of (p ∷ ps) = ap suc (length-parts_of ps)

pub parts_of-append : (ps qs : List TcpPacket) → parts_of (ps ++ qs) ≡ parts_of ps ++ parts_of qs
parts_of-append [] qs = refl
parts_of-append (p ∷ ps) qs = ap (◌∷◌ (part_of p)) (parts_of-append ps qs)

-- The parts of one message, with consecutive numbers from this one on, counted down to 0.
pub data Message : ℕ → Bytes → List Part → Type 0 where
  whole : {seq : ℕ} → Message seq [] []
  part :
      {seq : ℕ} {msg rest : Bytes} {ps : List Part} (x : Part)
      → x.seq ≡ seq
      → x.len ≡ length x.bytes
      → 0 < x.len
      → x.countdown ≡ length ps
      → msg ≡ x.bytes ++ rest
      → Message (seq + 1) rest ps
      → Message seq msg (x ∷ ps)

pub Segments-Message :
    {conv seq : ℕ} {msg : Bytes} {ps : List TcpPacket}
    → Segments conv seq msg ps
    → Message seq msg (parts_of ps)
Segments-Message finish = whole
Segments-Message (segment_of {ps = qs} p e1 e2 e3 len pos_n max seg cnt text more) =
    part (part_of p) e3 len pos_n (seg ∙ sym (length-parts_of qs)) text (Segments-Message more)

-- The parts of these messages, one after the other, none of which is empty.
pub data Stream : ℕ → List Bytes → List Part → Type 0 where
  silent : {seq : ℕ} → Stream seq [] []
  message :
      {seq : ℕ} {msg : Bytes} {msgs : List Bytes} {ps qs all : List Part}
      → 0 < length msg
      → Message seq msg ps
      → all ≡ ps ++ qs
      → Stream (seq + length ps) msgs qs
      → Stream seq (msg ∷ msgs) all

pub Stream-append :
    {seq : ℕ} {msgs : List Bytes} {ps : List Part} (msg : Bytes) (qs : List Part)
    → Stream seq msgs ps
    → 0 < length msg
    → Message (seq + length ps) msg qs
    → Stream seq (msgs ++ msg ∷ []) (ps ++ qs)
Stream-append {seq} msg qs silent h m =
    message h (subst (λ n. Message n msg qs) (omega arith) m) (sym (append-nil qs)) silent
Stream-append {seq} msg qs (message {ps} {qs = rs} {all} k n e s) h m =
    message k n (rw e (append_assoc ps rs qs)) (
      Stream-append msg qs s h
        (subst (λ n. Message n msg qs) (omega (arith, ap length e, length-append ps rs)) m))

-- The parts have consecutive numbers from this one on.
abbrev pub Counted : ℕ → List Part → Type 0
Counted seq [] = Unit
Counted seq (x ∷ xs) = (x.seq ≡ seq) × Counted (seq + 1) xs

pub Counted-append :
    (seq next : ℕ) (xs ys : List Part)
    → next ≡ seq + length xs
    → Counted seq xs
    → Counted next ys
    → Counted seq (xs ++ ys)
Counted-append seq next [] ys e h k = subst (λ n. Counted n ys) (omega (arith, e)) k
Counted-append seq next (x ∷ xs) ys e h k =
    (h.0, Counted-append (seq + 1) next xs ys (omega (arith, e)) h.1 k)

Message-Counted : {seq : ℕ} {msg : Bytes} {ps : List Part} → Message seq msg ps → Counted seq ps
Message-Counted whole = tt
Message-Counted (part x e len pos_n seg text more) = (e, Message-Counted more)

pub Stream-Counted :
    {seq : ℕ} {msgs : List Bytes} {ps : List Part} → Stream seq msgs ps → Counted seq ps
Stream-Counted silent = tt
Stream-Counted {seq} (message {ps} {qs} h m e s) =
    rw e (Counted-append seq (seq + length ps) ps qs refl (Message-Counted m) (Stream-Counted s))

-- One of the parts is this one.
abbrev pub Has : Part → List Part → Type 0
Has x [] = ⊥
Has x (y ∷ ys) = (x ≡ y) ⊎ Has x ys

pub Has-left : (x : Part) (xs ys : List Part) → Has x xs → Has x (xs ++ ys)
Has-left x [] ys h = absurd h
Has-left x (z ∷ xs) ys (inl e) = inl e
Has-left x (z ∷ xs) ys (inr h) = inr (Has-left x xs ys h)

pub Has-right : (x : Part) (xs ys : List Part) → Has x ys → Has x (xs ++ ys)
Has-right x [] ys h = h
Has-right x (z ∷ xs) ys h = inr (Has-right x xs ys h)

Has-bound : (x : Part) (seq : ℕ) (xs : List Part) → Counted seq xs → Has x xs → seq ≤ x.seq
Has-bound x seq [] c h = absurd h
Has-bound x seq (y ∷ ys) c (inl e) = omega (arith, ap (λ (z : Part). z.seq) e, c.0)
Has-bound x seq (y ∷ ys) c (inr h) = omega (arith, Has-bound x (seq + 1) ys c.1 h)

-- A part with the number that comes next is the next part.
pub Has-next :
    (x : Part) (seq : ℕ) (front rest : List Part)
    → Counted seq (front ++ rest)
    → Has x (front ++ rest)
    → x.seq ≡ seq + length front
    → (rest' : List Part) × (rest ≡ x ∷ rest')
Has-next x seq [] [] c h e = absurd h
Has-next x seq [] (y ∷ ys) c (inl i) e = (ys, ap (λ z. z ∷ ys) (sym i))
Has-next x seq [] (y ∷ ys) c (inr h) e = absurd (omega (arith, Has-bound x (seq + 1) ys c.1 h, e))
Has-next x seq (z ∷ zs) rest c (inl i) e =
    absurd (omega (arith, ap (λ (w : Part). w.seq) i, c.0, e))
Has-next x seq (z ∷ zs) rest c (inr h) e = Has-next x (seq + 1) zs rest c.1 h (omega (arith, e))
