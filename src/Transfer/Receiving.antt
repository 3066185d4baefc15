-- ===== src/Transfer/Receiving.antt =====
-- The receiving loop, for every way in which the network cuts the stream.
use school_information_manag.Prelude.{
  ℕ, zero, suc, ◌+◌, ◌-◌, ◌≤◌, ◌<◌, ◌≡◌, refl, sym, ap, ◌∙◌, subst, List, [], ◌∷◌, ◌++◌, append-nil,
  append_assoc, arith, lt→ltb, length, take, drop, length-append, take-append-drop, length-take,
  Bytes,
}
use school_information_manag.Net.{Arrival, closed, bytes, push_back, recv}
use school_information_manag.Net.Stream.{Delivers, idle, piece, push_back-Delivers}
use school_information_manag.Transfer.{Download, finished, looping, piece_size, receive_file}

-- One call of `recv` on a stream that has bytes to deliver takes some of them, `n` at most.
record Takes (n : ℕ) (inbox : List Arrival) (all : Bytes) : Type 0 where
  pub taken : Bytes
  pub rest : Bytes
  pub later : List Arrival
  pub some_taken : 0 < length taken
  pub at_most : length taken ≤ n
  pub parts : all ≡ taken ++ rest
  pub call : recv n inbox ≡ (bytes taken, later)
  pub delivers : Delivers later rest

recv-Takes :
    (n : ℕ) {inbox : List Arrival} {all : Bytes}
    → 0 < n
    → 0 < length all
    → Delivers inbox all
    → Takes n inbox all
unfolding recv
recv-Takes n pos_n h idle = absurd (omega arith)
recv-Takes zero pos_n h (piece b bs d e) = absurd (omega arith)
recv-Takes (suc n) pos_n h (piece b bs {inbox} {more} {all} d e) = record {
  taken = b ∷ take n bs;
  rest = drop n bs ++ more;
  later = push_back (drop n bs) inbox;
  some_taken = omega arith;
  at_most = omega (arith, length-take n bs);
  parts = rw (← append_assoc (take n bs) (drop n bs) more, take-append-drop n bs) e;
  call = refl;
  delivers = push_back-Delivers (drop n bs) inbox more d;
}

-- Two cuts of one list: the shorter first part is the beginning of the other.
cut_again :
    (xs ys zs ws : Bytes)
    → xs ++ ys ≡ zs ++ ws
    → length xs ≤ length zs
    → (zs ≡ xs ++ drop (length xs) zs) × (ys ≡ drop (length xs) zs ++ ws)
cut_again [] ys zs ws e h = (refl, e)
cut_again (x ∷ xs) ys [] ws e h = absurd (omega arith)
cut_again (x ∷ xs) ys (z ∷ zs) ws e h =
    let (p, q) = cut_again xs ys zs ws (cc) (omega arith) in (cc, q)

-- The outcome of a loop that writes `payload` and leaves the rest of the stream.
abbrev pub Completes : Bytes → Bytes → Download → Type 0
Completes file more d = (inbox : List Arrival) × (d ≡ finished file inbox) × Delivers inbox more

receive_file-none :
    (fuel total : ℕ) (file : Bytes) (inbox : List Arrival)
    → receive_file (suc fuel) (total + 0) total file inbox ≡ finished file inbox
unfolding receive_file
receive_file-none fuel total file inbox = ground arith

receive_file-step :
    (fuel expected total : ℕ) (file : Bytes) (inbox : List Arrival) (bs : Bytes)
    (later : List Arrival)
    → total < expected
    → recv (piece_size expected total) inbox ≡ (bytes bs, later)
    → receive_file (suc fuel) expected total file inbox
      ≡ receive_file fuel expected (total + length bs) (file ++ bs) later
unfolding receive_file
receive_file-step fuel expected total file inbox bs later h e = ground (arith, e)

piece_size-pos : (expected total : ℕ) → total < expected → 0 < piece_size expected total
piece_size-pos expected total h = ground arith

piece_size-le : (expected total : ℕ) → piece_size expected total ≤ expected - total
piece_size-le expected total = ground arith

-- By induction on the fuel: the size and the text are variables, so that no equation is carried.
receive_loop :
    (fuel expected total : ℕ) (file payload more whole : Bytes) {inbox : List Arrival}
    → length payload < fuel
    → expected ≡ total + length payload
    → whole ≡ file ++ payload
    → Delivers inbox (payload ++ more)
    → Completes whole more (receive_file fuel expected total file inbox)
receive_loop zero expected total file payload more whole h size text d = absurd (omega arith)
receive_loop (suc fuel) expected total file [] more whole {inbox} h size text d =
    (inbox, rw size (rw (text, append-nil file) (receive_file-none fuel total file inbox)), d)
receive_loop (suc fuel) expected total file (b ∷ bs) more whole {inbox} h size text d =
    let t : Takes (piece_size expected total) inbox ((b ∷ bs) ++ more) =
      recv-Takes (piece_size expected total) (piece_size-pos expected total (omega arith))
        (omega arith) d in
    let fits : length t.taken ≤ length (b ∷ bs) =
      omega (arith, t.at_most, piece_size-le expected total) in
    let left : Bytes = drop (length t.taken) (b ∷ bs) in
    let cut : ((b ∷ bs) ≡ t.taken ++ left) × (t.rest ≡ left ++ more) =
      cut_again t.taken t.rest (b ∷ bs) more (sym t.parts) fits in
    let sizes : length (b ∷ bs) ≡ length t.taken + length left =
      ap length cut.0 ∙ length-append t.taken left in
    let rest : Completes whole more
        (receive_file fuel expected (total + length t.taken) (file ++ t.taken) t.later) =
      receive_loop fuel expected (total + length t.taken) (file ++ t.taken) left more whole
        (omega (arith, sizes, t.some_taken)) (omega (arith, sizes))
        (text ∙ ap (◌++◌ file) cut.0 ∙ sym (append_assoc file t.taken left))
        (subst (Delivers t.later) cut.1 t.delivers) in
    (
      rest.0,
      receive_file-step fuel expected total file inbox t.taken t.later (omega arith) t.call
          ∙ rest.1,
      rest.2,
    )

-- The client's loop, given the size of the file, receives exactly that file and leaves what follows
-- it in the socket, whatever the pieces in which the network delivers the bytes; a fuel of one more
-- than the size is enough.
pub receive_file_complete :
    (payload more : Bytes) {inbox : List Arrival}
    → Delivers inbox (payload ++ more)
    → Completes payload more (receive_file (suc (length payload)) (length payload) 0 [] inbox)
receive_file_complete payload more d =
    receive_loop (suc (length payload)) (length payload) 0 [] payload more payload (omega arith)
      (omega arith) refl d

-- When the server closes the connection before the last byte, the loop never ends: no fuel suffices,
-- since `recv` returns 0 for ever and only a negative result breaks the loop.
pub receive_file_closed :
    (fuel expected total : ℕ) (file : Bytes) (inbox : List Arrival)
    → total < expected
    → receive_file fuel expected total file (closed ∷ inbox) ≡ looping
unfolding receive_file recv
receive_file_closed zero expected total file inbox h = refl
receive_file_closed (suc fuel) expected total file inbox h =
    rw (lt→ltb total expected h, receive_file)
      (receive_file_closed fuel expected (total + 0) (file ++ []) inbox (omega arith))
