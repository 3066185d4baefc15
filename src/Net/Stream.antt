-- ===== src/Net/Stream.antt =====
-- The bytes of a stream, whatever the pieces in which they arrive.
use school_information_manag.Prelude.{ℕ, ◌≡◌, refl, List, [], ◌∷◌, ◌++◌, append_assoc, Bytes}
use school_information_manag.Net.{Arrival, got, push_back}

-- The inbox delivers exactly these bytes, in pieces of any size, and nothing else yet.
pub data Delivers : List Arrival → Bytes → Type 0 where
  idle : Delivers [] []
  piece :
      (b : ℕ) (bs : Bytes) {inbox : List Arrival} {more all : Bytes}
      → Delivers inbox more
      → all ≡ b ∷ bs ++ more
      → Delivers (got b bs ∷ inbox) all

unfoldable pub concat : List Bytes → Bytes
concat [] = []
concat (x ∷ xs) = x ++ concat xs

pub concat-append : (xs ys : List Bytes) → concat (xs ++ ys) ≡ concat xs ++ concat ys
unfolding concat
concat-append [] ys = refl
concat-append (x ∷ xs) ys = rw (concat-append xs ys, append_assoc)

pub push_back-Delivers :
    (left : Bytes) (inbox : List Arrival) (more : Bytes)
    → Delivers inbox more
    → Delivers (push_back left inbox) (left ++ more)
push_back-Delivers [] inbox more d = d
push_back-Delivers (b ∷ bs) inbox more d = piece b bs d refl
