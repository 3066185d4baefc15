-- ===== src/Examples/Fixtures.antt =====
-- A database whose answers are fixed, and the state of a server's task and of a client's receiver.
use school_information_manag.Prelude.{
  refl, Bool, true, Option, none, some, List, [], ◌∷◌, ◌++◌, Bytes, codes, ℤ, negsuc,
}
use school_information_manag.Net.{Arrival, outbox_of}
use school_information_manag.Listing.{Row}
use school_information_manag.Server.State.{MySql, Machine, Buf, Task}
use school_information_manag.Client.Main.{Page, Receiver}

abbrev head_row : Option (List Row) → Option Row
head_row none = none
head_row (some []) = none
head_row (some (row ∷ rows)) = some row

-- It notes each statement, returns this code and yields this result.
abbrev pub db : ℤ → Option (List Row) → MySql
db code res = record {
  Conn = List Bytes;
  real_query = λ s c. (code, c ++ s ∷ []);
  query = λ s c. (code, c ++ s ∷ []);
  store_result = λ c. (res, c);
  first_row = head_row;
  next_result = λ c. (negsuc 0, c);
  close = λ c. c;
  first_row-nil = refl;
  first_row-cons = λ row rows. refl;
}

abbrev pub machine : Machine
machine = record { stale = λ later i. 255; can_open = λ name. true }

abbrev pub task : (code : ℤ) (res : Option (List Row)) (buf : Buf) → Task (db code res)
task code res buf = record {
  inbox = [];
  out = outbox_of [];
  buf = buf;
  conn = [];
  disk = λ name. none;
  draws = 7 ∷ [];
}

abbrev pub statement : Bytes
statement = codes "DELETE FROM class"

abbrev pub receiver : List Arrival → Receiver
receiver inbox = record {
  inbox = inbox;
  recv_hdr = 0 ∷ 0 ∷ 0 ∷ 0 ∷ 0 ∷ 0 ∷ [];
  files = λ w. none;
  posted = [];
}

abbrev pub can_write_all : Page → Bool
can_write_all w = true
