-- ===== src/Server/State.antt =====
-- The state of a CMySqlTask (StudentManagementServer/CMySqlTask.h and the locals of DoTask), the
-- MySQL client library that it calls, and the steps that its handlers share.
use school_information_manag.Prelude.{
  ℕ, zero, suc, ◌^◌, ◌≡◌, refl, ap, Bool, Option, none, some, List, [], ◌∷◌, arith, leb,
  if◌then◌else◌, length, Bytes, ℤ,
}
use school_information_manag.Proto.{PacketHdr, hdr_bytes}
use school_information_manag.Net.{Arrival, bytes, error, blocks, recv, Outbox, send}
use school_information_manag.Listing.{Row}

-- The MySQL C API on one connection. The value of `real_query` and `query` is the returned code: the
-- library documents 0 for success and a value above 0 for an error. A result set is the list of its
-- rows, and NULL is `none`. `first_row` is `mysql_fetch_row` on a fresh result; what it does with a
-- NULL result is left open.
pub record MySql : Type 1 where
  pub Conn : Type 0
  pub real_query : Bytes → Conn → ℤ × Conn
  pub query : Bytes → Conn → ℤ × Conn
  pub store_result : Conn → Option (List Row) × Conn
  pub first_row : Option (List Row) → Option Row
  pub next_result : Conn → ℤ × Conn
  pub close : Conn → Conn
  pub first_row-nil : first_row (some []) ≡ none
  pub first_row-cons : (row : Row) (rows : List Row) → first_row (some (row ∷ rows)) ≡ some row

-- What the machine decides: the old contents of the memory that a `recv` leaves unwritten, and
-- whether a file of this name can be opened.
pub record Machine : Type 0 where
  pub stale : List Arrival → ℕ → ℕ
  pub can_open : Bytes → Bool

-- `pBuf`: never allocated, allocated, or deleted and still pointing at the memory.
pub data Buf : Type 0 where
  unset live dangling : Buf

-- `double_free`: `delete[]` of a dangling pointer. `null_text`: a NULL pointer where text is read.
pub data Fault : Type 0 where
  double_free null_text : Fault

-- Why a task stops: a `recv` that does not return, the loop's `break` on a failed `recv`, or
-- undefined behaviour.
pub data End : Type 0 where
  blocked disconnected : End
  fault : Fault → End

module _ (m : MySql) where
  -- `disk` maps a file's name to its bytes, and `draws` are the random numbers to come.
  pub record Task : Type 0 where
    pub inbox : List Arrival
    pub out : Outbox
    pub buf : Buf
    pub conn : m.Conn
    pub disk : Bytes → Option Bytes
    pub draws : List ℕ

  -- One iteration of the loop of DoTask goes on or ends the task.
  pub data Step : Type 0 where
    next : Task → Step
    stop : End → Task → Step

-- The first bytes of the memory are written and the others keep what they held.
abbrev pub overlay : ℕ → Bytes → (ℕ → ℕ) → Bytes
overlay zero bs old = []
overlay (suc n) [] old = old n ∷ overlay n [] old
overlay (suc n) (b ∷ bs) old = b ∷ overlay n bs old

pub overlay_full : (n : ℕ) (bs : Bytes) (old : ℕ → ℕ) → length bs ≡ n → overlay n bs old ≡ bs
overlay_full zero [] old h = refl
overlay_full zero (b ∷ bs) old h = absurd (omega arith)
overlay_full (suc n) [] old h = absurd (omega arith)
overlay_full (suc n) (b ∷ bs) old h = ap (◌∷◌ b) (overlay_full n bs old (omega arith))

module _ {m : MySql} where
  abbrev free_buf : Buf → Task m → Step m
  free_buf unset t = next t
  free_buf live t = next (record t { buf = dangling })
  free_buf dangling t = stop (fault double_free) t

  -- `delete[] pBuf;`
  unfoldable pub delete_buf : Task m → Step m
  delete_buf t = free_buf t.buf t

  abbrev pub bind : Step m → (Task m → Step m) → Step m
  bind (next t) f = f t
  bind (stop e t) f = stop e t

  -- A send whose failure is only logged.
  unfoldable pub send_logged : Bytes → Task m → Task m
  send_logged bs t = record t { out = (send bs t.out).1 }

  -- `sentHdr.nCmd = cmd; sentHdr.nLen = 0; send(...)`
  unfoldable pub reply : ℕ → Task m → Task m
  reply cmd t = send_logged (hdr_bytes (record { n_cmd = cmd; n_len = 0 })) t

  -- `pBuf = new char[hdr.nLen + 1]; recv(..., pBuf, hdr.nLen, 0)`: on a failed `recv` the buffer is
  -- deleted and the loop continues; otherwise `handle` gets the bytes in front of the final NUL. From
  -- 2 ^ 31 on the length is negative as the `int` that `recv` takes, and the call fails and reads
  -- nothing.
  unfoldable pub receive_query : Machine → PacketHdr → (Bytes → Task m → Step m) → Task m → Step m
  receive_query env hdr handle t =
      let (r, later) = recv hdr.n_len t.inbox in
      let started = record t { inbox = later; buf = live } in
      if leb (2 ^ 31) hdr.n_len then delete_buf (record t { buf = live }) else elim r [
        | blocks ↦ stop blocked started
        | error e ↦ delete_buf started
        | bytes bs ↦ handle (overlay hdr.n_len bs (env.stale later)) started
      ]
