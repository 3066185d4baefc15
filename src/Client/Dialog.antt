-- ===== src/Client/Dialog.antt =====
-- What the four dialogs of StudentManagementClient share: the request that they queue, the list
-- control, and the background thread that sends what is queued.
use school_information_manag.Prelude.{
  ℕ, zero, suc, Bool, true, false, Option, none, some, List, [], ◌∷◌, if◌then◌else◌, length, take,
  Bytes,
}
use school_information_manag.Proto.{PacketHdr, hdr_bytes}
use school_information_manag.Net.{Outbox, send}

-- The first message number that Windows leaves to programs.
abbrev pub wm_user : ℕ
wm_user = 1024

-- `stQueryRequest`
pub record QueryRequest : Type 0 where
  pub hdr : PacketHdr
  pub query : Bytes

-- `hdr.nCmd = cmd; hdr.nLen = query.GetLength();`
abbrev pub query_request : ℕ → Bytes → QueryRequest
query_request cmd query = record {
  hdr = record { n_cmd = cmd; n_len = length query };
  query = query;
}

abbrev pub is_empty : Bytes → Bool
is_empty [] = true
is_empty (c ∷ cs) = false

-- The message box for an edit control that is empty.
abbrev pub box_if_empty : Bytes → Bytes → List Bytes
box_if_empty field message = if is_empty field then message ∷ [] else []

-- A condition that a query has for an edit control that is not empty.
abbrev pub unless_empty : Bytes → Bytes → Bytes
unless_empty field condition = if is_empty field then [] else condition

-- The rows of a list control. Which item is marked or selected is asked of the control, so it is an
-- argument of the handlers; `none` is -1.
abbrev pub Items : Type 0
Items = List (List Bytes)

abbrev pub column : List Bytes → ℕ → Bytes
column [] i = []
column (t ∷ ts) zero = t
column (t ∷ ts) (suc i) = column ts i

-- `GetItemText`: empty where there is no such item.
abbrev pub item_text : Items → ℕ → ℕ → Bytes
item_text [] r c = []
item_text (row ∷ rows) zero c = column row c
item_text (row ∷ rows) (suc r) c = item_text rows r c

-- `DeleteItem`: it fails where there is no such item.
abbrev pub delete_row : ℕ → Items → Items
delete_row r [] = []
delete_row zero (row ∷ rows) = rows
delete_row (suc r) (row ∷ rows) = row ∷ delete_row r rows

abbrev pub delete_item : Option ℕ → Items → Items
delete_item none rows = rows
delete_item (some r) rows = delete_row r rows

-- The two calls of `Sent`: where the first fails, the `continue` passes the second over.
unfoldable pub send_request : QueryRequest → Outbox → Outbox
send_request r o =
    let (done, o') = send (hdr_bytes r.hdr) o in
    if done then (send (take r.hdr.n_len r.query) o').1 else o'

-- One round of a background thread: it waits while the queue is empty.
unfoldable pub background_round : List QueryRequest → Outbox → Option (List QueryRequest × Outbox)
background_round [] o = none
background_round (r ∷ queue) o = some (queue, send_request r o)
