-- ===== src/Net.antt =====
-- The Winsock calls that both programs make on a connected TCP socket. A connection's future is the
-- list of what the calls of `recv` will find; how the network cuts the bytes into pieces is open.
-- The data that a `recv` does not take stays in the socket.
pub mod Stream
use school_information_manag.Prelude.{ℕ, Bool, true, false, List, [], ◌∷◌, ◌++◌, take, drop, Bytes}

-- `got` holds one byte at least. `failed` is a return of SOCKET_ERROR with the value that
-- `WSAGetLastError` has then, `closed` the orderly end of the stream.
pub data Arrival : Type 0 where
  got : ℕ → Bytes → Arrival
  failed : ℕ → Arrival
  closed : Arrival

-- `blocks`: nothing has arrived and the call does not return.
pub data Received : Type 0 where
  bytes : Bytes → Received
  error : ℕ → Received
  blocks : Received

abbrev pub push_back : Bytes → List Arrival → List Arrival
push_back [] inbox = inbox
push_back (b ∷ bs) inbox = got b bs ∷ inbox

-- `recv(socket, buf, n, 0)`
unfoldable pub recv : ℕ → List Arrival → Received × List Arrival
recv n [] = (blocks, [])
recv n (got b bs ∷ inbox) = (bytes (take n (b ∷ bs)), push_back (drop n (b ∷ bs)) inbox)
recv n (failed e ∷ inbox) = (error e, inbox)
recv n (closed ∷ inbox) = (bytes [], closed ∷ inbox)

-- What was sent, and the results of the calls of `send` to come: `false` is SOCKET_ERROR. A list
-- that has run out stands for calls that succeed.
pub record Outbox : Type 0 where
  pub sent : List Bytes
  pub outcomes : List Bool

abbrev send_outcome : Bytes → Outbox → List Bool → Bool × Outbox
send_outcome bs o [] = (true, record o { sent = o.sent ++ bs ∷ [] })
send_outcome bs o (true ∷ later) = (true, record { sent = o.sent ++ bs ∷ []; outcomes = later })
send_outcome bs o (false ∷ later) = (false, record o { outcomes = later })

-- `send(socket, buf, n, 0)` with the bytes of the buffer; the result is false on SOCKET_ERROR.
unfoldable pub send : Bytes → Outbox → Bool × Outbox
send bs o = send_outcome bs o o.outcomes

-- An outbox whose sends all succeed.
abbrev pub outbox_of : List Bytes → Outbox
outbox_of sent = record { sent = sent; outcomes = [] }
