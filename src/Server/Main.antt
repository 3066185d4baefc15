-- ===== src/Server/Main.antt =====
-- StudentManagementServer/StudentManagementServer.cpp: the server's start and its loop over `accept`.
use school_information_manag.Prelude.{
  arith, ◌≡◌, ◌&&◌, ℕ, Bool, true, false, not, Option, none, some, List, [], ◌∷◌, ◌++◌,
  if◌then◌else◌,
}

-- The results of the calls at the start: whether `WSAStartup` succeeds, the socket unless `socket`
-- fails, and whether `bind` and `listen` succeed.
pub record Startup : Type 0 where
  pub startup : Bool
  pub socket : Option ℕ
  pub bound : Bool
  pub listening : Bool

-- `listenSocket`: not assigned yet, assigned the value of a failed call, or a socket.
pub data Handle : Type 0 where
  unset invalid : Handle
  handle : ℕ → Handle

-- `InitSocket`: the result and what is in the variable.
unfoldable pub init_socket : Startup → Bool × Handle
init_socket s =
    if s.startup
    then elim s.socket [ none ↦ (false, invalid) | some h ↦ (true, handle h) ]
    else (false, unset)

-- `main` up to its loop: an exception leads to `UninitSocket` on the variable and to the result -1.
pub data Started : Type 0 where
  listens : ℕ → Started
  uninit : Handle → Started

unfoldable pub start_server : Startup → Started
start_server s =
    let (done, h) = init_socket s in
    if not done
    then uninit h
    else if not s.bound
    then uninit h
    else if not s.listening
    then uninit h
    else elim h [ unset ↦ uninit unset | invalid ↦ uninit invalid | handle n ↦ listens n ]

-- What a call of `accept` returns, and whether the making of the task or `AddTask` throws.
pub data Accept : Type 0 where
  accept_error : Accept
  client : ℕ → Bool → Accept

-- The clients whose tasks are in the pool, and the sockets closed by the `catch`, in order.
pub record Accepted : Type 0 where
  pub tasks : List ℕ
  pub closed : List ℕ

-- One round of the loop.
unfoldable pub accept_round : Accept → Accepted → Accepted
accept_round accept_error s = s
accept_round (client c true) s = record s { closed = s.closed ++ c ∷ [] }
accept_round (client c false) s = record s { tasks = s.tasks ++ c ∷ [] }

unfoldable pub accept_rounds : List Accept → Accepted → Accepted
accept_rounds [] s = s
accept_rounds (a ∷ more) s = accept_rounds more (accept_round a s)

-- How the start ends, by the results of its calls.
abbrev pub start_of : Startup → Started
start_of s = elim s.startup [
  | false ↦ uninit unset
  | true ↦ elim s.socket [
    | none ↦ uninit invalid
    | some h ↦ if s.bound && s.listening then listens h else uninit (handle h)
  ]
]

-- The server listens just when all four calls succeed. Otherwise it hands `UninitSocket` its
-- variable, which holds the socket if there is one, the failed result of `socket` if that call
-- failed, and nothing at all if WSAStartup failed.
pub start_server_ends : (s : Startup) → start_server s ≡ start_of s
unfolding start_server init_socket
start_server_ends s = ground arith
